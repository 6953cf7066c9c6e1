-- ===== src/Ring/Spsc/Safety.antt =====
-- Every interleaving of ring_push and ring_pop keeps the queue's history.
use waltex.Base.{
  ℕ, suc, ◌-◌, ◌<◌, ◌≡◌, refl, sym, ap, ◌∙◌, subst, inl, inr, true, some, [], ◌∷◌, ◌++◌,
  append_assoc, arith, ◌==◌, Bool-cases, get_or, set, length-set, get_or-set_self, get_or-set_ne,
}
use waltex.Ring.{Ring, ring_size, next_step, push, pop}
use waltex.Ring.Queue.{
  IsRing, bytes_from, count, contents, bytes_from_snoc, bytes_from-set_outside, bytes_from_ne_zero,
}
use waltex.Ring.Spsc.{
  Producer, outside, has_room, stored, Consumer, away, found, loaded, Shared, Step, check_full,
  store, publish, check_empty, load, release, Reach, here, next, ProducerKnows, ConsumerKnows,
  IsSafe,
}

-- The consumer's knowledge outlives a store at `head`, and a longer window.
Consumer-store :
    (r : Ring) (v : ℕ) (c : Consumer)
    → IsRing r
    → ConsumerKnows r c
    → ConsumerKnows (record r { buf = set r.buf r.head v }) c
Consumer-store r v away w k = k
Consumer-store r v found w k = k
Consumer-store r v (loaded x) w (some_in, e) =
    (some_in, get_or-set_ne r.buf r.head r.tail v 0 (λ p. omega arith) ∙ e)

Consumer-publish :
    (r : Ring) (c : Consumer)
    → IsRing r
    → count r < ring_size - 1
    → ConsumerKnows r c
    → ConsumerKnows (record r { head = next_step r.head }) c
Consumer-publish r away w room k = k
Consumer-publish r found w room k = omega arith
Consumer-publish r (loaded x) w room (some_in, e) = (omega arith, e)

-- The producer's knowledge outlives a release.
Producer-release :
    (r : Ring) (p : Producer)
    → IsRing r
    → 0 < count r
    → ProducerKnows r p
    → ProducerKnows (record r { tail = next_step r.tail }) p
Producer-release r outside w some_in k = k
Producer-release r (has_room v) w some_in k = omega arith
Producer-release r (stored v) w some_in (room, e) = (omega arith, e)

contents-store :
    (r : Ring) (v : ℕ) → IsRing r → contents (record r { buf = set r.buf r.head v }) ≡ contents r
contents-store r v w =
    bytes_from-set_outside r.buf r.tail (count r) r.head v w.tail_in (omega arith) (omega arith)

contents-publish :
    (r : Ring) (v : ℕ)
    → IsRing r
    → count r < ring_size - 1
    → get_or r.buf r.head 0 ≡ v
    → contents (record r { head = next_step r.head }) ≡ contents r ++ (v ∷ [])
contents-publish r v w room e =
    let longer : count (record r { head = next_step r.head }) ≡ suc (count r) = omega arith in
    ap (λ n. bytes_from r.buf r.tail n) longer
    ∙ (bytes_from_snoc r.buf r.tail (count r) r.head w.tail_in (omega arith)
        ∙ ap (λ x. contents r ++ (x ∷ [])) e)

contents-release :
    (r : Ring) (v : ℕ)
    → 0 < count r
    → get_or r.buf r.tail 0 ≡ v
    → IsRing r
    → contents r ≡ v ∷ contents (record r { tail = next_step r.tail })
contents-release r v some_in e w = ground (arith, bytes_from_ne_zero r.buf r.tail (count r))

-- One step keeps the invariant.
pub Step-IsSafe : {s t : Shared} → Step s t → IsSafe s → IsSafe t
Step-IsSafe (check_full s v at free) safe = record {
  ring = safe.ring;
  producer = ground arith;
  consumer = safe.consumer;
  history = safe.history;
}
  where
    open safe use {ring as w}
Step-IsSafe (store s v at) safe =
    let knows : ProducerKnows s.ring (has_room v) = subst (ProducerKnows s.ring) at safe.producer in
    record {
      ring = ground (arith, length-set s.ring.buf s.ring.head v, safe.ring);
      producer = (knows, get_or-set_self s.ring.buf s.ring.head v 0 (omega (arith, safe.ring)));
      consumer = Consumer-store s.ring v s.consumer safe.ring safe.consumer;
      history = rw (contents-store s.ring v safe.ring) safe.history;
    }
Step-IsSafe (publish s v at) safe =
    let knows : ProducerKnows s.ring (stored v) = subst (ProducerKnows s.ring) at safe.producer in
    record {
      ring = ground (arith, safe.ring);
      producer = tt;
      consumer = Consumer-publish s.ring s.consumer safe.ring knows.0 safe.consumer;
      history =
          ap (λ l. l ++ (v ∷ [])) safe.history
          ∙ (append_assoc s.taken (contents s.ring) (v ∷ [])
              ∙ ap (λ l. s.taken ++ l) (sym (contents-publish s.ring v safe.ring knows.0 knows.1)));
    }
Step-IsSafe (check_empty s at full) safe = record {
  ring = safe.ring;
  producer = safe.producer;
  consumer = ground arith;
  history = safe.history;
}
  where
    open safe use {ring as w}
Step-IsSafe (load s at) safe =
    let knows : ConsumerKnows s.ring found = subst (ConsumerKnows s.ring) at safe.consumer in
    record {
      ring = safe.ring;
      producer = safe.producer;
      consumer = (knows, refl);
      history = safe.history;
    }
Step-IsSafe (release s v at) safe =
    let knows : ConsumerKnows s.ring (loaded v) = subst (ConsumerKnows s.ring) at safe.consumer in
    record {
      ring = ground (arith, safe.ring);
      producer = Producer-release s.ring s.producer safe.ring knows.0 safe.producer;
      consumer = tt;
      history =
          safe.history
          ∙ (ap (λ l. s.taken ++ l) (contents-release s.ring v knows.0 knows.1 safe.ring)
              ∙ sym (append_assoc s.taken (v ∷ []) _));
    }

Reach-IsSafe : {s t : Shared} → IsSafe s → Reach s t → IsSafe t
Reach-IsSafe safe here = safe
Reach-IsSafe safe (next r step) = Step-IsSafe step (Reach-IsSafe safe r)

-- An empty ring with nobody inside it.
abbrev pub quiet : Ring → Shared
quiet r = record { ring = r; producer = outside; consumer = away; accepted = []; taken = [] }

-- From an empty ring, after any interleaving of the accesses of one producer and one consumer, the
-- accepted bytes are the returned ones followed by those in the buffer, and both indices are in
-- range: no byte is lost, invented, duplicated or reordered, with no lock.
pub accepted-eq-taken-append :
    (r : Ring) {s : Shared}
    → IsRing r
    → contents r ≡ []
    → Reach (quiet r) s
    → (s.accepted ≡ s.taken ++ contents s.ring) × IsRing s.ring
accepted-eq-taken-append r w empty run =
    let safe =
      Reach-IsSafe (record { ring = w; producer = tt; consumer = tt; history = sym empty }) run in
    (safe.history, safe.ring)

-- Run without interruption, the accesses of the producer are ring_push: where it succeeds, its
-- ring is reached, with the byte in the history and the producer outside again.
pub push-Reach :
    (s : Shared) (v : ℕ)
    → s.producer ≡ outside
    → (push s.ring v).0 ≡ true
    → Reach s (record s {
      ring = (push s.ring v).1;
      producer = outside;
      accepted = s.accepted ++ (v ∷ []);
    })
unfolding push
push-Reach s v out ok = elim (Bool-cases (next_step s.ring.head == s.ring.tail)) [
  | inl full ↦ absurd (ground arith)
  | inr room ↦ rw room (
      next (next (next here (check_full s v out (ground arith))) (store _ v refl))
        (publish _ v refl))
]

-- The same of the consumer and ring_pop: a returned byte is the next one in the history.
pub pop-Reach :
    (s : Shared) (v : ℕ)
    → s.consumer ≡ away
    → (pop s.ring).0 ≡ some v
    → Reach s (record s { ring = (pop s.ring).1; consumer = away; taken = s.taken ++ (v ∷ []) })
unfolding pop
pop-Reach s v out ok = elim (Bool-cases (s.ring.head == s.ring.tail)) [
  | inl none_left ↦ absurd (ground arith)
  | inr found_one ↦
      let same : get_or s.ring.buf s.ring.tail 0 ≡ v = ground arith in
      rw (found_one, ← same)
        (next (next (next here (check_empty s out (ground arith))) (load _ refl))
          (release _ _ refl))
]
