-- ===== src/Ring/Queue.antt =====
-- The ring against a queue of at most RING_SIZE - 1 bytes.
use waltex.Base.{
  ℕ, zero, suc, ◌+◌, ◌-◌, ◌%◌, ◌<◌, ◌≡◌, ◌≢◌, ◌↔◌, refl, ap, ap₂, ◌∙◌, Bool, true, false, Option,
  none, some, List, [], ◌∷◌, ◌++◌, arith, ◌==◌, ltb, if◌then◌else◌, length, get_or, set, length-set,
  get_or-set_self, get_or-set_ne, Bool-cases, inl, inr,
}
use waltex.Ring.{Ring, ring_size, next_step, init, push, pop, empty}

-- The `n` bytes from index `t` on, going round at the end of the array.
abbrev pub bytes_from : List ℕ → ℕ → ℕ → List ℕ
bytes_from buf t zero = []
bytes_from buf t (suc n) = get_or buf t 0 ∷ bytes_from buf (next_step t) n

-- How many bytes lie between `tail` and `head`.
abbrev pub count : Ring → ℕ
count r = (r.head + ring_size - r.tail) % ring_size

abbrev pub contents : Ring → List ℕ
contents r = bytes_from r.buf r.tail (count r)

-- Both indices stay inside the array.
pub record IsRing (r : Ring) : Type 0 where
  pub size : length r.buf ≡ ring_size
  pub head_in : r.head < ring_size
  pub tail_in : r.tail < ring_size

pub length-bytes_from : (buf : List ℕ) (t n : ℕ) → length (bytes_from buf t n) ≡ n
length-bytes_from buf t zero = refl
length-bytes_from buf t (suc n) = ap suc (length-bytes_from buf (next_step t) n)

-- A write at an index outside the window leaves the window alone.
pub bytes_from-set_outside :
    (buf : List ℕ) (t n h v : ℕ)
    → t < ring_size
    → h ≡ (t + n) % ring_size
    → n < ring_size
    → bytes_from (set buf h v) t n ≡ bytes_from buf t n
bytes_from-set_outside buf t zero h v ht e hn = refl
bytes_from-set_outside buf t (suc n) h v ht e hn =
    ap₂ ◌∷◌ (get_or-set_ne buf h t v 0 (λ p. omega arith))
      (bytes_from-set_outside buf (next_step t) n h v (omega arith) (omega arith) (omega arith))

-- The window one longer ends in the byte at the old end.
pub bytes_from_snoc :
    (buf : List ℕ) (t n h : ℕ)
    → t < ring_size
    → h ≡ (t + n) % ring_size
    → bytes_from buf t (suc n) ≡ bytes_from buf t n ++ (get_or buf h 0 ∷ [])
bytes_from_snoc buf t zero h ht e =
    let same : t ≡ h = omega arith in ap (λ k. get_or buf k 0 ∷ []) same
bytes_from_snoc buf t (suc n) h ht e =
    ap (λ l. get_or buf t 0 ∷ l) (bytes_from_snoc buf (next_step t) n h (omega arith) (omega arith))

-- The window at a nonzero count starts with the byte at `t`.
pub bytes_from_ne_zero :
    (buf : List ℕ) (t n : ℕ)
    → n ≢ 0
    → bytes_from buf t n ≡ get_or buf t 0 ∷ bytes_from buf (next_step t) (n - 1)
bytes_from_ne_zero buf t zero h = absurd (h refl)
bytes_from_ne_zero buf t (suc n) h = ap (λ k. bytes_from buf t (suc k)) (omega arith)

-- A bounded queue: what a client of the ring may rely on.
abbrev pub enqueue : List ℕ → ℕ → Bool × List ℕ
enqueue q v = if ltb (length q) (ring_size - 1) then (true, q ++ (v ∷ [])) else (false, q)

abbrev pub dequeue : List ℕ → Option ℕ × List ℕ
dequeue [] = (none, [])
dequeue (x ∷ q) = (some x, q)

-- Storing a byte just past the window and taking it in appends it.
pub bytes_from_push :
    (buf : List ℕ) (t n h v : ℕ)
    → t < ring_size
    → h ≡ (t + n) % ring_size
    → n < ring_size
    → length buf ≡ ring_size
    → bytes_from (set buf h v) t (suc n) ≡ bytes_from buf t n ++ (v ∷ [])
bytes_from_push buf t n h v ht e hn size =
    bytes_from_snoc (set buf h v) t n h ht e
    ∙ ap₂ (λ l x. l ++ (x ∷ [])) (bytes_from-set_outside buf t n h v ht e hn)
        (get_or-set_self buf h v 0 (omega arith))

-- ring_init leaves an empty ring, and keeps the array.
init-IsRing : (r : Ring) → length r.buf ≡ ring_size → IsRing (init r) × (contents (init r) ≡ [])
unfolding init
init-IsRing r e = (record { size = e; head_in = omega arith; tail_in = omega arith }, refl)

pub push-IsRing : {r : Ring} (v : ℕ) → IsRing r → IsRing (push r v).1
unfolding push
push-IsRing {r} v w = ground (arith, length-set r.buf r.head v)

pub pop-IsRing : {r : Ring} → IsRing r → IsRing (pop r).1
unfolding pop
pop-IsRing w = ground arith

-- ring_push refuses exactly a queue of 127 bytes and otherwise appends; nothing is overwritten.
pub push_refines :
    {r : Ring} (v : ℕ) → IsRing r → ((push r v).0, contents (push r v).1) ≡ enqueue (contents r) v
unfolding push
push_refines {r} v w = elim (Bool-cases (next_step r.head == r.tail)) [
  | inl e ↦ ground (arith, length-bytes_from r.buf r.tail (count r))
  | inr e ↦
      let grown : (next_step r.head + ring_size - r.tail) % ring_size ≡ suc (count r) =
        ground arith in
      rw (e, grown)
        (rw
          (bytes_from_push r.buf r.tail (count r) r.head v w.tail_in (omega arith) (omega arith)
            w.size)
          (ground (arith, length-bytes_from r.buf r.tail (count r))))
]

-- ring_pop gives the oldest byte and drops it, or -1 on an empty ring.
pub pop_refines : {r : Ring} → IsRing r → ((pop r).0, contents (pop r).1) ≡ dequeue (contents r)
unfolding pop
pop_refines {r} w = ground (arith, bytes_from_ne_zero r.buf r.tail (count r))

-- ring_empty tells whether the queue is empty.
pub empty_lem : (r : Ring) → IsRing r → (empty r ≡ true) ↔ (contents r ≡ [])
unfolding empty
empty_lem r w = ground (arith, length-bytes_from r.buf r.tail (count r))
