-- ===== src/Ring/Examples.antt =====
-- kernel/ring.c at concrete rings.
use waltex.Base.{◌≡◌, refl, true, [], ◌∷◌, ◌++◌, arith, set, replicate}
use waltex.Ring.{Ring, push, pop}
use waltex.Ring.Queue.{IsRing, contents, enqueue, dequeue, push_refines, pop_refines}
use waltex.Ring.Spsc.{
  Shared, Reach, here, next, check_full, store, publish, check_empty, outside, found,
}
use waltex.Ring.Spsc.Safety.{quiet, accepted-eq-taken-append}

abbrev fresh : Ring
fresh = record { buf = replicate 128 0; head = 127; tail = 127 }

fresh-IsRing : IsRing fresh
fresh-IsRing = record { size = refl; head_in = omega arith; tail_in = omega arith }

abbrev one : Ring
one = record { buf = set (replicate 128 0) 127 7; head = 0; tail = 127 }

one-IsRing : IsRing one
one-IsRing = record { size = refl; head_in = omega arith; tail_in = omega arith }

push_wraps : push fresh 7 ≡ (true, one)
unfolding push
push_wraps = refl

push_refines_run : ((push fresh 7).0, contents (push fresh 7).1) ≡ enqueue [] 7
push_refines_run = push_refines {r = fresh} 7 fresh-IsRing

pop_refines_run : ((pop one).0, contents (pop one).1) ≡ dequeue (7 ∷ [])
pop_refines_run = pop_refines {r = one} one-IsRing

-- The consumer looks while the byte is stored and not yet published.
abbrev midway : Shared
midway = record {
  ring = record { buf = set (replicate 128 0) 127 7; head = 0; tail = 127 };
  producer = outside;
  consumer = found;
  accepted = 7 ∷ [];
  taken = [];
}

midway-Reach : Reach (quiet fresh) midway
midway-Reach =
    next
      (next
        (next (next here (check_full _ 7 refl (λ e. absurd (omega (arith, e))))) (store _ 7 refl))
        (publish _ 7 refl))
      (check_empty _ refl (λ e. absurd (omega (arith, e))))

accepted-eq-taken-append_example : (7 ∷ [] ≡ [] ++ contents midway.ring) × IsRing midway.ring
accepted-eq-taken-append_example =
    accepted-eq-taken-append fresh {s = midway} fresh-IsRing refl midway-Reach
