-- ===== src/Task/Next.antt =====
-- task_next is round robin: the ready task at the smallest cyclic distance from the current one.
use mathlib.Core.Option
use waltex.Base.{
  first_index, FirstIn, first_index-FirstIn, ℕ, ◌+◌, ◌-◌, ◌%◌, ◌≤◌, ◌<◌, ◌≡◌, refl, Bool, true,
  false, Option, none, some, List, arith,
}
use waltex.Task.{Task, ready_at, next}

-- The ready task at the smallest offset from 1 to n - 1 after the current one, or none there.
abbrev pub Chosen : List Task → ℕ → ℕ → Option ℕ → Type 0
Chosen table n current none = (j : ℕ) → 1 ≤ j → j < n → ready_at table ((current + j) % n) ≡ false
Chosen table n current (some i) =
    (d : ℕ) × (1 ≤ d)
    × (d < n)
    × (i ≡ (current + d) % n)
    × (ready_at table i ≡ true)
    × ((j : ℕ) → 1 ≤ j → j < d → ready_at table ((current + j) % n) ≡ false)

-- task_next returns the ready task at the smallest offset from 1 to n - 1 after the current one,
-- and -1 only if no other task is ready.
pub next-Chosen :
    (table : List Task) (n current : ℕ) → 0 < n → Chosen table n current (next table n current)
unfolding next
next-Chosen table n current h = go (first_index test 1 (n - 1)) (first_index-FirstIn test 1 (n - 1))
  where
    test : ℕ → Bool
    test k = ready_at table ((current + k) % n)

    go :
        (o : Option ℕ)
        → FirstIn test 1 (n - 1) o
        → Chosen table n current (Option.map (λ k. (current + k) % n) o)
    go none nobody = λ j ge lt. nobody j ge (omega arith)
    go (some d) (ge, lt, hit, first) = (d, ge, omega arith, refl, hit, first)
