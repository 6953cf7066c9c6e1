-- ===== src/Base/Scan.antt =====
-- The loops of the kernel that look for the first index that passes a test.
use Prim.Native.Nat.{ℕ, zero, suc, ◌+◌, ◌≤◌, ◌<◌}
use mathlib.Core.Path.{◌≡◌, refl, ap}
use mathlib.Core.Logic.{◌↔◌, inl, inr}
use mathlib.Core.Bool.{Bool, true, false}
use mathlib.Core.Option.{Option, none, some}
use native.Mathlib.Omega.{arith}
use waltex.Base.Tests.{◌==◌, if◌then◌else◌, ==→eq, Bool-cases, is_some}

-- `for (i = start; i < start + rounds; i++) if (test(i)) return i;`
unfoldable pub first_index : (ℕ → Bool) → ℕ → ℕ → Option ℕ
first_index test start zero = none
first_index test start (suc rounds) =
    let rest = first_index test (start + 1) rounds in if test start then some start else rest

-- The first place in a range that passes the test, or none.
abbrev pub FirstIn : (ℕ → Bool) → ℕ → ℕ → Option ℕ → Type 0
FirstIn test start rounds none = (j : ℕ) → start ≤ j → j < start + rounds → test j ≡ false
FirstIn test start rounds (some i) =
    (start ≤ i)
    × (i < start + rounds)
    × (test i ≡ true)
    × ((j : ℕ) → start ≤ j → j < i → test j ≡ false)

FirstIn-step :
    (test : ℕ → Bool) (start rounds : ℕ) (o : Option ℕ)
    → test start ≡ false
    → FirstIn test (start + 1) rounds o
    → FirstIn test start (suc rounds) o
FirstIn-step test start rounds none miss later = all
  where
    all : (j : ℕ) → start ≤ j → j < start + suc rounds → test j ≡ false
    all j ge lt = elim (Bool-cases (start == j)) [
      | inl e ↦ rw (← ==→eq start j e) miss
      | inr e ↦ later j (ground arith) (omega arith)
    ]
FirstIn-step test start rounds (some i) miss (ge, lt, hit, first) =
    (omega arith, omega arith, hit, earlier)
  where
    earlier : (j : ℕ) → start ≤ j → j < i → test j ≡ false
    earlier j ge' lt' = elim (Bool-cases (start == j)) [
      | inl e ↦ rw (← ==→eq start j e) miss
      | inr e ↦ first j (ground arith) lt'
    ]

pub first_index-FirstIn :
    (test : ℕ → Bool) (start rounds : ℕ) → FirstIn test start rounds (first_index test start rounds)
unfolding first_index
first_index-FirstIn test start zero = λ j ge lt. absurd (omega arith)
first_index-FirstIn test start (suc rounds) = elim (Bool-cases (test start)) [
  | inl hit ↦ rw hit (omega arith, omega arith, hit, λ j ge lt. absurd (omega arith))
  | inr miss ↦ rw miss (
      FirstIn-step test start rounds (first_index test (start + 1) rounds) miss
        (first_index-FirstIn test (start + 1) rounds))
]

-- Where just one place passes, the scan finds it.
pub first_index_unique :
    (test : ℕ → Bool) (rounds i : ℕ)
    → i < rounds
    → test i ≡ true
    → ((j : ℕ) → j < rounds → test j ≡ true → j ≡ i)
    → first_index test 0 rounds ≡ some i
first_index_unique test rounds i lt hit only =
    go (first_index test 0 rounds) (first_index-FirstIn test 0 rounds)
  where
    go : (o : Option ℕ) → FirstIn test 0 rounds o → o ≡ some i
    go none nowhere = absurd (cc (nowhere i (omega arith) (omega arith)))
    go (some j) (ge, lt', hit', first) = ap some (only j (omega arith) hit')

-- No place in the first `rounds` passes, exactly when the scan comes back empty.
pub first_index_none_iff :
    (test : ℕ → Bool) (rounds : ℕ)
    → (is_some (first_index test 0 rounds) ≡ false) ↔ ((j : ℕ) → j < rounds → test j ≡ false)
first_index_none_iff test rounds =
    go (first_index test 0 rounds) (first_index-FirstIn test 0 rounds)
  where
    go :
        (o : Option ℕ)
        → FirstIn test 0 rounds o
        → (is_some o ≡ false) ↔ ((j : ℕ) → j < rounds → test j ≡ false)
    go none nowhere = (λ e j lt. nowhere j (omega arith) (omega arith), λ h. refl)
    go (some i) (ge, lt, hit, first) =
        (λ e. absurd (ground arith), λ h. absurd (ground (arith, h i (omega arith))))
