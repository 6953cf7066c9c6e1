-- ===== src/Base/Hits.antt =====
-- The list of the indices that pass a test, as a readdir counts them.
use Prim.Native.Nat.{ℕ, zero, suc, ◌+◌, ◌≤◌, ◌<◌}
use mathlib.Core.Path.{◌≡◌, ap}
use mathlib.Core.Logic.{◌≢◌, inl, inr}
use mathlib.Core.Bool.{Bool, true}
use mathlib.Core.Option.{Option, none, some}
use mathlib.Core.List.{List, [], ◌∷◌}
use native.Mathlib.Omega.{arith}
use waltex.Base.Tests.{◌==◌, if◌then◌else◌, ==→eq, Bool-cases}

-- Those among the `k` indices from `i` on.
unfoldable pub hits : (ℕ → Bool) → ℕ → ℕ → List ℕ
hits test i zero = []
hits test i (suc k) = let rest = hits test (i + 1) k in if test i then i ∷ rest else rest

-- The element at a place, or none.
abbrev pub get_elem? : List ℕ → ℕ → Option ℕ
get_elem? [] i = none
get_elem? (x ∷ xs) zero = some x
get_elem? (x ∷ xs) (suc i) = get_elem? xs i

pub hits_sound :
    (test : ℕ → Bool) (i k j x : ℕ)
    → get_elem? (hits test i k) j ≡ some x
    → (x < i + k) × (test x ≡ true)
unfolding hits
hits_sound test i zero j x e = absurd (ground arith)
hits_sound test i (suc k) j x e = elim (Bool-cases (test i)) [
  | inr miss ↦ let (lt, hit) = hits_sound test (i + 1) k j x (rw miss at e) in (omega arith, hit)
  | inl hit ↦ first j x (rw hit at e) hit (λ j' e'. hits_sound test (i + 1) k j' x e')
]
  where
    first :
        (j x : ℕ)
        → get_elem? (i ∷ hits test (i + 1) k) j ≡ some x
        → test i ≡ true
        → ((j' : ℕ)
            → get_elem? (hits test (i + 1) k) j' ≡ some x
            → (x < i + 1 + k) × (test x ≡ true))
        → (x < i + suc k) × (test x ≡ true)
    first zero x e hit later = let same : i ≡ x = cc in (rw (← same) (omega arith), rw (← same) hit)
    first (suc j) x e hit later = let (lt, on) = later j e in (omega arith, on)

pub hits_complete :
    (test : ℕ → Bool) (i k x : ℕ)
    → i ≤ x
    → x < i + k
    → test x ≡ true
    → (j : ℕ) × (get_elem? (hits test i k) j ≡ some x)
unfolding hits
hits_complete test i zero x ge lt hit = absurd (omega arith)
hits_complete test i (suc k) x ge lt hit = elim (Bool-cases (test i)) [
  | inr miss ↦
      let other : i ≢ x = λ e. absurd (cc (miss, hit, ap test e)) in
      let (j, at) = hits_complete test (i + 1) k x (omega arith) (omega arith) hit in
      (j, rw miss at)
  | inl on ↦ elim (Bool-cases (i == x)) [
    | inl here ↦ (0, rw on (ap some (==→eq i x here)))
    | inr later ↦
        let (j, at) = hits_complete test (i + 1) k x (ground arith) (omega arith) hit in
        (suc j, rw on at)
  ]
]
