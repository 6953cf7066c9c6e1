-- ===== src/Base/Slices.antt =====
-- Bytes of lists, and of ranges of a function, place by place.
use Prim.Native.Nat.{ℕ, zero, suc, ◌+◌, ◌-◌, ◌≤◌, ◌<◌}
use mathlib.Core.Path.{◌≡◌, refl, sym, ap, ap₂, ◌∙◌}
use mathlib.Core.List.{List, [], ◌∷◌, ◌++◌}
use native.Mathlib.Omega.{arith}
use waltex.Base.Lists.{length, get_or, take, drop, drop-cons}

-- The bytes at `n` places from `start` on.
unfoldable pub tabulate : (ℕ → ℕ) → ℕ → ℕ → List ℕ
tabulate f start zero = []
tabulate f start (suc n) = f start ∷ tabulate f (start + 1) n

pub length-tabulate : (f : ℕ → ℕ) (start n : ℕ) → length (tabulate f start n) ≡ n
unfolding tabulate
length-tabulate f start zero = refl
length-tabulate f start (suc n) = ap suc (length-tabulate f (start + 1) n)

pub tabulate-append :
    (f : ℕ → ℕ) (start n m : ℕ)
    → tabulate f start (n + m) ≡ tabulate f start n ++ tabulate f (start + n) m
unfolding tabulate
tabulate-append f start zero m = ap₂ (tabulate f) (omega arith) (omega arith)
tabulate-append f start (suc n) m =
    let count : suc n + m ≡ suc (n + m) = omega arith in
    let place : start + 1 + n ≡ start + suc n = omega arith in
    rw (count, sym place) (ap (λ l. f start ∷ l) (tabulate-append f (start + 1) n m))

pub tabulate-eq :
    (f g : ℕ → ℕ) (start n : ℕ)
    → ((j : ℕ) → start ≤ j → j < start + n → f j ≡ g j)
    → tabulate f start n ≡ tabulate g start n
unfolding tabulate
tabulate-eq f g start zero same = refl
tabulate-eq f g start (suc n) same =
    ap₂ (λ b l. b ∷ l) (same start (omega arith) (omega arith))
      (tabulate-eq f g (start + 1) n (λ j ge lt. same j (omega arith) (omega arith)))

-- A piece of a list is its bytes one by one.
pub take-drop-tabulate :
    (xs : List ℕ) (skip n start : ℕ) (f : ℕ → ℕ)
    → skip + n ≤ length xs
    → ((j : ℕ) → j < n → get_or xs (skip + j) 0 ≡ f (start + j))
    → take n (drop skip xs) ≡ tabulate f start n
unfolding tabulate
take-drop-tabulate xs skip zero start f fits same = refl
take-drop-tabulate xs skip (suc n) start f fits same = rw (drop-cons xs skip 0 (omega arith)) (
    ap₂ (λ b l. b ∷ l)
      (ap (λ i. get_or xs i 0) (omega arith) ∙ same 0 (omega arith) ∙ ap f (omega arith))
      (take-drop-tabulate xs (suc skip) n (start + 1) f (omega arith) (λ j lt.
        ap (λ i. get_or xs i 0) (omega arith) ∙ same (suc j) (omega arith) ∙ ap f (omega arith))))

pub get_or-append_left :
    (xs ys : List ℕ) (j : ℕ) → j < length xs → get_or (xs ++ ys) j 0 ≡ get_or xs j 0
get_or-append_left [] ys j lt = absurd (omega arith)
get_or-append_left (x ∷ xs) ys zero lt = refl
get_or-append_left (x ∷ xs) ys (suc j) lt = get_or-append_left xs ys j (omega arith)

pub get_or-append_right :
    (xs ys : List ℕ) (j : ℕ) → length xs ≤ j → get_or (xs ++ ys) j 0 ≡ get_or ys (j - length xs) 0
get_or-append_right [] ys j ge = let e : j - 0 ≡ j = omega arith in rw e refl
get_or-append_right (x ∷ xs) ys zero ge = absurd (omega arith)
get_or-append_right (x ∷ xs) ys (suc j) ge =
    let e : suc j - suc (length xs) ≡ j - length xs = omega arith in
    rw e (get_or-append_right xs ys j (omega arith))

pub get_or-take : (n : ℕ) (xs : List ℕ) (j : ℕ) → j < n → get_or (take n xs) j 0 ≡ get_or xs j 0
get_or-take zero xs j lt = absurd (omega arith)
get_or-take (suc n) [] j lt = refl
get_or-take (suc n) (x ∷ xs) zero lt = refl
get_or-take (suc n) (x ∷ xs) (suc j) lt = get_or-take n xs j (omega arith)

pub get_or-drop : (n : ℕ) (xs : List ℕ) (j : ℕ) → get_or (drop n xs) j 0 ≡ get_or xs (n + j) 0
get_or-drop zero xs j = let e : 0 + j ≡ j = omega arith in rw e refl
get_or-drop (suc n) [] j = refl
get_or-drop (suc n) (x ∷ xs) j =
    let e : suc n + j ≡ suc (n + j) = omega arith in rw e (get_or-drop n xs j)
