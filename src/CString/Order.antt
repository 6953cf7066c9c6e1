-- ===== src/CString/Order.antt =====
-- strcmp is an order: exchanging the arguments exchanges the sign, and it is transitive.
use waltex.Base.{ℕ, zero, suc, ◌≡◌, refl, List, [], ◌∷◌, arith, ℤ, pos, negsuc}
use waltex.CString.{strcmp}

abbrev pub negate : ℤ → ℤ
negate (pos zero) = pos 0
negate (pos (suc n)) = negsuc n
negate (negsuc n) = pos (suc n)

-- The result of strcmp has the opposite sign with the arguments exchanged.
pub strcmp_swap : (a b : List ℕ) → strcmp b a ≡ negate (strcmp a b)
unfolding strcmp
strcmp_swap [] [] = refl
strcmp_swap [] (y ∷ b) = ground arith
strcmp_swap (x ∷ a) [] = ground arith
strcmp_swap (x ∷ a) (y ∷ b) = ground (arith, strcmp_swap a b)

-- strcmp orders texts transitively.
pub strcmp_trans :
    (a b c : List ℕ) → strcmp a b ≡ negsuc 0 → strcmp b c ≡ negsuc 0 → strcmp a c ≡ negsuc 0
unfolding strcmp
strcmp_trans a [] [] h k = absurd (ground arith)
strcmp_trans [] [] (z ∷ c) h k = k
strcmp_trans (x ∷ a) [] (z ∷ c) h k = ground arith
strcmp_trans [] (y ∷ b) [] h k = ground arith
strcmp_trans (x ∷ a) (y ∷ b) [] h k = ground arith
strcmp_trans [] (y ∷ b) (z ∷ c) h k = ground arith
strcmp_trans (x ∷ a) (y ∷ b) (z ∷ c) h k = ground (arith, strcmp_trans a b c)
