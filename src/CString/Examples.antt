-- ===== src/CString/Examples.antt =====
-- The C string functions at small strings.
use waltex.Base.{negsuc, ℕ, ◌≡◌, refl, ◌↔◌, true, List, [], ◌∷◌, ◌++◌}
use waltex.CString.{str_eq, strcmp, text}
use waltex.CString.Laws.{str_eq_iff}
use waltex.CString.Order.{negate, strcmp_swap}

abbrev path : List ℕ
path = b'a' ∷ b'/' ∷ b'b' ∷ []

str_eq_iff_run :
    (str_eq path (path ++ (0 ∷ b'x' ∷ [])) ≡ true) ↔ (text path ≡ text (path ++ (0 ∷ b'x' ∷ [])))
str_eq_iff_run = str_eq_iff path (path ++ (0 ∷ b'x' ∷ []))

strcmp_swap_run : strcmp path [] ≡ negate (strcmp [] path)
strcmp_swap_run = strcmp_swap [] path

less : (strcmp [] path ≡ negsuc 0) × (strcmp path (b'b' ∷ []) ≡ negsuc 0)
unfolding strcmp
less = (refl, refl)
