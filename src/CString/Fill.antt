-- ===== src/CString/Fill.antt =====
-- memcpy, memset and memset16: the bytes written, and the bytes left alone.
use waltex.Base.{
  length, take, drop, replicate, ℕ, zero, suc, ◌%◌, ◌≤◌, ◌≡◌, refl, ap, List, [], ◌∷◌, ◌++◌, arith,
}
use waltex.CString.{memcpy, memset, memset16}

-- memcpy writes the first `n` bytes of the source and keeps the rest of the destination.
pub memcpy_lem :
    (dest src : List ℕ) (n : ℕ)
    → n ≤ length dest
    → n ≤ length src
    → memcpy dest src n ≡ take n src ++ drop n dest
unfolding memcpy
memcpy_lem dest src zero h k = refl
memcpy_lem [] src (suc n) h k = absurd (omega arith)
memcpy_lem (d ∷ dest) [] (suc n) h k = absurd (omega arith)
memcpy_lem (d ∷ dest) (s ∷ src) (suc n) h k =
    ap (λ l. s ∷ l) (memcpy_lem dest src n (omega arith) (omega arith))

pub memset_lem :
    (dest : List ℕ) (ch n : ℕ)
    → n ≤ length dest
    → memset dest ch n ≡ replicate n (ch % 256) ++ drop n dest
unfolding memset
memset_lem dest ch zero h = refl
memset_lem [] ch (suc n) h = absurd (omega arith)
memset_lem (d ∷ dest) ch (suc n) h = ap (λ l. (ch % 256) ∷ l) (memset_lem dest ch n (omega arith))

pub memset16_lem :
    (dest : List ℕ) (value n : ℕ)
    → n ≤ length dest
    → memset16 dest value n ≡ replicate n value ++ drop n dest
unfolding memset16
memset16_lem dest value zero h = refl
memset16_lem [] value (suc n) h = absurd (omega arith)
memset16_lem (d ∷ dest) value (suc n) h =
    ap (λ l. value ∷ l) (memset16_lem dest value n (omega arith))

pub length-memcpy : (dest src : List ℕ) (n : ℕ) → length (memcpy dest src n) ≡ length dest
unfolding memcpy
length-memcpy dest src zero = refl
length-memcpy [] src (suc n) = refl
length-memcpy (d ∷ dest) [] (suc n) = refl
length-memcpy (d ∷ dest) (s ∷ src) (suc n) = ap suc (length-memcpy dest src n)

pub length-memset16 : (dest : List ℕ) (value n : ℕ) → length (memset16 dest value n) ≡ length dest
unfolding memset16
length-memset16 dest value zero = refl
length-memset16 [] value (suc n) = refl
length-memset16 (d ∷ dest) value (suc n) = ap suc (length-memset16 dest value n)
