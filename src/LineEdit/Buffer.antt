-- ===== src/LineEdit/Buffer.antt =====
-- The text of a byte array after a NUL is written into it.
use waltex.Base.{
  length, set, take, replicate, ℕ, zero, suc, ◌+◌, ◌≤◌, ◌<◌, ◌≡◌, refl, ◌≢◌, List, [], ◌∷◌, ◌++◌,
  arith,
}
use waltex.CString.{strlen, text}

-- Cutting the text at `l`.
pub text-set_nul :
    (s : List ℕ) (l : ℕ) → l ≤ strlen s → l < length s → text (set s l 0) ≡ take l (text s)
unfolding text strlen
text-set_nul [] l h k = absurd (omega arith)
text-set_nul (c ∷ s) zero h k = refl
text-set_nul (c ∷ s) (suc l) h k = ground (arith, text-set_nul s l)

-- Appending a character and a new NUL, with the NUL's place as a variable.
text-set_snoc_at :
    (s : List ℕ) (l m c : ℕ)
    → l ≡ strlen s
    → m ≡ suc l
    → m < length s
    → c ≢ 0
    → text (set (set s l c) m 0) ≡ text s ++ (c ∷ [])
unfolding text strlen
text-set_snoc_at [] l m c e p k ne = absurd (omega arith)
text-set_snoc_at (x ∷ s) l zero c e p k ne = absurd (omega arith)
text-set_snoc_at (x ∷ []) zero (suc m) c e p k ne = absurd (omega arith)
text-set_snoc_at (x ∷ y ∷ s) zero (suc zero) c e p k ne = ground arith
text-set_snoc_at (x ∷ y ∷ s) zero (suc (suc m)) c e p k ne = absurd (omega arith)
text-set_snoc_at (x ∷ s) (suc l) (suc m) c e p k ne = ground (arith, text-set_snoc_at s l m c)

pub text-set_snoc :
    (s : List ℕ) (l c : ℕ)
    → l ≡ strlen s
    → l + 1 < length s
    → c ≢ 0
    → text (set (set s l c) (l + 1) 0) ≡ text s ++ (c ∷ [])
text-set_snoc s l c e k ne = text-set_snoc_at s l (l + 1) c e (omega arith) k ne

pub strlen-replicate : (n : ℕ) → strlen (replicate n 0) ≡ 0
unfolding strlen
strlen-replicate zero = refl
strlen-replicate (suc n) = refl

pub text-replicate : (n : ℕ) → text (replicate n 0) ≡ []
unfolding text
text-replicate zero = refl
text-replicate (suc n) = refl
