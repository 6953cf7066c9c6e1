-- ===== src/CString/Laws.antt =====
-- Lengths, searches and equality of C strings, by their texts.
use mathlib.Core.Option
use waltex.Base.{
  ◌==◌, ℤ, pos, negsuc, Bool-cases, length, get_or, ℕ, zero, suc, ◌≤◌, ◌<◌, ◌≡◌, refl, ap, ◌∙◌, ◌≢◌,
  ◌↔◌, inl, inr, true, Option, none, some, List, [], ◌∷◌, arith,
}
use waltex.CString.{strlen, strchr, strpos, strcmp, is_zero, str_eq, text}

-- strlen counts the bytes before the NUL.
pub strlen-eq-length : (s : List ℕ) → strlen s ≡ length (text s)
unfolding strlen text
strlen-eq-length [] = refl
strlen-eq-length (c ∷ s) = ground (arith, strlen-eq-length s)

-- The outcome of a search for `c` among the bytes and the NUL of `s`: the first place, or nowhere.
abbrev pub Found : List ℕ → ℕ → Option ℕ → Type 0
Found s c (some i) = (i ≤ strlen s) × (get_or s i 0 ≡ c) × ((j : ℕ) → j < i → get_or s j 0 ≢ c)
Found s c none = (j : ℕ) → j ≤ strlen s → get_or s j 0 ≢ c

Found-cons :
    (x : ℕ) (s : List ℕ) (c : ℕ) (o : Option ℕ)
    → x ≢ c
    → x ≢ 0
    → Found s c o
    → Found (x ∷ s) c (Option.map suc o)
unfolding strlen
Found-cons x s c (some i) ne full (le, at, first) = (ground arith, at, earlier)
  where
    earlier : (j : ℕ) → j < suc i → get_or (x ∷ s) j 0 ≢ c
    earlier zero lt = ne
    earlier (suc j) lt = first j (omega arith)
Found-cons x s c none ne full nowhere = later
  where
    later : (j : ℕ) → j ≤ strlen (x ∷ s) → get_or (x ∷ s) j 0 ≢ c
    later zero le = ne
    later (suc j) le = nowhere j (ground arith)

Found-nul : (x : ℕ) (s : List ℕ) (c : ℕ) → x ≢ c → x ≡ 0 → Found (x ∷ s) c none
unfolding strlen
Found-nul x s c ne e zero le = ne
Found-nul x s c ne e (suc j) le = absurd (ground arith)

-- strchr finds the first place of `c` in the text or its NUL, and a null pointer only if `c` is in
-- neither.
pub strchr-Found : (s : List ℕ) (c : ℕ) → Found s c (strchr s c)
unfolding strchr strlen
strchr-Found [] c = elim (Bool-cases (c == 0)) [
  | inl e ↦ rw e (omega arith, ground arith, λ j lt. absurd (omega arith))
  | inr e ↦ rw e (λ j le. ground arith)
]
strchr-Found (x ∷ s) c = elim (Bool-cases (x == c)) [
  | inl e ↦ rw e (omega arith, ground arith, λ j lt. absurd (omega arith))
  | inr e ↦ elim (Bool-cases (x == 0)) [
    | inl z ↦ rw (e, z) (Found-nul x s c (ground arith) (ground arith))
    | inr z ↦
        rw (e, z) (Found-cons x s c (strchr s c) (ground arith) (ground arith) (strchr-Found s c))
  ]
]

pub strcmp-text : (a b : List ℕ) → strcmp a b ≡ strcmp (text a) (text b)
unfolding strcmp text
strcmp-text [] [] = refl
strcmp-text [] (y ∷ b) = ground arith
strcmp-text (x ∷ a) [] = ground arith
strcmp-text (x ∷ a) (y ∷ b) = ground (arith, strcmp-text a b)

pub strcmp_eq : (a b : List ℕ) → strcmp a b ≡ pos 0 → text a ≡ text b
unfolding strcmp text
strcmp_eq [] [] h = refl
strcmp_eq [] (y ∷ b) h = ground arith
strcmp_eq (x ∷ a) [] h = ground arith
strcmp_eq (x ∷ a) (y ∷ b) h = ground (arith, strcmp_eq a b)

pub strcmp_refl : (a : List ℕ) → strcmp a a ≡ pos 0
unfolding strcmp
strcmp_refl [] = refl
strcmp_refl (x ∷ a) = ground (arith, strcmp_refl a)

-- strcmp returns 0 exactly for the same text.
pub strcmp_zero : (a b : List ℕ) → (strcmp a b ≡ pos 0) ↔ (text a ≡ text b)
strcmp_zero a b =
    (strcmp_eq a b, λ e. strcmp-text a b ∙ (ap (λ t. strcmp t (text b)) e ∙ strcmp_refl (text b)))

-- strpos is the place that strchr finds, but never the NUL's.
pub strpos_lem :
    (l : List ℕ) (a : ℕ)
    → (strpos l 0 ≡ negsuc 0) × (a ≢ 0 → (i : ℕ) → (strpos l a ≡ pos i) ↔ (strchr l a ≡ some i))
unfolding strpos
strpos_lem l a = (nul (strchr l 0), found)
  where
    nul : (o : Option ℕ) → elim o [ none ↦ negsuc 0 | some r ↦ negsuc 0 ] ≡ negsuc 0
    nul none = refl
    nul (some r) = refl

    found : a ≢ 0 → (i : ℕ) → (strpos l a ≡ pos i) ↔ (strchr l a ≡ some i)
    found ne i = ground arith

pub is_zero_eq : (z : ℤ) → is_zero z ≡ true → z ≡ pos 0
is_zero_eq (pos n) e = ground arith
is_zero_eq (negsuc n) e = ground arith

-- str_eq is the code's test of two names.
pub str_eq_iff : (a b : List ℕ) → (str_eq a b ≡ true) ↔ (text a ≡ text b)
unfolding str_eq
str_eq_iff a b = (λ e. strcmp_eq a b (is_zero_eq (strcmp a b) e), λ e. rw ((strcmp_zero a b).1 e))

pub str_eq_refl : (a : List ℕ) → str_eq a a ≡ true
str_eq_refl a = (str_eq_iff a a).1 refl
