-- ===== src/Vfs/Split.antt =====
-- spezza_path: a path is its parent, a slash and its last component.
use waltex.Base.{
  ltb, leb, ◌==◌, if◌then◌else◌, ==→eq, Bool-cases, length, drop, length-append, take-length,
  drop-plus, take-length-append, drop-length-append, ℕ, ◌+◌, ◌-◌, ◌≤◌, ◌<◌, ◌≡◌, refl, sym, ap, ◌∙◌,
  subst, ◌≢◌, ◌⊎◌, inl, inr, true, false, not, ◌||◌, Option, none, some, List, [], ◌∷◌, ◌++◌, arith,
}
use waltex.CString.{IsText}
use waltex.Vfs.Create.{cut_at, last_slash, spezza_path}
use waltex.Vfs.Descend.{is_path, strlen_text}
use waltex.Vfs.Types.{name_max, path_max}

abbrev pub NoSlash : List ℕ → Type 0
NoSlash [] = Unit {0}
NoSlash (c ∷ p) = (c ≢ b'/') × NoSlash p

-- What spezza_path makes of a text: the part before the last slash, and the part after it.
abbrev pub SplitOf : List ℕ → Option (List ℕ × List ℕ) → Type 0
SplitOf path none =
    (is_path path ≡ false)
    ⊎ ((a : List ℕ) × ((u : List ℕ) × (path ≡ a ++ (b'/' ∷ u))
          × NoSlash u
          × ((length u ≡ 0) ⊎ (name_max < length u))))
SplitOf path (some (genitore, ultimo)) =
    (is_path path ≡ true)
    × NoSlash ultimo
    × (0 < length ultimo)
    × (length ultimo ≤ name_max)
    × (((genitore ≡ b'/' ∷ []) × (path ≡ b'/' ∷ ultimo))
        ⊎ ((0 < length genitore) × (path ≡ genitore ++ (b'/' ∷ ultimo))))

-- The outcome of the loop: no slash, or the place of the last one.
abbrev Cut : List ℕ → ℕ → ℕ → ℕ → Type 0
Cut p i taglio r =
    (NoSlash p × (r ≡ taglio))
    ⊎ ((a : List ℕ) × ((u : List ℕ) × (p ≡ a ++ (b'/' ∷ u)) × NoSlash u × (r ≡ i + length a)))

Cut-cons :
    (c : ℕ) (p : List ℕ) (i taglio r : ℕ)
    → c ≢ b'/'
    → Cut p (i + 1) taglio r
    → Cut (c ∷ p) i taglio r
Cut-cons c p i taglio r ne (inl (none_left, e)) = inl ((ne, none_left), e)
Cut-cons c p i taglio r ne (inr (a, (u, e, none_left, at))) =
    inr (c ∷ a, (u, ap (λ l. c ∷ l) e, none_left, omega arith))

Cut-slash : (p : List ℕ) (i taglio r : ℕ) → Cut p (i + 1) i r → Cut (b'/' ∷ p) i taglio r
Cut-slash p i taglio r (inl (none_left, e)) = inr ([], (p, refl, none_left, omega arith))
Cut-slash p i taglio r (inr (a, (u, e, none_left, at))) =
    inr (b'/' ∷ a, (u, ap (λ l. b'/' ∷ l) e, none_left, omega arith))

last_slash-Cut : (p : List ℕ) (i taglio : ℕ) → Cut p i taglio (last_slash p i taglio)
unfolding last_slash
last_slash-Cut [] i taglio = inl (tt, refl)
last_slash-Cut (c ∷ p) i taglio = elim (Bool-cases (c == b'/')) [
  | inl slash ↦ rw (slash, ==→eq c b'/' slash) (Cut-slash p i taglio _ (last_slash-Cut p (i + 1) i))
  | inr other ↦
      rw other (Cut-cons c p i taglio _ (λ e. ground arith) (last_slash-Cut p (i + 1) taglio))
]

length_zero : (a : List ℕ) → length a ≡ 0 → a ≡ []
length_zero [] e = refl
length_zero (x ∷ a) e = absurd (omega arith)

-- The two tests that are left once the parts are there.
parts-SplitOf :
    (a u : List ℕ)
    → is_path (a ++ (b'/' ∷ u)) ≡ true
    → NoSlash u
    → SplitOf (a ++ (b'/' ∷ u)) (
        if length u == 0 || ltb name_max (length u)
        then none
        else if length a == 0
        then some (b'/' ∷ [], u)
        else some (a, u))
parts-SplitOf a u absolute plain = elim (Bool-cases (length u == 0 || ltb name_max (length u))) [
  | inl bad ↦ rw bad (inr (a, (u, refl, plain, out_of_range (length u) bad)))
  | inr good ↦ elim (Bool-cases (length a == 0)) [
    | inl top ↦
        rw (good, top)
          (
            absolute,
            plain,
            ground arith,
            ground arith,
            inl (refl, ap (λ l. l ++ (b'/' ∷ u)) (length_zero a (==→eq _ _ top))),
          )
    | inr deep ↦
        rw (good, deep) (absolute, plain, ground arith, ground arith, inr (ground arith, refl))
  ]
]
  where
    out_of_range : (n : ℕ) → (n == 0 || ltb name_max n) ≡ true → (n ≡ 0) ⊎ (name_max < n)
    out_of_range n h = elim (Bool-cases (n == 0)) [
      | inl e ↦ inl (==→eq n 0 e)
      | inr e ↦ inr (ground arith)
    ]

cut_at-SplitOf :
    (a u : List ℕ)
    → is_path (a ++ (b'/' ∷ u)) ≡ true
    → NoSlash u
    → let path = a ++ (b'/' ∷ u) in SplitOf path (cut_at path (length path) (length a))
unfolding cut_at
cut_at-SplitOf a u absolute plain =
    rw (size, after, take-length u, take-length-append a (b'/' ∷ u))
      (parts-SplitOf a u absolute plain)
  where
    size : length (a ++ (b'/' ∷ u)) - length a - 1 ≡ length u
    size = omega (arith, length-append a (b'/' ∷ u))

    after : drop (length a + 1) (a ++ (b'/' ∷ u)) ≡ u
    after = drop-plus (length a) 1 (a ++ (b'/' ∷ u)) ∙ ap (drop 1) (drop-length-append a (b'/' ∷ u))

absolute-Cut :
    (c : ℕ) (p : List ℕ) (r : ℕ)
    → is_path (c ∷ p) ≡ true
    → Cut (c ∷ p) 0 0 r
    → SplitOf (c ∷ p) (cut_at (c ∷ p) (length (c ∷ p)) r)
absolute-Cut c p r absolute (inl (none_left, e)) = absurd (none_left.0 (ground arith))
absolute-Cut c p r absolute (inr (a, (u, e, plain, at))) =
    subst (λ k. SplitOf (c ∷ p) (cut_at (c ∷ p) (length (c ∷ p)) k)) (sym (at ∙ omega arith))
      (subst (λ path. SplitOf path (cut_at path (length path) (length a))) (sym e)
        (cut_at-SplitOf a u (ap is_path (sym e) ∙ absolute) plain))

-- The tests of spezza_path before the cut.
guarded-SplitOf :
    (c : ℕ) (p : List ℕ) (r : ℕ)
    → Cut (c ∷ p) 0 0 r
    → SplitOf (c ∷ p) (
        if not (c == b'/')
        then none
        else if length (c ∷ p) == 0 || leb path_max (length (c ∷ p))
        then none
        else cut_at (c ∷ p) (length (c ∷ p)) r)
guarded-SplitOf c p r cut = elim (Bool-cases (c == b'/')) [
  | inr relative ↦ rw relative (inl (ground arith))
  | inl slash ↦ elim (Bool-cases (length (c ∷ p) == 0 || leb path_max (length (c ∷ p)))) [
    | inl long ↦ rw (slash, long) (inl (ground arith))
    | inr short ↦ rw (slash, short) (absolute-Cut c p r (ground arith) cut)
  ]
]

-- spezza_path splits a text at its last slash: the second part has no slash and 1 to 14 bytes, and
-- the text is the first part, a slash and the second part, where the first part is written / if it
-- is empty. It refuses only what is not an absolute path of fewer than 64 bytes, or has a last
-- component of 0 or more than 14 bytes.
pub spezza_path-SplitOf : (path : List ℕ) → IsText path → SplitOf path (spezza_path path)
unfolding spezza_path
spezza_path-SplitOf [] t = inl refl
spezza_path-SplitOf (c ∷ p) t =
    rw (strlen_text (c ∷ p) t, take-length (c ∷ p))
      (guarded-SplitOf c p _ (last_slash-Cut (c ∷ p) 0 0))
