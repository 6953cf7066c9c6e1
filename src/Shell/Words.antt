-- ===== src/Shell/Words.antt =====
-- shell_split of kernel/shell.c against the words of a text.
use mathlib.Core.List.{cons-ne-nil}
use waltex.Base.{
  leb, ◌==◌, if◌then◌else◌, ==→eq, Bool-cases, eq_false, length, take, drop, length-append,
  take-nil, drop-length-append, ℕ, suc, ◌+◌, ◌-◌, ◌≡◌, refl, sym, ap, ap₂, ◌∙◌, ◌≢◌, inl, inr, true,
  false, List, [], ◌∷◌, ◌++◌, append_assoc, append-nil, arith,
}
use waltex.CString.{IsText, text}
use waltex.Shell.Split.{split_from, split}

-- The words of a text that are separated by blanks; `word` is what has been read of one.
abbrev pub ended : List ℕ → List (List ℕ) → List (List ℕ)
ended [] rest = rest
ended (x ∷ word) rest = (x ∷ word) ∷ rest

unfoldable pub words : List ℕ → List ℕ → List (List ℕ)
words word [] = ended word []
words word (x ∷ l) =
    let rest = words [] l in
    let longer = words (word ++ (x ∷ [])) l in if x == b' ' then ended word rest else longer

-- The strings that argv points to.
unfoldable pub strings_at : List ℕ → List ℕ → List (List ℕ)
strings_at line [] = []
strings_at line (i ∷ argv) = text (drop i line) ∷ strings_at line argv

text-append-text : (w m : List ℕ) → IsText w → text (w ++ m) ≡ w ++ text m
unfolding text
text-append-text [] m t = refl
text-append-text (x ∷ w) m t =
    rw (eq_false (x == 0) (λ e. t.0 (==→eq x 0 e))) (ap (λ l. x ∷ l) (text-append-text w m t.1))

IsText-snoc : (w : List ℕ) (x : ℕ) → IsText w → x ≢ 0 → IsText (w ++ (x ∷ []))
IsText-snoc [] x t h = (h, t)
IsText-snoc (y ∷ w) x t h = (t.0, IsText-snoc w x t.1 h)

ended-cons : (w : List ℕ) (rest : List (List ℕ)) → w ≢ [] → ended w rest ≡ w ∷ rest
ended-cons [] rest h = absurd (h refl)
ended-cons (x ∷ w) rest h = refl

one_byte : (x : ℕ) → x ≢ 0 → IsText (x ∷ [])
one_byte x h = IsText-snoc [] x (ground arith) h

strings-nil : (line : List ℕ) → strings_at line [] ≡ []
unfolding strings_at
strings-nil line = refl

strings-cons :
    (line : List ℕ) (i : ℕ) (argv : List ℕ)
    → strings_at line (i ∷ argv) ≡ text (drop i line) ∷ strings_at line argv
unfolding strings_at
strings-cons line i argv = refl

snoc-nonempty : (w : List ℕ) (x : ℕ) → w ++ (x ∷ []) ≢ []
snoc-nonempty [] x e = absurd (cons-ne-nil x [] e)
snoc-nonempty (y ∷ w) x e = absurd (cons-ne-nil y (w ++ (x ∷ [])) e)

-- The string at the place where a word begins is the word, where a NUL or the end follows.
text-word :
    (p w m : List ℕ) (i : ℕ)
    → i ≡ length p
    → IsText w
    → text m ≡ []
    → text (drop i (p ++ (w ++ m))) ≡ w
text-word p w m i here t stops =
    ap text (ap (λ k. drop k (p ++ (w ++ m))) here ∙ drop-length-append p (w ++ m))
    ∙ (text-append-text w m t ∙ (ap (λ l. w ++ l) stops ∙ append-nil w))

-- What the first loop makes of the rest of the line, at the end of `p`.
abbrev Skipped : List ℕ → Type 0
Skipped l =
    (p : List ℕ) (i c max : ℕ)
    → i ≡ length p
    → strings_at (p ++ (split_from true i c max l).1) (split_from true i c max l).0
      ≡ take (max - c) (words [] (text l))

-- What the second makes of it behind the part `w` of a word that begins at the end of `p`.
abbrev Read : List ℕ → Type 0
Read l =
    (p w : List ℕ) (i j c max : ℕ)
    → i ≡ length p
    → j ≡ length p + length w
    → IsText w
    → w ≢ []
    → strings_at (p ++ (w ++ (split_from false j c max l).1)) (i ∷ (split_from false j c max l).0)
      ≡ take (suc (max - c)) (words w (text l))

read-ended :
    (p w m : List ℕ) (i n : ℕ)
    → i ≡ length p
    → IsText w
    → w ≢ []
    → text m ≡ []
    → strings_at (p ++ (w ++ m)) (i ∷ []) ≡ take (suc n) (words w [])
unfolding strings_at words
read-ended p w m i n here t nonempty stops =
    rw (ended-cons w [] nonempty, text-word p w m i here t stops)
      (ap (λ l. w ∷ l) (sym (take-nil n)))

cons-Skipped : (x : ℕ) (l : List ℕ) → Skipped l → Read l → Skipped (x ∷ l)
unfolding split_from words text
cons-Skipped x l skipped read p i c max here = elim (Bool-cases (x == b' ')) [
  | inl blank ↦
      let nonzero : (x == 0) ≡ false = ground arith in
      rw (blank, nonzero)
        (ap (λ line. strings_at line (split_from true (i + 1) c max l).0)
            (sym (append_assoc p (x ∷ []) (split_from true (i + 1) c max l).1))
          ∙ rw blank (
              skipped (p ++ (x ∷ [])) (i + 1) c max
                (omega (arith, here, length-append p (x ∷ [])))))
  | inr other ↦ elim (Bool-cases (x == 0)) [
    | inl nul ↦ rw (other, nul) (strings-nil (p ++ (x ∷ l)) ∙ sym (take-nil (max - c)))
    | inr more ↦ elim (Bool-cases (leb max c)) [
      | inl full ↦
          let none_left : max - c ≡ 0 = ground arith in
          rw (other, more, full, none_left) (strings-nil (p ++ (x ∷ l)))
      | inr room ↦
          let places : max - c ≡ suc (max - (c + 1)) = ground arith in
          rw (more, other, room, places)
            (read p (x ∷ []) i (i + 1) (c + 1) max here (omega arith)
              (one_byte x (λ e. absurd (ground (arith, more, e)))) (snoc-nonempty [] x))
    ]
  ]
]

cons-Read : (x : ℕ) (l : List ℕ) → Skipped l → Read l → Read (x ∷ l)
unfolding split_from words text
cons-Read x l skipped read p w i j c max here there t nonempty = elim (Bool-cases (x == 0)) [
  | inl nul ↦ rw nul (read-ended p w (x ∷ l) i (max - c) here t nonempty (rw (text, nul) refl))
  | inr more ↦ elim (Bool-cases (x == b' ')) [
    | inl blank ↦
        let rest = split_from true (j + 1) c max l in
        let line : (p ++ (w ++ (0 ∷ []))) ++ rest.1 ≡ p ++ (w ++ (0 ∷ rest.1)) =
          append_assoc p (w ++ (0 ∷ [])) rest.1
          ∙ ap (λ k. p ++ k) (append_assoc w (0 ∷ []) rest.1) in
        let next =
          skipped (p ++ (w ++ (0 ∷ []))) (j + 1) c max
            (omega (arith, there, length-append p (w ++ (0 ∷ [])), length-append w (0 ∷ []))) in
        rw (more, blank, ended-cons w (words [] (text l)) nonempty)
          (strings-cons (p ++ (w ++ (0 ∷ rest.1))) i rest.0
            ∙ ap₂ ◌∷◌ (text-word p w (0 ∷ rest.1) i here t refl)
                (ap (λ k. strings_at k rest.0) (sym line) ∙ next))
    | inr other ↦
        let rest = split_from false (j + 1) c max l in
        let line : p ++ ((w ++ (x ∷ [])) ++ rest.1) ≡ p ++ (w ++ (x ∷ rest.1)) =
          ap (λ k. p ++ k) (append_assoc w (x ∷ []) rest.1) in
        rw (more, other)
          (ap (λ k. strings_at k (i ∷ rest.0)) (sym line)
            ∙ read p (w ++ (x ∷ [])) i (j + 1) c max here
                (omega (arith, there, length-append w (x ∷ [])))
                (IsText-snoc w x t (λ e. absurd (ground (arith, more, e)))) (snoc-nonempty w x))
  ]
]

split_from-words : (l : List ℕ) → Skipped l × Read l
unfolding split_from strings_at words text
split_from-words [] = (
  λ p i c max here. sym (take-nil (max - c)),
  λ p w i j c max here there t nonempty. read-ended p w [] i (max - c) here t nonempty refl,
)
split_from-words (x ∷ l) =
    let (skipped, read) = split_from-words l in
    (cons-Skipped x l skipped read, cons-Read x l skipped read)

-- shell_split gives, in order, the words of the line that are separated by blanks, as many of them as
-- fit in argv: each pointer is at a string that is one word, in the line that the call has changed.
pub split-words :
    (line : List ℕ) (max : ℕ)
    → strings_at (split line max).1 (split line max).0 ≡ take max (words [] (text line))
unfolding split
split-words line max =
    let all : max - 0 ≡ max = omega arith in
    (split_from-words line).0 [] 0 0 max refl ∙ ap (λ n. take n (words [] (text line))) all
