-- ===== src/Shell/Write.antt =====
-- shell_write of kernel/shell.c: the text that it makes of its arguments.
use waltex.Base.{
  ltb, leb, ◌==◌, if◌then◌else◌, Bool-cases, length, take, length-append, length-take,
  take-length-append, take-all, ℕ, ◌-◌, ◌≤◌, ◌≡◌, refl, sym, ap, ◌∙◌, inl, inr, Bool, true, false,
  ◌||◌, List, [], ◌∷◌, ◌++◌, append_assoc, append-nil, arith,
}
use waltex.CString.{text}
use waltex.LineEdit.{line_max}
use waltex.Shell.Words.{words}

-- The loop over the bytes of a word, with `testo` so far.
unfoldable pub add_word : List ℕ → List ℕ → List ℕ
add_word testo [] = testo
add_word testo (c ∷ word) =
    let longer = add_word (testo ++ (c ∷ [])) word in
    if c == 0 || leb (line_max - 1) (length testo) then testo else longer

-- The blank in front of every word but the first.
abbrev pub add_blank : List ℕ → List ℕ
add_blank testo = if ltb (length testo) (line_max - 1) then testo ++ (b' ' ∷ []) else testo

-- The loop over argv[2], argv[3] and so on.
unfoldable pub add_words : Bool → List ℕ → List (List ℕ) → List ℕ
unfolding add_word
add_words first testo [] = testo
add_words first testo (word ∷ words) =
    add_words false (add_word (if first then testo else add_blank testo) word) words

-- The text that shell_write writes.
unfoldable pub write_text : List (List ℕ) → List ℕ
unfolding add_words
write_text words =
    let testo = add_words true [] words in
    if ltb (length testo) line_max then testo ++ (10 ∷ []) else testo

-- The words with a blank in front of each.
unfoldable pub blank_words : List (List ℕ) → List ℕ
blank_words [] = []
blank_words (word ∷ words) = b' ' ∷ (text word ++ blank_words words)

-- The words with blanks between them.
abbrev pub unwords : List (List ℕ) → List ℕ
unwords [] = []
unwords (word ∷ words) = text word ++ blank_words words

take-whole : (n : ℕ) (q t : List ℕ) → length q ≡ n → take n (q ++ t) ≡ q
take-whole n q t whole = ap (λ k. take k (q ++ t)) (sym whole) ∙ take-length-append q t

take-snoc-append :
    (n : ℕ) (q : List ℕ) (c : ℕ) (t : List ℕ)
    → length q ≤ n
    → take n ((if ltb (length q) n then q ++ (c ∷ []) else q) ++ t) ≡ take n (q ++ (c ∷ t))
take-snoc-append n q c t le = elim (Bool-cases (ltb (length q) n)) [
  | inl room ↦ rw (room, append_assoc q (c ∷ []) t) refl
  | inr full ↦
      let whole : length q ≡ n = ground arith in
      rw full (take-whole n q t whole ∙ sym (take-whole n q (c ∷ t) whole))
]

add_word-take :
    (testo word t : List ℕ)
    → length testo ≤ 127
    → (length (add_word testo word) ≤ 127)
      × (take 127 (add_word testo word ++ t) ≡ take 127 (testo ++ (text word ++ t)))
unfolding add_word text
add_word-take testo [] t le = (le, refl)
add_word-take testo (c ∷ word) t le = elim (Bool-cases (c == 0)) [
  | inl nul ↦ rw nul (le, refl)
  | inr more ↦ elim (Bool-cases (leb (line_max - 1) (length testo))) [
    | inl full ↦
        let whole : length testo ≡ 127 = ground arith in
        rw (more, full)
          (
            le,
            take-whole 127 testo t whole ∙ sym (take-whole 127 testo (c ∷ (text word ++ t)) whole),
          )
    | inr room ↦
        let (short, same) =
          add_word-take (testo ++ (c ∷ [])) word t
            (ground (arith, room, length-append testo (c ∷ []))) in
        rw (more, room) (short, same ∙ ap (take 127) (append_assoc testo (c ∷ []) (text word ++ t)))
  ]
]

add_words-take :
    (words : List (List ℕ)) (testo : List ℕ)
    → length testo ≤ 127
    → add_words false testo words ≡ take 127 (testo ++ blank_words words)
unfolding add_words blank_words
add_words-take [] testo le = sym (ap (take 127) (append-nil testo) ∙ take-all 127 testo le)
add_words-take (word ∷ words) testo le =
    let blank : length (add_blank testo) ≤ 127 =
      ground (arith, le, length-append testo (b' ' ∷ [])) in
    let (short, same) = add_word-take (add_blank testo) word (blank_words words) blank in
    add_words-take words (add_word (add_blank testo) word) short
    ∙ (same ∙ take-snoc-append 127 testo b' ' (text word ++ blank_words words) le)

first-take : (words : List (List ℕ)) → add_words true [] words ≡ take 127 (unwords words)
unfolding add_words
first-take [] = refl
first-take (word ∷ words) =
    let (short, same) = add_word-take [] word (blank_words words) (omega arith) in
    add_words-take words (add_word [] word) short ∙ same

-- The text that the command write makes of its words is these with blanks between them, cut to 127
-- bytes, and a newline: it fits in the 128 bytes of its buffer, and the newline is never cut.
pub write_text-unwords :
    (words : List (List ℕ))
    → (write_text words ≡ take 127 (unwords words) ++ (10 ∷ []))
      × (length (write_text words) ≤ line_max)
unfolding write_text
write_text-unwords words =
    let testo = first-take words in
    let short : length (take 127 (unwords words)) ≤ 127 =
      omega (arith, length-take 127 (unwords words)) in
    let fits : ltb (length (take 127 (unwords words))) line_max ≡ true = ground arith in
    rw (testo, fits)
      (refl, omega (arith, short, length-append (take 127 (unwords words)) (10 ∷ [])))
