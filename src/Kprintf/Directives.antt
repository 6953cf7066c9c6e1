-- ===== src/Kprintf/Directives.antt =====
-- kvprintf of kernel/kprintf.c against a description of what each directive prints.
use mathlib.Core.Option
use waltex.Base.{
  leb, ◌==◌, ==→eq, Bool-cases, ℕ, ◌%◌, ◌^◌, ◌<◌, ◌≡◌, refl, sym, ap, ◌∙◌, subst, ◌⊎◌, inl, inr,
  false, Option, none, some, List, [], ◌∷◌, ◌++◌, arith,
}
use waltex.CString.{text}
use waltex.Kprintf.{put_uint}
use waltex.Kprintf.Buffer.{after_text}
use waltex.Kprintf.Format.{
  Arg, print_string, with_word, string, with_string, word, null_text, directive, kvprintf,
}
use waltex.Kprintf.Hex.{put_uint-hex}
use waltex.Kprintf.Number.{magnitude, put_uint-digits}
use waltex.Kprintf.Numerals.{digits, digits_ten, digits_sixteen}
use waltex.Kprintf.Print.{feed, signed}
use waltex.Kprintf.Prints.{
  directed, Says, no_word, percent, ended, no_string, percent_nul, plain, other, null_str, char,
  Lacks, hex, unreadable, last_percent, Prints, int, nul, AreWords, str,
}

module _ {S : Type 0} (put : S → ℕ → S) where
  feed-append_lem : (l m : List ℕ) (s : S) → feed put (l ++ m) s ≡ feed put m (feed put l s)
  unfolding feed
  feed-append_lem [] m s = refl
  feed-append_lem (c ∷ l) m s = feed-append_lem l m (put s c)

  print_string-text : (l : List ℕ) (s : S) → print_string put l s ≡ feed put (text l) s
  unfolding print_string text feed
  print_string-text [] s = refl
  print_string-text (c ∷ l) s = elim (Bool-cases (c == 0)) [
    | inl stops ↦ rw stops refl
    | inr more ↦ rw more (print_string-text l (put s c))
  ]

  put_uint-int :
      (v : ℕ) (s : S)
      → v < 2 ^ 32
      → put_uint put v 10 s ≡ feed put (signed (leb (2 ^ 31) v) (digits 10 (magnitude v))) s
  unfolding put_uint feed
  put_uint-int v s small = elim (Bool-cases (v == 0)) [
    | inl null ↦ rw (==→eq v 0 null) refl
    | inr more ↦
        let positive : (magnitude v == 0) ≡ false = ground arith in
        rw positive (put_uint-digits put v s (λ e. ground arith) small)
  ]

  -- What the switch of kvprintf comes to.
  abbrev Directed : ℕ → List Arg → S → Type 0
  Directed d args s =
      ((l : List ℕ) × (args' : List Arg) × Says d args l args'
        × AreWords args'
        × (directive put d args s ≡ some (args', feed put l s)))
      ⊎ (Lacks args d × (directive put d args s ≡ none))

  says_int : (args : List Arg) (s : S) → AreWords args → Directed b'd' args s
  unfolding directive with_word
  says_int [] s words = inr (no_word (inl refl) (λ v rest e. ground arith), refl)
  says_int (string p ∷ args) s words = inr (no_word (inl refl) (λ v rest e. ground arith), refl)
  says_int (word v ∷ args) s (small, words) = inl (
    signed (leb (2 ^ 31) v) (digits 10 (magnitude v)),
    args,
    int (digits_ten (magnitude v) (ground arith)),
    words,
    ap (λ t. some (args, t)) (put_uint-int v s small),
  )

  says_hex : (args : List Arg) (s : S) → AreWords args → Directed b'x' args s
  unfolding directive with_word
  says_hex [] s words = inr (no_word (inr (inl refl)) (λ v rest e. ground arith), refl)
  says_hex (string p ∷ args) s words =
      inr (no_word (inr (inl refl)) (λ v rest e. ground arith), refl)
  says_hex (word v ∷ args) s (small, words) = inl (
    digits 16 v,
    args,
    hex (digits_sixteen v small),
    words,
    ap (λ t. some (args, t)) (put_uint-hex put v s small),
  )

  says_char : (args : List Arg) (s : S) → AreWords args → Directed b'c' args s
  unfolding directive with_word feed
  says_char [] s words = inr (no_word (inr (inr refl)) (λ v rest e. ground arith), refl)
  says_char (string p ∷ args) s words =
      inr (no_word (inr (inr refl)) (λ v rest e. ground arith), refl)
  says_char (word v ∷ args) s (small, words) = inl (v % 256 ∷ [], args, char, words, refl)

  says_string : (args : List Arg) (s : S) → AreWords args → Directed b's' args s
  unfolding directive with_string print_string feed
  says_string [] s words = inr (no_string (λ p rest e. ground arith), refl)
  says_string (word v ∷ args) s words = inr (no_string (λ p rest e. ground arith), refl)
  says_string (string none ∷ args) s words = inl (null_text, args, null_str, words, refl)
  says_string (string (some l) ∷ args) s words =
      inl (text l, args, str, words, ap (λ t. some (args, t)) (print_string-text l s))

  says_other :
      (d : ℕ) (args : List Arg) (s : S)
      → AreWords args
      → (d == b'%') ≡ false
      → (d == b'd') ≡ false
      → (d == b'x') ≡ false
      → (d == b'c') ≡ false
      → (d == b's') ≡ false
      → Directed d args s
  unfolding directive feed
  says_other d args s words e0 e1 e2 e3 e4 = inl (
    b'%' ∷ d ∷ [],
    args,
    other (
      (λ e. ground arith),
      (λ e. ground arith),
      (λ e. ground arith),
      (λ e. ground arith),
      (λ e. ground arith),
    ),
    words,
    rw (e0, e1, e2, e3, e4) refl,
  )

  says_percent : (args : List Arg) (s : S) → AreWords args → Directed b'%' args s
  unfolding directive feed
  says_percent args s words = inl (b'%' ∷ [], args, percent, words, refl)

  directive-Directed : (d : ℕ) (args : List Arg) (s : S) → AreWords args → Directed d args s
  directive-Directed d args s words = elim (Bool-cases (d == b'%')) [
    | inl e ↦ subst (λ c. Directed c args s) (sym (==→eq d b'%' e)) (says_percent args s words)
    | inr e0 ↦ elim (Bool-cases (d == b'd')) [
      | inl e ↦ subst (λ c. Directed c args s) (sym (==→eq d b'd' e)) (says_int args s words)
      | inr e1 ↦ elim (Bool-cases (d == b'x')) [
        | inl e ↦ subst (λ c. Directed c args s) (sym (==→eq d b'x' e)) (says_hex args s words)
        | inr e2 ↦ elim (Bool-cases (d == b'c')) [
          | inl e ↦ subst (λ c. Directed c args s) (sym (==→eq d b'c' e)) (says_char args s words)
          | inr e3 ↦ elim (Bool-cases (d == b's')) [
            | inl e ↦
                subst (λ c. Directed c args s) (sym (==→eq d b's' e)) (says_string args s words)
            | inr e4 ↦ says_other d args s words e0 e1 e2 e3 e4
          ]
        ]
      ]
    ]
  ]

  after_text-append :
      (l : List ℕ) (s : S) (t : Option (List ℕ))
      → after_text put (feed put l s) t ≡ after_text put s (Option.map (λ m. l ++ m) t)
  after_text-append l s none = refl
  after_text-append l s (some m) = ap some (sym (feed-append_lem l m s))

  -- What kvprintf does: `o` is what the format prints.
  abbrev Gives : List ℕ → List Arg → S → Type 0
  Gives fmt args s =
      (o : Option (List ℕ)) × Prints fmt args o × (kvprintf put fmt args s ≡ after_text put s o)

  Gives-plain :
      (c : ℕ) (fmt : List ℕ) (args : List Arg) (s : S)
      → (c == 0) ≡ false
      → (c == b'%') ≡ false
      → Gives fmt args (put s c)
      → Gives (c ∷ fmt) args s
  unfolding kvprintf feed
  Gives-plain c [] args s e0 e1 (o, prints, same) =
      (some (c ∷ []), plain (λ e. ground arith) (λ e. ground arith) ended, rw e0 refl)
  Gives-plain c (d ∷ fmt) args s e0 e1 (o, prints, same) = (
    Option.map (λ l. c ∷ l) o,
    plain (λ e. ground arith) (λ e. ground arith) prints,
    rw (e0, e1) (same ∙ after_text-append (c ∷ []) s o),
  )

  Gives-Directed :
      (d : ℕ) (fmt : List ℕ) (args : List Arg) (s : S)
      → (d == 0) ≡ false
      → Directed d args s
      → ((args' : List Arg) (s' : S) → AreWords args' → Gives fmt args' s')
      → Gives (b'%' ∷ d ∷ fmt) args s
  unfolding kvprintf
  Gives-Directed d fmt args s e (inr (lacks, gone)) rest =
      (none, unreadable (λ h. ground arith) lacks, rw (e, gone) refl)
  Gives-Directed d fmt args s e (inl (l, args', says, words, done)) rest =
      let (o, prints, same) = rest args' (feed put l s) words in
      (
        Option.map (λ m. l ++ m) o,
        directed (λ h. ground arith) says prints,
        rw (e, done) (same ∙ after_text-append l s o),
      )

  -- kvprintf gives any sink, character by character, what the format prints, and reads the
  -- arguments that it says: the bytes up to the NUL or the end, %d the sign and the decimal digits
  -- of an int, %x the digits in base 16, %c a byte, %s a string or (null), %% a percent sign, and
  -- any other directive as it stands.
  pub kvprintf-Prints :
      (fmt : List ℕ) (args : List Arg) (s : S)
      → AreWords args
      → (o : Option (List ℕ)) × Prints fmt args o × (kvprintf put fmt args s ≡ after_text put s o)
  unfolding kvprintf feed
  kvprintf-Prints [] args s words = (some [], ended, refl)
  kvprintf-Prints (c ∷ []) args s words = elim (Bool-cases (c == 0)) [
    | inl stops ↦ subst (λ x. Gives (x ∷ []) args s) (sym (==→eq c 0 stops)) (some [], nul, refl)
    | inr e0 ↦ elim (Bool-cases (c == b'%')) [
      | inl e ↦
          subst (λ x. Gives (x ∷ []) args s) (sym (==→eq c b'%' e))
            (some (b'%' ∷ []), last_percent, refl)
      | inr e1 ↦ Gives-plain c [] args s e0 e1 (some [], ended, refl)
    ]
  ]
  kvprintf-Prints (c ∷ d ∷ fmt) args s words = elim (Bool-cases (c == 0)) [
    | inl stops ↦
        subst (λ x. Gives (x ∷ d ∷ fmt) args s) (sym (==→eq c 0 stops)) (some [], nul, refl)
    | inr e0 ↦ elim (Bool-cases (c == b'%')) [
      | inr e1 ↦
          Gives-plain c (d ∷ fmt) args s e0 e1 (kvprintf-Prints (d ∷ fmt) args (put s c) words)
      | inl e ↦
          subst (λ x. Gives (x ∷ d ∷ fmt) args s) (sym (==→eq c b'%' e))
            (elim (Bool-cases (d == 0)) [
              | inl stops ↦
                  subst (λ x. Gives (b'%' ∷ x ∷ fmt) args s) (sym (==→eq d 0 stops))
                    (some (b'%' ∷ []), percent_nul, refl)
              | inr more ↦
                  Gives-Directed d fmt args s more (directive-Directed d args s words)
                    (λ args' s' words'. kvprintf-Prints fmt args' s' words')
            ])
    ]
  ]
