-- ===== src/Kprintf/Related.antt =====
-- kvprintf of kernel/kprintf.c does the same to every sink.
use waltex.Base.{
  ◌==◌, if◌then◌else◌, Bool-cases, get_or, set, replicate, ℕ, zero, suc, ◌+◌, ◌-◌, ◌%◌, ◌^◌, ◌≡◌,
  refl, subst, inl, inr, Bool, Option, none, some, List, [], ◌∷◌,
}
use waltex.Kprintf.{put_uint, print_loop, put_digits, is_negative, digit_loop, reverse}
use waltex.Kprintf.Format.{
  Arg, print_string, with_word, string, with_string, word, string_or_null, directive, kvprintf,
}

-- Both fail, or both give related states.
abbrev pub BothOr : {S T : Type 0} → (S → T → Type 0) → Option S → Option T → Type 0
BothOr R none none = Unit {0}
BothOr R (some s) (some t) = R s t
BothOr R none (some t) = ⊥
BothOr R (some s) none = ⊥

abbrev Pairs : {S T : Type 0} → (S → T → Type 0) → List Arg × S → List Arg × T → Type 0
Pairs R (args, s) (args', t) = (args ≡ args') × R s t

module _ {S T : Type 0} (put : S → ℕ → S) (put' : T → ℕ → T) (R : S → T → Type 0)
    (keep : (s : S) (t : T) (c : ℕ) → R s t → R (put s c) (put' t c)) where
  print_loop-R :
      (k : ℕ) (str : List ℕ) (i : ℕ) (s : S) (t : T)
      → R s t
      → R (print_loop put k str i s) (print_loop put' k str i t)
  unfolding print_loop
  print_loop-R zero str i s t r = r
  print_loop-R (suc k) str i s t r = elim (Bool-cases (get_or str i 0 == 0)) [
    | inl end ↦ rw end r
    | inr more ↦ rw more (
        print_loop-R k str (i + 1) (put s (get_or str i 0)) (put' t (get_or str i 0))
          (keep s t (get_or str i 0) r))
  ]

  put_digits-R :
      (negative : Bool) (str : List ℕ) (i : ℕ) (s : S) (t : T)
      → R s t
      → R (put_digits put negative str i s) (put_digits put' negative str i t)
  unfolding put_digits
  put_digits-R negative str i s t r =
      let str' = if negative then set str i b'-' else str in
      let i' = if negative then i + 1 else i in print_loop-R 32 (reverse (set str' i' 0) i') 0 s t r

  pub put_uint-R :
      (v base : ℕ) (s : S) (t : T) → R s t → R (put_uint put v base s) (put_uint put' v base t)
  unfolding put_uint
  put_uint-R v base s t r =
      let negative = is_negative v base in
      let digits = digit_loop 32 (replicate 34 0) 0 (if negative then 2 ^ 32 - v else v) base in
      elim (Bool-cases (v == 0)) [
        | inl null ↦ rw null (keep s t b'0' r)
        | inr more ↦ rw more (put_digits-R negative digits.0 digits.1 s t r)
      ]

  print_string-R :
      (l : List ℕ) (s : S) (t : T) → R s t → R (print_string put l s) (print_string put' l t)
  unfolding print_string
  print_string-R [] s t r = r
  print_string-R (c ∷ l) s t r = elim (Bool-cases (c == 0)) [
    | inl end ↦ rw end r
    | inr more ↦ rw more (print_string-R l (put s c) (put' t c) (keep s t c r))
  ]

  with_word-R :
      (print : ℕ → S → S) (print' : ℕ → T → T)
      → ((v : ℕ) (s : S) (t : T) → R s t → R (print v s) (print' v t))
      → (args : List Arg) (s : S) (t : T) → R s t
      → BothOr (Pairs R) (with_word put print args s) (with_word put' print' args t)
  unfolding with_word
  with_word-R print print' same [] s t r = tt
  with_word-R print print' same (word v ∷ args) s t r = (refl, same v s t r)
  with_word-R print print' same (string p ∷ args) s t r = tt

  with_string-R :
      (args : List Arg) (s : S) (t : T)
      → R s t
      → BothOr (Pairs R) (with_string put args s) (with_string put' args t)
  unfolding with_string
  with_string-R [] s t r = tt
  with_string-R (word v ∷ args) s t r = tt
  with_string-R (string p ∷ args) s t r = (refl, print_string-R (string_or_null p) s t r)

  directive-R :
      (d : ℕ) (args : List Arg) (s : S) (t : T)
      → R s t
      → BothOr (Pairs R) (directive put d args s) (directive put' d args t)
  unfolding directive
  directive-R d args s t r = elim (Bool-cases (d == b'%')) [
    | inl e ↦ rw e (refl, keep s t b'%' r)
    | inr e ↦ rw e (elim (Bool-cases (d == b'd')) [
      | inl f ↦ rw f (
          with_word-R (λ v. put_uint put v 10) (λ v. put_uint put' v 10) (λ v. put_uint-R v 10) args
            s t r)
      | inr f ↦ rw f (elim (Bool-cases (d == b'x')) [
        | inl g ↦ rw g (
            with_word-R (λ v. put_uint put v 16) (λ v. put_uint put' v 16) (λ v. put_uint-R v 16)
              args s t r)
        | inr g ↦ rw g (elim (Bool-cases (d == b'c')) [
          | inl h ↦ rw h (
              with_word-R (λ v s'. put s' (v % 256)) (λ v t'. put' t' (v % 256))
                (λ v s' t' r'. keep s' t' (v % 256) r') args s t r)
          | inr h ↦ rw h (elim (Bool-cases (d == b's')) [
            | inl k ↦ rw k (with_string-R args s t r)
            | inr k ↦ rw k (refl, keep (put s b'%') (put' t b'%') d (keep s t b'%' r))
          ])
        ])
      ])
    ])
  ]

  -- kvprintf gives related sinks the same.
  pub kvprintf-R :
      (fmt : List ℕ) (args : List Arg) (s : S) (t : T)
      → R s t
      → BothOr R (kvprintf put fmt args s) (kvprintf put' fmt args t)
  unfolding kvprintf
  kvprintf-R [] args s t r = r
  kvprintf-R (c ∷ []) args s t r = elim (Bool-cases (c == 0)) [
    | inl e ↦ rw e r
    | inr e ↦ rw e (keep s t c r)
  ]
  kvprintf-R (c ∷ d ∷ fmt) args s t r = elim (Bool-cases (c == 0)) [
    | inl e ↦ rw e r
    | inr e ↦ rw e (elim (Bool-cases (c == b'%')) [
      | inr f ↦ rw f (kvprintf-R (d ∷ fmt) args (put s c) (put' t c) (keep s t c r))
      | inl f ↦ rw f (elim (Bool-cases (d == 0)) [
        | inl g ↦ rw g (keep s t c r)
        | inr g ↦ rw g (
            go (λ a s' t'. kvprintf-R fmt a s' t') (directive put d args s)
              (directive put' d args t) (directive-R d args s t r))
      ])
    ])
  ]
    where
      go :
          ((args : List Arg) (s : S) (t : T)
            → R s t
            → BothOr R (kvprintf put fmt args s) (kvprintf put' fmt args t))
          → (o : Option (List Arg × S)) (o' : Option (List Arg × T)) → BothOr (Pairs R) o o'
          → BothOr R
              (elim o [ none ↦ none | some (args', s') ↦ kvprintf put fmt args' s' ])
              (elim o' [ none ↦ none | some (args', t') ↦ kvprintf put' fmt args' t' ])
      go next none none both = tt
      go next none (some (args', t')) both = absurd both
      go next (some (args', s')) none both = absurd both
      go next (some (args1, s1)) (some (args2, t1)) (same, r1) =
          subst (λ a. BothOr R (kvprintf put fmt args1 s1) (kvprintf put' fmt a t1)) same
            (next args1 s1 t1 r1)
