-- ===== src/Kprintf/Format.antt =====
-- kvprintf, sn_putc and vsnprintf of kernel/kprintf.c. The format is a string, and the arguments
-- are a list; where the code would read one that is not there, or not of that kind, the answer is
-- `none`.
use waltex.Base.{
  ltb, ◌==◌, if◌then◌else◌, set, ℕ, ◌+◌, ◌-◌, ◌%◌, ◌^◌, Option, none, some, List, [], ◌∷◌,
}
use waltex.Kprintf.{put_uint}

-- An argument: an int as its 32 bits, or a pointer to a string, which may be null.
pub data Arg : Type 0 where
  word : ℕ → Arg
  string : Option (List ℕ) → Arg

-- `(null)`
abbrev pub null_text : List ℕ
null_text = b'(' ∷ b'n' ∷ b'u' ∷ b'l' ∷ b'l' ∷ b')' ∷ []

abbrev pub string_or_null : Option (List ℕ) → List ℕ
string_or_null none = null_text
string_or_null (some s) = s

module _ {S : Type 0} (put : S → ℕ → S) where
  -- The loop of %s.
  unfoldable pub print_string : List ℕ → S → S
  print_string [] s = s
  print_string (c ∷ l) s = if c == 0 then s else print_string l (put s c)

  -- The directives that take an int, and the one that takes a string.
  unfoldable pub with_word : (ℕ → S → S) → List Arg → S → Option (List Arg × S)
  with_word print (word v ∷ args) s = some (args, print v s)
  with_word print _ s = none

  unfoldable pub with_string : List Arg → S → Option (List Arg × S)
  unfolding print_string
  with_string (string p ∷ args) s = some (args, print_string (string_or_null p) s)
  with_string _ s = none

  -- The switch of kvprintf on the character after a `%`, which is not the NUL.
  unfoldable pub directive : ℕ → List Arg → S → Option (List Arg × S)
  unfolding with_word with_string put_uint
  directive d args s =
      if d == b'%'
      then some (args, put s b'%')
      else if d == b'd'
      then with_word (λ v. put_uint put v 10) args s
      else if d == b'x'
      then with_word (λ v. put_uint put v 16) args s
      else if d == b'c'
      then with_word (λ v s'. put s' (v % 256)) args s
      else if d == b's'
      then with_string args s
      else some (args, put (put s b'%') d)

  -- kvprintf
  unfoldable pub kvprintf : List ℕ → List Arg → S → Option S
  kvprintf [] args s = some s
  kvprintf (c ∷ []) args s = if c == 0 then some s else some (put s c)
  kvprintf (c ∷ d ∷ fmt) args s =
      let plain = kvprintf (d ∷ fmt) args (put s c) in
      let directed : Option S = elim (directive d args s) [
        | none ↦ none
        | some (args', s') ↦ kvprintf fmt args' s'
      ] in
      if c == 0
      then some s
      else if c == b'%'
      then if d == 0 then some (put s c) else directed
      else plain

-- struct snbuf: the buffer with the place of `p` in it.
pub record SnBuf : Type 0 where
  pub buf : List ℕ
  pub p : ℕ
  pub left : ℕ
  pub n : ℕ

-- sn_putc
unfoldable pub sn_putc : SnBuf → ℕ → SnBuf
sn_putc b c =
    if ltb 1 b.left
    then record { buf = set b.buf b.p c; p = b.p + 1; left = b.left - 1; n = (b.n + 1) % 2 ^ 32 }
    else record b { n = (b.n + 1) % 2 ^ 32 }

-- What vsnprintf does after the format.
abbrev pub terminate : ℕ → Option SnBuf → Option (ℕ × List ℕ)
terminate size none = none
terminate size (some b) = some (b.n, if size == 0 then b.buf else set b.buf b.p 0)

-- vsnprintf: the 32 bits of the int that it returns, and the buffer.
unfoldable pub vsnprintf : List ℕ → ℕ → List ℕ → List Arg → Option (ℕ × List ℕ)
vsnprintf buf size fmt args =
    terminate size (kvprintf sn_putc fmt args (record { buf = buf; p = 0; left = size; n = 0 }))
