-- ===== src/Kprintf/Prints.antt =====
-- What kvprintf of kernel/kprintf.c is to print, directive by directive.
use mathlib.Core.Option
use waltex.Base.{leb, ℕ, ◌%◌, ◌^◌, ◌<◌, ◌≡◌, ◌≢◌, ◌⊎◌, Option, none, some, List, [], ◌∷◌, ◌++◌}
use waltex.CString.{text}
use waltex.Kprintf.Format.{Arg, string, word}
use waltex.Kprintf.Number.{magnitude}
use waltex.Kprintf.Numerals.{IsDigits}
use waltex.Kprintf.Print.{signed}

-- What a directive prints: its character, the arguments, the text, and the arguments that are left.
pub data Says : ℕ → List Arg → List ℕ → List Arg → Type 0 where
  percent : {args : List Arg} → Says b'%' args (b'%' ∷ []) args
  -- %d: the sign of the int, and its magnitude in base 10
  int :
      {v : ℕ} {l : List ℕ} {args : List Arg}
      → IsDigits 10 l (magnitude v)
      → Says b'd' (word v ∷ args) (signed (leb (2 ^ 31) v) l) args
  -- %x: the 32 bits in base 16
  hex : {v : ℕ} {l : List ℕ} {args : List Arg} → IsDigits 16 l v → Says b'x' (word v ∷ args) l args
  -- %c: the low byte
  char : {v : ℕ} {args : List Arg} → Says b'c' (word v ∷ args) (v % 256 ∷ []) args
  -- %s: the bytes up to the NUL, or (null)
  str : {s : List ℕ} {args : List Arg} → Says b's' (string (some s) ∷ args) (text s) args
  null_str :
      {args : List Arg}
      → Says b's' (string none ∷ args) (b'(' ∷ b'n' ∷ b'u' ∷ b'l' ∷ b'l' ∷ b')' ∷ []) args
  other :
      {d : ℕ} {args : List Arg}
      → (d ≢ b'%') × (d ≢ b'd') × (d ≢ b'x') × (d ≢ b'c') × (d ≢ b's')
      → Says d args (b'%' ∷ d ∷ []) args

-- A directive whose argument is not there, or not of its kind.
pub data Lacks (args : List Arg) : ℕ → Type 0 where
  no_word :
      {d : ℕ}
      → (d ≡ b'd') ⊎ ((d ≡ b'x') ⊎ (d ≡ b'c'))
      → ((v : ℕ) (rest : List Arg) → args ≢ word v ∷ rest)
      → Lacks args d
  no_string : ((p : Option (List ℕ)) (rest : List Arg) → args ≢ string p ∷ rest) → Lacks args b's'

-- What a format prints, none where an argument is read that is not there.
pub data Prints : List ℕ → List Arg → Option (List ℕ) → Type 0 where
  ended : {args : List Arg} → Prints [] args (some [])
  nul : {fmt : List ℕ} {args : List Arg} → Prints (0 ∷ fmt) args (some [])
  plain :
      {c : ℕ} {fmt : List ℕ} {args : List Arg} {t : Option (List ℕ)}
      → c ≢ 0
      → c ≢ b'%'
      → Prints fmt args t
      → Prints (c ∷ fmt) args (Option.map (λ l. c ∷ l) t)
  last_percent : {args : List Arg} → Prints (b'%' ∷ []) args (some (b'%' ∷ []))
  percent_nul : {fmt : List ℕ} {args : List Arg} → Prints (b'%' ∷ 0 ∷ fmt) args (some (b'%' ∷ []))
  directed :
      {d : ℕ} {fmt l : List ℕ} {args args' : List Arg} {t : Option (List ℕ)}
      → d ≢ 0
      → Says d args l args'
      → Prints fmt args' t
      → Prints (b'%' ∷ d ∷ fmt) args (Option.map (λ m. l ++ m) t)
  unreadable :
      {d : ℕ} {fmt : List ℕ} {args : List Arg}
      → d ≢ 0
      → Lacks args d
      → Prints (b'%' ∷ d ∷ fmt) args none

-- The ints are of 32 bits.
abbrev pub AreWords : List Arg → Type 0
AreWords [] = Unit {0}
AreWords (word v ∷ args) = (v < 2 ^ 32) × AreWords args
AreWords (string p ∷ args) = AreWords args
