-- ===== src/Kprintf/Examples.antt =====
-- put_uint of kernel/kprintf.c on concrete numbers.
use waltex.Base.{
  leb, length, replicate, ℕ, ◌-◌, ◌^◌, ◌≡◌, refl, Option, none, some, List, [], ◌∷◌, ◌++◌, arith,
}
use waltex.Kprintf.{put_uint}
use waltex.Kprintf.Buffer.{printed, after_text, vsnprintf-cut_to}
use waltex.Kprintf.Directives.{kvprintf-Prints}
use waltex.Kprintf.Format.{word, string, kvprintf, Arg, directive, vsnprintf}
use waltex.Kprintf.Number.{put_uint-signed, parse_dec-put_uint, magnitude, IsNumeral}
use waltex.Kprintf.Print.{feed, signed}
use waltex.Kprintf.Prints.{Prints}
use waltex.Shell.{parse_dec}

abbrev add_char : List ℕ → ℕ → List ℕ
add_char t c = t ++ (c ∷ [])

prints_minus_120 : put_uint add_char (2 ^ 32 - 120) 10 [] ≡ b'-' ∷ b'1' ∷ b'2' ∷ b'0' ∷ []
unfolding put_uint
prints_minus_120 = refl

prints_hex : put_uint add_char 48879 16 [] ≡ b'b' ∷ b'e' ∷ b'e' ∷ b'f' ∷ []
unfolding put_uint
prints_hex = refl

prints_smallest : length (put_uint add_char (2 ^ 31) 10 []) ≡ 11
unfolding put_uint
prints_smallest = refl

put_uint-signed_run :
    (l : List ℕ) × (IsNumeral l (magnitude 4294967176)
      × (put_uint add_char 4294967176 10 []
          ≡ feed add_char (signed (leb (2 ^ 31) 4294967176) l) []))
put_uint-signed_run = put_uint-signed add_char 4294967176 [] (omega arith)

parse_dec-put_uint_example : parse_dec (put_uint add_char 4096 10 []) ≡ some 4096
parse_dec-put_uint_example = parse_dec-put_uint 4096 (omega arith)

-- "%s=%d%%"
abbrev percent : List ℕ
percent = b'%' ∷ b's' ∷ b'=' ∷ b'%' ∷ b'd' ∷ b'%' ∷ b'%' ∷ []

abbrev two_args : List Arg
two_args = string (some (b'a' ∷ b'b' ∷ [])) ∷ word 7 ∷ []

abbrev ab_is_7 : List ℕ
ab_is_7 = b'a' ∷ b'b' ∷ b'=' ∷ b'7' ∷ b'%' ∷ []

percent_prints : printed percent two_args ≡ some ab_is_7
unfolding printed kvprintf directive
percent_prints = refl

-- An argument that is missing.
missing_arg : printed (b'%' ∷ b'd' ∷ []) [] ≡ none
unfolding printed kvprintf directive
missing_arg = refl

-- A `%` at the end, and a directive that there is not.
odd_prints : printed (b'%' ∷ b'q' ∷ b'%' ∷ []) [] ≡ some (b'%' ∷ b'q' ∷ b'%' ∷ [])
unfolding printed kvprintf directive
odd_prints = refl

kvprintf-Prints_example :
    (o : Option (List ℕ)) × Prints percent two_args o
    × (kvprintf add_char percent two_args (b'>' ∷ []) ≡ after_text add_char (b'>' ∷ []) o)
kvprintf-Prints_example = kvprintf-Prints add_char percent two_args (b'>' ∷ []) (omega arith, tt)

vsnprintf-cut_to_example :
    vsnprintf (replicate 6 1) 4 percent two_args ≡ some (5, b'a' ∷ b'b' ∷ b'=' ∷ 0 ∷ 1 ∷ 1 ∷ [])
vsnprintf-cut_to_example =
    vsnprintf-cut_to (replicate 6 1) 4 percent two_args ab_is_7 (omega arith) percent_prints
      (omega arith)
