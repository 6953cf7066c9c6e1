-- ===== src/Shell.antt =====
-- kernel/shell.c: the numbers, the words and the patterns that the commands take.
pub mod Decimal
pub mod Split
pub mod Words
pub mod Write
pub mod Pattern
pub mod Digits
pub mod Sector
mod Examples
use waltex.Base.{
  ltb, ◌==◌, if◌then◌else◌, ℤ, pos, negsuc, get_or, drop, ℕ, ◌+◌, ◌-◌, ◌*◌, ◌%◌, ◌^◌, bit_or, Bool,
  ◌&&◌, ◌||◌, Option, none, some, List, [], ◌∷◌,
}
use waltex.CString.{strpos, tolower}

-- The end of both parsers: no digit is no number.
abbrev pub parsed : ℕ → ℕ → Option ℕ
parsed val cifre = if cifre == 0 then none else some val

-- `val > 429496729u || (val == 429496729u && (*s - '0') > 5)`
abbrev pub is_too_big : ℕ → ℕ → Bool
is_too_big val c = ltb 429496729 val || val == 429496729 && ltb 5 (c - b'0')

-- The loop of shell_parse_dec. A byte from 128 on is a negative char, so no digit either.
unfoldable pub dec_loop : ℕ → ℕ → List ℕ → Option ℕ
dec_loop val cifre [] = parsed val cifre
dec_loop val cifre (c ∷ s) =
    let rest = dec_loop ((val * 10 + (c - b'0')) % 2 ^ 32) (cifre + 1) s in
    if c == 0
    then parsed val cifre
    else if ltb c b'0' || ltb b'9' c
    then none
    else if is_too_big val c
    then none
    else rest

-- shell_parse_dec: `none` is 0, and then `*out` is left alone.
unfoldable pub parse_dec : List ℕ → Option ℕ
unfolding dec_loop
parse_dec s = dec_loop 0 0 s

-- HEXA
abbrev pub hexa : List ℕ
hexa =
    b'0' ∷ b'1' ∷ b'2' ∷ b'3' ∷ b'4' ∷ b'5' ∷ b'6' ∷ b'7' ∷ b'8' ∷ b'9' ∷ b'a' ∷ b'b' ∷ b'c' ∷ b'd'
    ∷ b'e' ∷ b'f' ∷ []

-- One digit of shell_parse_hex, given where strpos found it; `go` is the rest of the loop.
unfoldable pub hex_digit : (ℕ → Option ℕ) → ℕ → ℕ → ℤ → Option ℕ
hex_digit go val cifre (negsuc n) = none
hex_digit go val cifre (pos p) =
    let rest = go (bit_or (val * 16 % 2 ^ 32) p) in if cifre == 8 then none else rest

-- The loop of shell_parse_hex.
unfoldable pub hex_loop : ℕ → ℕ → List ℕ → Option ℕ
unfolding hex_digit
hex_loop val cifre [] = parsed val cifre
hex_loop val cifre (c ∷ s) =
    let rest = hex_digit (λ v. hex_loop v (cifre + 1) s) val cifre (strpos hexa (tolower c)) in
    if c == 0 then parsed val cifre else rest

-- `if (s[0] == '0' && (s[1] == 'x' || s[1] == 'X')) s += 2;`
abbrev pub skip_prefix : List ℕ → List ℕ
skip_prefix s =
    if get_or s 0 0 == b'0' && (get_or s 1 0 == b'x' || get_or s 1 0 == b'X') then drop 2 s else s

-- shell_parse_hex
unfoldable pub parse_hex : List ℕ → Option ℕ
unfolding hex_loop
parse_hex s = hex_loop 0 0 (skip_prefix s)
