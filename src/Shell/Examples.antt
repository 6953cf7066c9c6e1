-- ===== src/Shell/Examples.antt =====
-- The numbers of kernel/shell.c on concrete texts.
use waltex.Base.{
  ltb, if◌then◌else◌, length, take, ℕ, ◌^◌, ◌≤◌, ◌≡◌, refl, ◌&&◌, none, some, List, [], ◌∷◌, ◌++◌,
  arith,
}
use waltex.CString.{strchr, tolower, IsText, strpos, text, strlen}
use waltex.LineEdit.{line_max}
use waltex.Shell.{parsed, parse_hex, parse_dec}
use waltex.Shell.Decimal.{decimal, is_decimal, parse_dec-decimal}
use waltex.Shell.Pattern.{sector_of, pattern_bytes, repeat_loop}
use waltex.Shell.Sector.{Fills, sector_of-Fills}
use waltex.Shell.Split.{split, split_from}
use waltex.Shell.Words.{words, split-words, strings_at}
use waltex.Shell.Write.{write_text, unwords, write_text-unwords, blank_words}

parse_dec_ok : parse_dec (b'4' ∷ b'0' ∷ b'9' ∷ b'6' ∷ []) ≡ some 4096
unfolding parse_dec
parse_dec_ok = refl

parse_dec_bad : parse_dec (b'4' ∷ b'x' ∷ []) ≡ none
unfolding parse_dec
parse_dec_bad = refl

parse_hex_ok : parse_hex (b'0' ∷ b'X' ∷ b'1' ∷ b'F' ∷ []) ≡ some 31
unfolding parse_hex strpos strchr tolower
parse_hex_ok = refl

abbrev forty_two : List ℕ
forty_two = b'4' ∷ b'2' ∷ []

forty_two-IsText : IsText forty_two
forty_two-IsText = ground arith

parse_dec-decimal_example : parse_dec forty_two ≡ (
    if is_decimal forty_two && ltb (decimal 0 forty_two) (2 ^ 32)
    then parsed (decimal 0 forty_two) 2
    else none)
parse_dec-decimal_example = parse_dec-decimal forty_two forty_two-IsText

-- "  cat /a  b"
abbrev cat_line : List ℕ
cat_line = b' ' ∷ b' ' ∷ b'c' ∷ b'a' ∷ b't' ∷ b' ' ∷ b'/' ∷ b'a' ∷ b' ' ∷ b' ' ∷ b'b' ∷ 0 ∷ []

three_words : (split cat_line 8).0 ≡ 2 ∷ 6 ∷ 10 ∷ []
unfolding split split_from
three_words = refl

two_fit :
    strings_at (split cat_line 2).1 (split cat_line 2).0
    ≡ (b'c' ∷ b'a' ∷ b't' ∷ []) ∷ (b'/' ∷ b'a' ∷ []) ∷ []
unfolding split split_from strings_at waltex.CString.text
two_fit = refl

split-words_example :
    strings_at (split cat_line 2).1 (split cat_line 2).0 ≡ take 2 (words [] (text cat_line))
split-words_example = split-words cat_line 2

abbrev two_words : List (List ℕ)
two_words = (b'c' ∷ b'a' ∷ 0 ∷ []) ∷ (b'x' ∷ 0 ∷ []) ∷ []

write_text_ok : write_text two_words ≡ b'c' ∷ b'a' ∷ b' ' ∷ b'x' ∷ 10 ∷ []
unfolding text waltex.Shell.Write.blank_words
write_text_ok = (write_text-unwords two_words).0

write_text-unwords_example :
    (write_text two_words ≡ take 127 (unwords two_words) ++ (10 ∷ []))
    × (length (write_text two_words) ≤ line_max)
write_text-unwords_example = write_text-unwords two_words

abbrev beef : List ℕ
beef = b'b' ∷ b'E' ∷ b'e' ∷ b'f' ∷ 0 ∷ []

abbrev beef_sector : List ℕ
beef_sector = repeat_loop (190 ∷ 239 ∷ []) 2 510

odd_refused : sector_of (b'b' ∷ b'e' ∷ b'e' ∷ 0 ∷ []) ≡ none
unfolding sector_of strlen
odd_refused = refl

beef-sector : sector_of beef ≡ some beef_sector
unfolding sector_of pattern_bytes strpos strchr tolower strlen
beef-sector = refl

sector_of-Fills_example : Fills beef (sector_of beef)
sector_of-Fills_example = sector_of-Fills beef
