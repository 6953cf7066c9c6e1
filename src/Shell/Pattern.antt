-- ===== src/Shell/Pattern.antt =====
-- shell_wrsect of kernel/shell.c: the bytes of a pattern, and the sector that it makes of them.
use waltex.Base.{
  ltb, ◌==◌, if◌then◌else◌, pos, negsuc, length, get_or, take, ℕ, zero, suc, ◌-◌, ◌*◌, ◌/◌, ◌%◌,
  ◌^◌, bit_or, not, ◌||◌, Option, none, some, List, [], ◌∷◌, ◌++◌,
}
use waltex.Blockdev.{sector_size}
use waltex.CString.{strpos, tolower, strlen}
use waltex.Shell.{hexa}

-- A byte in front of the others, where there are others.
abbrev pub byte_before : ℕ → Option (List ℕ) → Option (List ℕ)
byte_before b none = none
byte_before b (some bytes) = some (b ∷ bytes)

-- The loop over the pairs of digits; `none` is a byte that is no digit.
unfoldable pub pattern_bytes : List ℕ → Option (List ℕ)
pattern_bytes [] = some []
pattern_bytes (h ∷ []) = none
pattern_bytes (h ∷ l ∷ hex) =
    let rest = pattern_bytes hex in
    elim (strpos hexa (tolower h)) [
      | negsuc n ↦ none
      | pos hi ↦ elim (strpos hexa (tolower l)) [
        | negsuc n ↦ none
        | pos lo ↦ byte_before (bit_or (hi * 2 ^ 4) lo % 2 ^ 8) rest
      ]
    ]

-- The loop that repeats the `nbytes` bytes of the pattern, for `k` places more: `buf` is what has
-- been stored.
unfoldable pub repeat_loop : List ℕ → ℕ → ℕ → List ℕ
repeat_loop buf nbytes zero = buf
repeat_loop buf nbytes (suc k) =
    repeat_loop (buf ++ (get_or buf (length buf % nbytes) 0 ∷ [])) nbytes k

-- The sector of a pattern, `none` where shell_wrsect refuses it.
unfoldable pub sector_of : List ℕ → Option (List ℕ)
unfolding pattern_bytes repeat_loop
sector_of hex =
    let len = strlen hex in
    if len == 0 || not (len % 2 == 0) || ltb (2 * sector_size) len
    then none
    else elim (pattern_bytes (take len hex)) [
      | none ↦ none
      | some bytes ↦ some (repeat_loop bytes (len / 2) (sector_size - len / 2))
    ]
