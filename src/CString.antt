-- ===== src/CString.antt =====
-- kernel/memory.c: copying and filling, and the string functions. A pointer to bytes is the list
-- of the bytes from there on; where the list of a string ends, its NUL follows.
pub mod Laws
pub mod Order
pub mod Fill
mod Examples
use mathlib.Core.Option
use waltex.Base.{
  ltb, leb, ◌==◌, if◌then◌else◌, ℤ, pos, negsuc, ℕ, zero, suc, ◌+◌, ◌%◌, ◌≢◌, Bool, false, ◌&&◌,
  Option, none, some, List, [], ◌∷◌,
}

-- strlen
unfoldable pub strlen : List ℕ → ℕ
strlen [] = 0
strlen (c ∷ s) = if c == 0 then 0 else strlen s + 1

-- strchr: the distance to the first `c`, `none` for a null pointer. The NUL can be searched for.
unfoldable pub strchr : List ℕ → ℕ → Option ℕ
strchr [] c = if c == 0 then some 0 else none
strchr (x ∷ s) c =
    let rest = Option.map suc (strchr s c) in
    if x == c then some 0 else if x == 0 then none else rest

-- strpos: as strchr, -1 when there is none, and -1 for the NUL.
unfoldable pub strpos : List ℕ → ℕ → ℤ
strpos l a = elim (strchr l a) [ none ↦ negsuc 0 | some r ↦ if a == 0 then negsuc 0 else pos r ]

-- tolower
unfoldable pub tolower : ℕ → ℕ
tolower argument = if leb 65 argument && leb argument 90 then argument + 32 else argument

-- strcmp: 0, 1 or -1, by the first bytes that differ, as unsigned chars.
unfoldable pub strcmp : List ℕ → List ℕ → ℤ
strcmp [] [] = pos 0
strcmp [] (y ∷ b) = if ltb 0 y then negsuc 0 else pos 0
strcmp (x ∷ a) [] = if ltb 0 x then pos 1 else pos 0
strcmp (x ∷ a) (y ∷ b) =
    let rest = strcmp a b in
    if ltb y x
    then pos 1
    else if ltb x y
    then negsuc 0
    else if x == 0
    then pos 0
    else if y == 0
    then pos 0
    else rest

-- `strcmp(a, b) == 0`
abbrev pub is_zero : ℤ → Bool
is_zero (pos n) = n == 0
is_zero (negsuc n) = false

unfoldable pub str_eq : List ℕ → List ℕ → Bool
str_eq a b = is_zero (strcmp a b)

-- memcpy: the first `count` bytes of `dest` become those of `src`.
unfoldable pub memcpy : List ℕ → List ℕ → ℕ → List ℕ
memcpy dest src zero = dest
memcpy [] src (suc n) = []
memcpy (d ∷ dest) [] (suc n) = d ∷ dest
memcpy (d ∷ dest) (s ∷ src) (suc n) = s ∷ memcpy dest src n

-- memset: the first `n` bytes become `ch`, cut to a byte.
unfoldable pub memset : List ℕ → ℕ → ℕ → List ℕ
memset dest ch zero = dest
memset [] ch (suc n) = []
memset (d ∷ dest) ch (suc n) = (ch % 256) ∷ memset dest ch n

-- memset16: the first `count` words become `value`.
unfoldable pub memset16 : List ℕ → ℕ → ℕ → List ℕ
memset16 dest value zero = dest
memset16 [] value (suc n) = []
memset16 (d ∷ dest) value (suc n) = value ∷ memset16 dest value n

-- The text of a string: its bytes before the first NUL.
unfoldable pub text : List ℕ → List ℕ
text [] = []
text (c ∷ s) = if c == 0 then [] else c ∷ text s

-- A string given by its text alone, with no NUL inside.
abbrev pub IsText : List ℕ → Type 0
IsText [] = Unit {0}
IsText (c ∷ p) = (c ≢ 0) × IsText p
