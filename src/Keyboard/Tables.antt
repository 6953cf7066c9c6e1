-- ===== src/Keyboard/Tables.antt =====
-- The two tables of kernel/keyboard.c.
use waltex.Base.{
  ltb, leb, ◌==◌, if◌then◌else◌, length, get_or, ℕ, zero, suc, ◌-◌, ◌<◌, bit_and, ◌≡◌, refl, Bool,
  true, false, not, ◌&&◌, ◌||◌, Option, none, some, List, [], ◌∷◌, arith,
}
use waltex.Keyboard.{ascii_normal, ascii_shift, scancode_to_char, char_or_none}

abbrev all_bytes : List ℕ → Bool
all_bytes [] = true
all_bytes (c ∷ l) = ltb c 128 && all_bytes l

get_or_small : (l : List ℕ) (i : ℕ) → all_bytes l ≡ true → get_or l i 0 < 128
get_or_small [] i h = omega arith
get_or_small (c ∷ l) zero h = ground arith
get_or_small (c ∷ l) (suc i) h = get_or_small l i (ground arith)

-- scancode_to_char with the break bit and the entry of the table given.
abbrev pressed : Bool → ℕ → Option ℕ
pressed make n = if not make then none else char_or_none n

pressed-lt : (make : Bool) (n c : ℕ) → n < 128 → pressed make n ≡ some c → c < 128
pressed-lt true n c lt e = ground arith
pressed-lt false n c lt e = absurd (ground arith)

-- Every character of the keyboard is ASCII.
pub scancode_to_char-lt :
    (s : ℕ) (shift : Bool) (c : ℕ) → scancode_to_char s shift ≡ some c → c < 128
unfolding scancode_to_char
scancode_to_char-lt s true c e =
    pressed-lt (bit_and s 0x80 == 0) (get_or ascii_shift s 0) c (get_or_small ascii_shift s refl) e
scancode_to_char-lt s false c e =
    pressed-lt (bit_and s 0x80 == 0) (get_or ascii_normal s 0) c (get_or_small ascii_normal s refl)
      e

and_left : (a b : Bool) → a && b ≡ true → a ≡ true
and_left true b h = refl
and_left false b h = h

and_right : (a b : Bool) → a && b ≡ true → b ≡ true
and_right true b h = h
and_right false b h = absurd (ground arith)

-- What the two characters of a key have in common: both are there or neither, and where the first
-- is a small letter the second is its capital.
abbrev pub key_fits : Option ℕ → Option ℕ → Bool
key_fits none none = true
key_fits none (some d) = false
key_fits (some c) none = false
key_fits (some c) (some d) = not (leb b'a' c && leb c b'z') || d == c - 32

abbrev tables_fit : List ℕ → List ℕ → Bool
tables_fit [] l = true
tables_fit (c ∷ k) [] = false
tables_fit (c ∷ k) (d ∷ l) = key_fits (char_or_none c) (char_or_none d) && tables_fit k l

get_or_fits :
    (k l : List ℕ) (i : ℕ)
    → length k ≡ length l
    → tables_fit k l ≡ true
    → key_fits (char_or_none (get_or k i 0)) (char_or_none (get_or l i 0)) ≡ true
get_or_fits [] [] i same h = refl
get_or_fits [] (d ∷ l) i same h = absurd (omega arith)
get_or_fits (c ∷ k) [] i same h = absurd (omega arith)
get_or_fits (c ∷ k) (d ∷ l) zero same h =
    and_left (key_fits (char_or_none c) (char_or_none d)) (tables_fit k l) h
get_or_fits (c ∷ k) (d ∷ l) (suc i) same h =
    get_or_fits k l i (omega arith)
      (and_right (key_fits (char_or_none c) (char_or_none d)) (tables_fit k l) h)

pressed-fits :
    (make : Bool) (m n : ℕ)
    → key_fits (char_or_none m) (char_or_none n) ≡ true
    → key_fits (pressed make m) (pressed make n) ≡ true
pressed-fits true m n fits = fits
pressed-fits false m n fits = refl

-- A key gives a character with shift exactly where it gives one without, and where that is a small
-- letter the shifted one is its capital.
pub scancode_to_char-shift :
    (s : ℕ) → key_fits (scancode_to_char s false) (scancode_to_char s true) ≡ true
unfolding scancode_to_char
scancode_to_char-shift s =
    pressed-fits (bit_and s 0x80 == 0) (get_or ascii_normal s 0) (get_or ascii_shift s 0)
      (get_or_fits ascii_normal ascii_shift s refl refl)
