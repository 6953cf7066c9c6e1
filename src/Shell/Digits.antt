-- ===== src/Shell/Digits.antt =====
-- shell_wrsect of kernel/shell.c: the bytes that the digits of a pattern stand for.
use waltex.Base.{
  ltb, leb, ◌==◌, if◌then◌else◌, ℤ, pos, negsuc, ==→eq, Bool-cases, eq_false, length, get_or, ℕ,
  zero, suc, ◌+◌, ◌-◌, ◌*◌, ◌%◌, ◌^◌, ◌≤◌, ◌<◌, bit_or, ◌≡◌, refl, ap, ◌≢◌, inl, inr, Bool, true,
  false, ◌&&◌, Option, none, some, List, [], ◌∷◌, arith,
}
use waltex.Bits.{bit_or-nibbles, all_below, all_below-lt}
use waltex.CString.{strpos, strchr, tolower}
use waltex.Shell.{hexa}
use waltex.Shell.Pattern.{pattern_bytes, byte_before}

-- The value of a hexadecimal digit, in either case.
abbrev pub hex_value : ℕ → Option ℕ
hex_value c =
    if leb b'0' c && leb c b'9'
    then some (c - 48)
    else if leb b'a' c && leb c b'f'
    then some (c - 87)
    else if leb b'A' c && leb c b'F'
    then some (c - 55)
    else none

-- A place in HEXA, -1 for none.
abbrev place_of : Option ℕ → ℤ
place_of none = negsuc 0
place_of (some v) = pos v

abbrev same_place : ℤ → Option ℕ → Bool
same_place (negsuc n) none = n == 0
same_place (negsuc n) (some v) = false
same_place (pos n) none = false
same_place (pos n) (some v) = n == v

same_place-eq : (z : ℤ) (o : Option ℕ) → same_place z o ≡ true → z ≡ place_of o
same_place-eq (negsuc n) none h = ap negsuc (==→eq n 0 h)
same_place-eq (negsuc n) (some v) h = absurd (ground arith)
same_place-eq (pos n) none h = absurd (ground arith)
same_place-eq (pos n) (some v) h = ap pos (==→eq n v h)

abbrev AllBelow : List ℕ → ℕ → Type 0
AllBelow [] c = 0 < c
AllBelow (x ∷ l) c = (x < c) × AllBelow l c

strchr-beyond : (l : List ℕ) (c : ℕ) → AllBelow l c → strchr l c ≡ none
unfolding strchr
strchr-beyond [] c below = ground (arith, below)
strchr-beyond (x ∷ l) c below =
    let differs : (x == c) ≡ false = eq_false (x == c) (λ e. beyond x c below.0 (==→eq x c e)) in
    rw (differs, strchr-beyond l c below.1)
      (elim (Bool-cases (x == 0)) [ inl nul ↦ rw nul refl | inr more ↦ rw more refl ])
  where
    beyond : (x c : ℕ) → x < c → x ≢ c
    beyond x c lt e = omega arith

strpos-hexa : (c : ℕ) → strpos hexa (tolower c) ≡ place_of (hex_value c)
unfolding strpos strchr tolower all_below
strpos-hexa c = elim (Bool-cases (ltb c 128)) [
  | inl ascii ↦ same_place-eq (strpos hexa (tolower c)) (hex_value c) (
      all_below-lt 128 (λ c. same_place (strpos hexa (tolower c)) (hex_value c)) c refl
        (ground arith))
  | inr high ↦ strpos-high c (ground arith)
]
  where
    strpos-high : (c : ℕ) → 128 ≤ c → strpos hexa (tolower c) ≡ place_of (hex_value c)
    strpos-high c high =
        let same : tolower c ≡ c = ground arith in
        let no_value : hex_value c ≡ none = ground arith in
        let nowhere : strchr hexa c ≡ none = strchr-beyond hexa c (ground arith) in
        rw (strpos, same, no_value, nowhere) refl

hex_value-lt : (c v : ℕ) → hex_value c ≡ some v → v < 16
hex_value-lt c v e = ground arith

-- Byte `j` of a pattern is made of its digits `2 j` and `2 j + 1`, the high half first.
abbrev pub ByteAt : List ℕ → ℕ → ℕ → Type 0
ByteAt hex j b =
    (hi : ℕ) × (lo : ℕ) × (hex_value (get_or hex (2 * j) 0) ≡ some hi)
    × (hex_value (get_or hex (2 * j + 1) 0) ≡ some lo)
    × (b ≡ hi * 16 + lo)

-- What the loop over the pairs comes to.
abbrev pub Decoded : List ℕ → Option (List ℕ) → Type 0
Decoded hex none = (j : ℕ) × (j < length hex) × (hex_value (get_or hex j 0) ≡ none)
Decoded hex (some bytes) =
    (2 * length bytes ≡ length hex) × ((j : ℕ) → j < length bytes → ByteAt hex j (get_or bytes j 0))

ByteAt-cons : (h l : ℕ) (hex : List ℕ) (j b : ℕ) → ByteAt hex j b → ByteAt (h ∷ l ∷ hex) (suc j) b
ByteAt-cons h l hex j b (hi, lo, high, low, e) =
    let first : 2 * suc j ≡ suc (suc (2 * j)) = omega arith in
    let second : 2 * suc j + 1 ≡ suc (suc (2 * j + 1)) = omega arith in
    (hi, lo, rw first high, rw second low, e)

Decoded-cons :
    (h l hi lo : ℕ) (hex : List ℕ) (o : Option (List ℕ))
    → hex_value h ≡ some hi
    → hex_value l ≡ some lo
    → Decoded hex o
    → Decoded (h ∷ l ∷ hex) (byte_before (bit_or (hi * 2 ^ 4) lo % 2 ^ 8) o)
Decoded-cons h l hi lo hex none high low (j, lt, bad) = (suc (suc j), omega arith, bad)
Decoded-cons h l hi lo hex (some bytes) high low (twice, each) = (omega arith, all)
  where
    all :
        (j : ℕ)
        → j < suc (length bytes)
        → ByteAt (h ∷ l ∷ hex) j (get_or ((bit_or (hi * 2 ^ 4) lo % 2 ^ 8) ∷ bytes) j 0)
    all zero lt =
        let small_hi = hex_value-lt h hi high in
        let small_lo = hex_value-lt l lo low in
        (hi, lo, high, low, rw (bit_or-nibbles hi lo small_hi small_lo) (omega arith))
    all (suc j) lt = ByteAt-cons h l hex j (get_or bytes j 0) (each j (omega arith))

-- A round of the loop, given where strpos finds the two digits.
abbrev pair_bytes : Option (List ℕ) → ℤ → ℤ → Option (List ℕ)
pair_bytes rest x y = elim x [
  | negsuc n ↦ none
  | pos hi ↦ elim y [ negsuc n ↦ none | pos lo ↦ byte_before (bit_or (hi * 2 ^ 4) lo % 2 ^ 8) rest ]
]

pub pattern_bytes-Decoded : (hex : List ℕ) → length hex % 2 ≡ 0 → Decoded hex (pattern_bytes hex)
unfolding pattern_bytes
pattern_bytes-Decoded [] even = (refl, (λ j lt. absurd (omega arith)))
pattern_bytes-Decoded (h ∷ []) even = absurd (omega arith)
pattern_bytes-Decoded (h ∷ l ∷ hex) even =
    placed (strpos hexa (tolower h)) (strpos hexa (tolower l)) (strpos-hexa h) (strpos-hexa l)
      (pattern_bytes-Decoded hex (omega arith))
  where
    pair :
        (high low : Option ℕ)
        → hex_value h ≡ high
        → hex_value l ≡ low
        → Decoded hex (pattern_bytes hex)
        → Decoded (h ∷ l ∷ hex) (pair_bytes (pattern_bytes hex) (place_of high) (place_of low))
    pair none low e f rest = (0, omega arith, e)
    pair (some hi) none e f rest = (1, omega arith, f)
    pair (some hi) (some lo) e f rest = Decoded-cons h l hi lo hex (pattern_bytes hex) e f rest

    placed :
        (x y : ℤ)
        → x ≡ place_of (hex_value h)
        → y ≡ place_of (hex_value l)
        → Decoded hex (pattern_bytes hex)
        → Decoded (h ∷ l ∷ hex) (pair_bytes (pattern_bytes hex) x y)
    placed x y e f rest = rw (e, f) (pair (hex_value h) (hex_value l) refl refl rest)
