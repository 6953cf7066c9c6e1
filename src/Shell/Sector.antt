-- ===== src/Shell/Sector.antt =====
-- shell_wrsect of kernel/shell.c: the sector that a pattern fills.
use native.Mathlib.Nat.{mod-lt, mod-mod, mod-eq_of_lt}
use waltex.Base.{
  ltb, ◌==◌, ==→eq, Bool-cases, length, get_or, take, length-append, get_or-append_left,
  get_or-append_right, get_or-take, ℕ, zero, suc, ◌+◌, ◌-◌, ◌*◌, ◌/◌, ◌%◌, ◌≤◌, ◌<◌, ◌≡◌, refl, sym,
  ap, ◌∙◌, subst, ◌≢◌, ◌⊎◌, inl, inr, true, false, not, ◌||◌, Option, none, some, List, [], ◌∷◌,
  ◌++◌, arith,
}
use waltex.Blockdev.{sector_size}
use waltex.CString.{strlen}
use waltex.Shell.Digits.{hex_value, ByteAt, Decoded, pattern_bytes-Decoded}
use waltex.Shell.Pattern.{pattern_bytes, repeat_loop, sector_of}

minus_self : (n : ℕ) → n - n ≡ 0
minus_self n = omega arith

repeat_loop-get_or :
    (bytes buf : List ℕ) (nbytes k i : ℕ)
    → 0 < nbytes
    → nbytes ≤ length buf
    → ((j : ℕ) → j < length buf → get_or buf j 0 ≡ get_or bytes (j % nbytes) 0)
    → i < length buf + k
    → get_or (repeat_loop buf nbytes k) i 0 ≡ get_or bytes (i % nbytes) 0
unfolding repeat_loop
repeat_loop-get_or bytes buf nbytes zero i some_bytes stored each lt = each i (omega arith)
repeat_loop-get_or bytes buf nbytes (suc k) i some_bytes stored each lt =
    let v = get_or buf (length buf % nbytes) 0 in
    let grown = length-append buf (v ∷ []) in
    let below : length buf % nbytes < nbytes = mod-lt (length buf) some_bytes in
    let new : v ≡ get_or bytes (length buf % nbytes) 0 =
      each (length buf % nbytes) (omega arith)
      ∙ ap (λ j. get_or bytes j 0) (mod-mod (length buf) nbytes) in
    repeat_loop-get_or bytes (buf ++ (v ∷ [])) nbytes k i some_bytes (omega (arith, grown))
      (λ j below_grown. elim (Bool-cases (ltb j (length buf))) [
        | inl old ↦ get_or-append_left buf (v ∷ []) j (ground arith) ∙ each j (ground arith)
        | inr last ↦
            let here : j ≡ length buf = ground (arith, grown) in
            rw here (
              get_or-append_right buf (v ∷ []) (length buf) (omega arith)
              ∙ (ap (λ d. get_or (v ∷ []) d 0) (minus_self (length buf)) ∙ new))
      ])
      (omega (arith, grown))

length-repeat_loop :
    (buf : List ℕ) (nbytes k : ℕ) → length (repeat_loop buf nbytes k) ≡ length buf + k
unfolding repeat_loop
length-repeat_loop buf nbytes zero = omega arith
length-repeat_loop buf nbytes (suc k) =
    let v = get_or buf (length buf % nbytes) 0 in
    omega (arith, length-repeat_loop (buf ++ (v ∷ [])) nbytes k, length-append buf (v ∷ []))

filled :
    (bytes : List ℕ) (n i : ℕ)
    → length bytes ≡ n
    → 0 < n
    → n ≤ sector_size
    → i < sector_size
    → (length (repeat_loop bytes n (sector_size - n)) ≡ sector_size)
      × (get_or (repeat_loop bytes n (sector_size - n)) i 0 ≡ get_or bytes (i % n) 0)
filled bytes n i count some_bytes fits lt =
    let each : (j : ℕ) → j < length bytes → get_or bytes j 0 ≡ get_or bytes (j % n) 0 =
      λ j inside. ap (λ k. get_or bytes k 0) (sym (mod-eq_of_lt (omega arith))) in
    (
      length-repeat_loop bytes n (sector_size - n) ∙ omega arith,
      repeat_loop-get_or bytes bytes n (sector_size - n) i some_bytes (omega arith) each
          (omega arith),
    )

length-take-strlen : (hex : List ℕ) → length (take (strlen hex) hex) ≡ strlen hex
unfolding strlen
length-take-strlen [] = refl
length-take-strlen (c ∷ hex) = elim (Bool-cases (c == 0)) [
  | inl nul ↦ rw nul refl
  | inr more ↦
      let grow : strlen hex + 1 ≡ suc (strlen hex) = omega arith in
      rw (more, grow) (ap suc (length-take-strlen hex))
]

half_bounds :
    (len : ℕ)
    → (len == 0 || not (len % 2 == 0) || ltb (2 * sector_size) len) ≡ false
    → (0 < len / 2) × (len / 2 ≤ sector_size)
half_bounds len good = ground arith

-- A pattern that shell_wrsect refuses: empty, of an odd number of digits or of more than 1024, or
-- with a byte that is no digit.
abbrev pub Refused : List ℕ → Type 0
Refused hex =
    (strlen hex ≡ 0)
    ⊎ ((strlen hex % 2 ≢ 0)
        ⊎ ((2 * sector_size < strlen hex)
            ⊎ ((j : ℕ) × (j < strlen hex) × (hex_value (get_or hex j 0) ≡ none))))

-- What the pattern gives: the 512 bytes of the sector are those of the pattern, over and over.
abbrev pub Fills : List ℕ → Option (List ℕ) → Type 0
Fills hex none = Refused hex
Fills hex (some sector) =
    (0 < strlen hex)
    × (strlen hex % 2 ≡ 0)
    × (strlen hex ≤ 2 * sector_size)
    × (length sector ≡ sector_size)
    × ((i : ℕ) → i < sector_size → ByteAt hex (i % (strlen hex / 2)) (get_or sector i 0))

Refused-length :
    (hex : List ℕ)
    → (strlen hex == 0 || not (strlen hex % 2 == 0) || ltb (2 * sector_size) (strlen hex)) ≡ true
    → Refused hex
Refused-length hex bad = elim (Bool-cases (strlen hex == 0)) [
  | inl empty ↦ inl (==→eq (strlen hex) 0 empty)
  | inr some_digits ↦ elim (Bool-cases (strlen hex % 2 == 0)) [
    | inl even ↦ inr (inr (inl (ground arith)))
    | inr odd ↦ inr (inl (λ e. ground arith))
  ]
]

length_bounds :
    (len : ℕ)
    → (len == 0 || not (len % 2 == 0) || ltb (2 * sector_size) len) ≡ false
    → (0 < len) × (len % 2 ≡ 0) × (len ≤ 2 * sector_size)
length_bounds len good = ground arith

ByteAt-take : (hex : List ℕ) (n j b : ℕ) → 2 * j + 1 < n → ByteAt (take n hex) j b → ByteAt hex j b
ByteAt-take hex n j b lt (hi, lo, high, low, e) = (
  hi,
  lo,
  ap hex_value (sym (get_or-take n hex (2 * j) (omega arith))) ∙ high,
  ap hex_value (sym (get_or-take n hex (2 * j + 1) lt)) ∙ low,
  e,
)

filled-Fills :
    (hex : List ℕ) (o : Option (List ℕ))
    → (strlen hex == 0 || not (strlen hex % 2 == 0) || ltb (2 * sector_size) (strlen hex)) ≡ false
    → Decoded (take (strlen hex) hex) o
    → Fills hex (elim o as (λ x. Option (List ℕ)) [
      | none ↦ none
      | some bytes ↦ some (repeat_loop bytes (strlen hex / 2) (sector_size - strlen hex / 2))
    ])
filled-Fills hex none good (j, lt, bad) =
    let inside : j < strlen hex = omega (arith, length-take-strlen hex) in
    inr (inr (inr (j, inside, ap hex_value (sym (get_or-take (strlen hex) hex j inside)) ∙ bad)))
filled-Fills hex (some bytes) good (twice, each) =
    let n = strlen hex / 2 in
    let fits = half_bounds (strlen hex) good in
    let bounds = length_bounds (strlen hex) good in
    let count : length bytes ≡ n = omega (arith, length-take-strlen hex) in
    (
      bounds.0,
      bounds.1,
      bounds.2,
      (filled bytes n 0 count fits.0 fits.1 (omega arith)).0,
      (λ i lt.
          let below : i % n < n = mod-lt i fits.0 in
          subst (ByteAt hex (i % n)) (sym (filled bytes n i count fits.0 fits.1 lt).1) (
            ByteAt-take hex (strlen hex) (i % n) (get_or bytes (i % n) 0) (omega arith)
              (each (i % n) (omega arith)))),
    )

-- wrsect refuses a pattern that is empty, of an odd number of digits, of more than 1024, or with a
-- byte that is no hexadecimal digit. Of every other one it makes a sector of 512 bytes, the bytes
-- that its pairs of digits stand for, in order and over and over.
pub sector_of-Fills : (hex : List ℕ) → Fills hex (sector_of hex)
unfolding sector_of
sector_of-Fills hex =
    elim (Bool-cases
      (strlen hex == 0 || not (strlen hex % 2 == 0) || ltb (2 * sector_size) (strlen hex))) [
        | inl bad ↦ rw bad (Refused-length hex bad)
        | inr good ↦
            let text = take (strlen hex) hex in
            let bounds = length_bounds (strlen hex) good in
            rw good (
              filled-Fills hex (pattern_bytes text) good
                (pattern_bytes-Decoded text (ap (λ n. n % 2) (length-take-strlen hex) ∙ bounds.1)))
      ]
