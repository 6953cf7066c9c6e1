-- ===== src/Kprintf/Numerals.antt =====
-- The numbers that kernel/kprintf.c prints: what their digits stand for.
use native.Mathlib.Numerals.{unary_clauses}
use waltex.Base.{
  ltb, leb, ◌==◌, if◌then◌else◌, ==→eq, Bool-cases, eq_false, length, get_or, ℕ, zero, suc, ◌+◌,
  ◌-◌, ◌*◌, ◌/◌, ◌%◌, ◌^◌, ◌≤◌, ◌<◌, ◌≡◌, refl, sym, ap, ◌∙◌, subst, ◌≢◌, inl, inr, true, false,
  ◌&&◌, Option, none, some, List, [], ◌∷◌, arith,
}
use waltex.Kprintf.{digit_char}
use waltex.Kprintf.Digits.{numeral}
use waltex.Kprintf.Hex.{sixteen_power}
use waltex.Kprintf.Number.{numeral-nonempty, ten_power}

-- The value of a digit, with the small letters from 10 on.
unfoldable pub lower_value : ℕ → Option ℕ
lower_value c =
    if leb b'0' c && leb c b'9'
    then some (c - 48)
    else if leb b'a' c && leb c b'f'
    then some (c - 87)
    else none

-- The number that a text stands for in a base, after `v` has been read; none for a byte that is no
-- digit of the base.
unfoldable pub value_of : ℕ → ℕ → List ℕ → Option ℕ
value_of base v [] = some v
value_of base v (c ∷ l) = elim (lower_value c) [
  | none ↦ none
  | some d ↦ let rest = value_of base (v * base + d) l in if ltb d base then rest else none
]

-- The digits of a number in a base: at least one, and no zero in front of another.
pub record IsDigits (base : ℕ) (l : List ℕ) (v : ℕ) : Type 0 where
  pub value : value_of base 0 l ≡ some v
  pub some_digit : 0 < length l
  pub no_zeros : get_or l 0 0 ≡ b'0' → length l ≡ 1

digit_char-value : (r : ℕ) → r < 16 → lower_value (digit_char r) ≡ some r
unfolding lower_value
digit_char-value r lt = ground arith

value_of-cons :
    (base v c d : ℕ) (l : List ℕ)
    → lower_value c ≡ some d
    → d < base
    → value_of base v (c ∷ l) ≡ value_of base (v * base + d) l
unfolding value_of
value_of-cons base v c d l e lt =
    let small : ltb d base ≡ true = ground arith in rw (value_of, e, small) refl

numeral-zero : (k base : ℕ) (l : List ℕ) → numeral k base 0 l ≡ l
unfolding numeral
numeral-zero zero base l = refl
numeral-zero (suc k) base l = refl

module _ (base : ℕ) (fits : base ≤ 16)
    (parts : (v : ℕ) → (v / base * base + v % base ≡ v) × (v % base < base))
    (less : (k v : ℕ) → v < base ^ suc k → v / base < base ^ k) where
  value_of-digit :
      (v : ℕ) (l : List ℕ)
      → value_of base (v / base) (digit_char (v % base) ∷ l) ≡ value_of base v l
  value_of-digit v l =
      let below : v % base < base = (parts v).1 in
      value_of-cons base (v / base) (digit_char (v % base)) (v % base) l
        (digit_char-value (v % base) (omega arith)) below
      ∙ ap (λ n. value_of base n l) (parts v).0

  value_of-numeral :
      (k v : ℕ) (l : List ℕ)
      → v < base ^ k
      → value_of base 0 (numeral k base v l) ≡ value_of base v l
  unfolding numeral
  value_of-numeral zero v l small =
      let one : v < 1 = simp unary_clauses at small in ap (λ n. value_of base n l) (omega arith)
  value_of-numeral (suc k) v l small = elim (Bool-cases (v == 0)) [
    | inl null ↦ rw null (ap (λ n. value_of base n l) (sym (==→eq v 0 null)))
    | inr more ↦ rw more (
        value_of-numeral k (v / base) (digit_char (v % base) ∷ l) (less k v small)
        ∙ value_of-digit v l)
  ]

  numeral-first :
      (k v : ℕ) (l : List ℕ) → v < base ^ k → v ≢ 0 → get_or (numeral k base v l) 0 0 ≢ b'0'
  unfolding numeral
  numeral-first zero v l small positive =
      let one : v < 1 = simp unary_clauses at small in absurd (positive (omega arith))
  numeral-first (suc k) v l small positive =
      let more : (v == 0) ≡ false = eq_false (v == 0) (λ e. positive (==→eq v 0 e)) in
      rw more (elim (Bool-cases (v / base == 0)) [
        | inl last ↦
            let top : v / base ≡ 0 = ==→eq (v / base) 0 last in
            let sum : 0 * base + v % base ≡ v = rw top at (parts v).0 in
            let whole : v % base ≡ v = omega arith in
            rw (top, numeral-zero k base (digit_char (v % base) ∷ l), whole)
              (digit_char-zero v positive)
        | inr rest ↦
            numeral-first k (v / base) (digit_char (v % base) ∷ l) (less k v small)
              (λ e. ground arith)
      ])
    where
      digit_char-zero : (r : ℕ) → r ≢ 0 → digit_char r ≢ b'0'
      digit_char-zero r positive e = ground arith

  pub numeral-IsDigits :
      (k v : ℕ) → v < base ^ suc k → v ≢ 0 → IsDigits base (numeral (suc k) base v []) v
  unfolding value_of
  numeral-IsDigits k v small positive = record {
    value = value_of-numeral (suc k) v [] small;
    some_digit = numeral-nonempty k base v [] positive;
    no_zeros = λ e. absurd (numeral-first (suc k) v [] small positive e);
  }

ten_parts : (v : ℕ) → (v / 10 * 10 + v % 10 ≡ v) × (v % 10 < 10)
ten_parts v = (omega arith, omega arith)

sixteen_parts : (v : ℕ) → (v / 16 * 16 + v % 16 ≡ v) × (v % 16 < 16)
sixteen_parts v = (omega arith, omega arith)

-- The digits of a number of 32 bits.
abbrev pub digits : ℕ → ℕ → List ℕ
digits base v = if v == 0 then b'0' ∷ [] else numeral 32 base v []

IsDigits-zero : (base : ℕ) → 0 < base → IsDigits base (b'0' ∷ []) 0
unfolding value_of lower_value
IsDigits-zero base some_base = record {
  value = ground arith;
  some_digit = omega arith;
  no_zeros = λ e. refl;
}

pub digits_ten : (v : ℕ) → v < 2 ^ 32 → IsDigits 10 (digits 10 v) v
digits_ten v small = elim (Bool-cases (v == 0)) [
  | inl null ↦
      rw null
        (subst (IsDigits 10 (b'0' ∷ [])) (sym (==→eq v 0 null)) (IsDigits-zero 10 (omega arith)))
  | inr more ↦
      rw more (
        numeral-IsDigits 10 (omega arith) ten_parts ten_power 31 v (omega arith)
          (λ e. ground arith))
]

pub digits_sixteen : (v : ℕ) → v < 2 ^ 32 → IsDigits 16 (digits 16 v) v
digits_sixteen v small = elim (Bool-cases (v == 0)) [
  | inl null ↦
      rw null
        (subst (IsDigits 16 (b'0' ∷ [])) (sym (==→eq v 0 null)) (IsDigits-zero 16 (omega arith)))
  | inr more ↦ rw more (
      numeral-IsDigits 16 (omega arith) sixteen_parts sixteen_power 31 v (omega arith)
        (λ e. ground arith))
]
