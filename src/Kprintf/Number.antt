-- ===== src/Kprintf/Number.antt =====
-- put_uint of kernel/kprintf.c and the value of what it prints.
use native.Mathlib.Numerals.{unary_clauses}
use waltex.Base.{
  leb, ◌==◌, if◌then◌else◌, lt→ltb, ==→eq, eq→==, Bool-cases, eq_false, length, replicate, ℕ, zero,
  suc, ◌+◌, ◌-◌, ◌*◌, ◌/◌, ◌%◌, ◌^◌, ◌≤◌, ◌<◌, ◌≡◌, refl, sym, ap, ◌∙◌, subst, ◌≢◌, inl, inr, Bool,
  true, false, some, List, [], ◌∷◌, ◌++◌, append_assoc, append-nil, arith,
}
use waltex.CString.{IsText}
use waltex.Kprintf.{digit_char, put_uint, put_digits, digit_loop}
use waltex.Kprintf.Digits.{numeral, digit_loop-numeral, Backwards-nil}
use waltex.Kprintf.Print.{feed, signed, put_digits-feed}
use waltex.Shell.{parse_dec}
use waltex.Shell.Decimal.{decimal, is_decimal, is_digit, parse_dec-decimal}

digit_char-positive : (r : ℕ) → digit_char r ≢ 0
digit_char-positive r e = ground arith

pub numeral-IsText : (k base v : ℕ) (l : List ℕ) → IsText l → IsText (numeral k base v l)
unfolding numeral
numeral-IsText zero base v l t = t
numeral-IsText (suc k) base v l t = elim (Bool-cases (v == 0)) [
  | inl done ↦ rw done t
  | inr more ↦ rw more (
      numeral-IsText k base (v / base) (digit_char (v % base) ∷ l)
        (digit_char-positive (v % base), t))
]

numeral-ge : (k base v : ℕ) (l : List ℕ) → length l ≤ length (numeral k base v l)
unfolding numeral
numeral-ge zero base v l = omega arith
numeral-ge (suc k) base v l = elim (Bool-cases (v == 0)) [
  | inl done ↦ rw done (omega arith)
  | inr more ↦
      let rest = numeral-ge k base (v / base) (digit_char (v % base) ∷ l) in
      rw more (omega (arith, rest))
]

pub numeral-nonempty : (k base v : ℕ) (l : List ℕ) → v ≢ 0 → 0 < length (numeral (suc k) base v l)
unfolding numeral
numeral-nonempty k base v l positive =
    let rest = numeral-ge k base (v / base) (digit_char (v % base) ∷ l) in
    rw (eq_false (v == 0) (λ e. positive (==→eq v 0 e))) (omega (arith, rest))

pub ten_power : (k v : ℕ) → v < 10 ^ suc k → v / 10 < 10 ^ k
ten_power k v small = let h : v < 10 ^ k * 10 = simp unary_clauses at small in omega arith

-- How many digits a number has, in a base where one digit less is one power less.
pub length-numeral :
    (base : ℕ)
    → ((k v : ℕ) → v < base ^ suc k → v / base < base ^ k)
    → (k m v : ℕ) (l : List ℕ) → v < base ^ m
    → length (numeral k base v l) ≤ m + length l
unfolding numeral
length-numeral base less zero m v l small = omega arith
length-numeral base less (suc k) zero v l small =
    let one : v < 1 = simp unary_clauses at small in
    let zero_left : v ≡ 0 = omega arith in rw (eq→== v 0 zero_left) (omega arith)
length-numeral base less (suc k) (suc m) v l small = elim (Bool-cases (v == 0)) [
  | inl done ↦ rw done (omega arith)
  | inr more ↦
      let rest =
        length-numeral base less k m (v / base) (digit_char (v % base) ∷ l) (less m v small) in
      rw more (omega (arith, rest))
]

digit-decimal : (v : ℕ) → v / 10 * 10 + (digit_char (v % 10) - b'0') ≡ v
digit-decimal v = ground arith

decimal-numeral : (k v : ℕ) (l : List ℕ) → v < 10 ^ k → decimal 0 (numeral k 10 v l) ≡ decimal v l
unfolding numeral decimal
decimal-numeral zero v l small = ap (λ n. decimal n l) (omega arith)
decimal-numeral (suc k) v l small = elim (Bool-cases (v == 0)) [
  | inl done ↦ rw done (ap (λ n. decimal n l) (ground arith))
  | inr more ↦
      let fits : v / 10 < 10 ^ k = ten_power k v small in
      rw more (
        decimal-numeral k (v / 10) (digit_char (v % 10) ∷ l) fits
        ∙ ap (λ n. decimal n l) (digit-decimal v))
]

numeral-is_decimal :
    (k v : ℕ) (l : List ℕ) → is_decimal l ≡ true → is_decimal (numeral k 10 v l) ≡ true
unfolding numeral is_decimal
numeral-is_decimal zero v l all = all
numeral-is_decimal (suc k) v l all = elim (Bool-cases (v == 0)) [
  | inl done ↦ rw done all
  | inr more ↦
      let digit : is_digit (digit_char (v % 10)) ≡ true = ground arith in
      rw more (numeral-is_decimal k (v / 10) (digit_char (v % 10) ∷ l) (rw (digit, all) refl))
]

feed-append : (l s : List ℕ) → feed (λ t c. t ++ (c ∷ [])) l s ≡ s ++ l
unfolding feed
feed-append [] s = sym (append-nil s)
feed-append (c ∷ l) s = feed-append l (s ++ (c ∷ [])) ∙ append_assoc s (c ∷ []) l

-- A decimal numeral of a number.
abbrev pub IsNumeral : List ℕ → ℕ → Type 0
IsNumeral l v = IsText l × ((0 < length l) × ((is_decimal l ≡ true) × (decimal 0 l ≡ v)))

numeral-IsNumeral : (v : ℕ) → v ≢ 0 → v < 2 ^ 32 → IsNumeral (numeral 32 10 v []) v
unfolding is_decimal decimal
numeral-IsNumeral v positive small = (
  numeral-IsText 32 10 v [] tt,
  (
    numeral-nonempty 31 10 v [] positive,
    (numeral-is_decimal 32 v [] refl, decimal-numeral 32 v [] (omega arith)),
  ),
)

-- The number that the 32 bits of an int stand for, without its sign.
abbrev pub magnitude : ℕ → ℕ
magnitude v = if leb (2 ^ 31) v then 2 ^ 32 - v else v

digits-feed :
    {S : Type 0} (put : S → ℕ → S) (negative : Bool) (v : ℕ) (s : S)
    → v ≢ 0
    → v < 2 ^ 32
    → put_digits put negative
        (digit_loop 32 (replicate 34 0) 0 v 10).0
        (digit_loop 32 (replicate 34 0) 0 v 10).1
        s
      ≡ feed put (signed negative (numeral 32 10 v [])) s
digits-feed put negative v s positive small =
    let written = digit_loop-numeral 32 (replicate 34 0) [] v 10 Backwards-nil (omega arith) in
    let short = length-numeral 10 ten_power 32 10 v [] (omega arith) in
    rw written.0 (
      put_digits-feed put negative (digit_loop 32 (replicate 34 0) 0 v 10).0 (numeral 32 10 v []) s
        written.1 (numeral-IsText 32 10 v [] tt) (numeral-nonempty 31 10 v [] positive)
        (ground (arith, short)))

pub put_uint-digits :
    {S : Type 0} (put : S → ℕ → S) (v : ℕ) (s : S)
    → v ≢ 0
    → v < 2 ^ 32
    → put_uint put v 10 s ≡ feed put (signed (leb (2 ^ 31) v) (numeral 32 10 (magnitude v) [])) s
unfolding put_uint
put_uint-digits put v s positive small =
    rw (eq_false (v == 0) (λ e. positive (==→eq v 0 e))) (elim (Bool-cases (leb (2 ^ 31) v)) [
      | inl negative ↦
          rw negative (digits-feed put true (2 ^ 32 - v) s (λ e. ground arith) (ground arith))
      | inr positive_int ↦ rw positive_int (digits-feed put false v s positive small)
    ])

zero-signed :
    {S : Type 0} (put : S → ℕ → S) (s : S)
    → (l : List ℕ) × (IsNumeral l 0 × (put_uint put 0 10 s ≡ feed put l s))
unfolding put_uint feed is_decimal decimal
zero-signed put s =
    (b'0' ∷ [], ((((λ e. absurd (omega arith)), tt), (omega arith, (refl, refl))), refl))

-- put_uint in base 10 gives any sink, character by character, the int that the 32 bits stand for:
-- a minus sign exactly where bit 31 is set, and then a decimal numeral of its magnitude.
pub put_uint-signed :
    {S : Type 0} (put : S → ℕ → S) (v : ℕ) (s : S)
    → v < 2 ^ 32
    → (l : List ℕ) × (IsNumeral l (magnitude v)
        × (put_uint put v 10 s ≡ feed put (signed (leb (2 ^ 31) v) l) s))
put_uint-signed put v s small = elim (Bool-cases (v == 0)) [
  | inl zero_value ↦ rw (==→eq v 0 zero_value) (zero-signed put s)
  | inr positive ↦
      let nonzero : v ≢ 0 = λ e. ground arith in
      (
        numeral 32 10 (magnitude v) [],
        (
          numeral-IsNumeral (magnitude v) (λ e. ground arith) (ground arith),
          put_uint-digits put v s nonzero small,
        ),
      )
]

parse_dec-numeral : (l : List ℕ) (v : ℕ) → IsNumeral l v → v < 2 ^ 32 → parse_dec l ≡ some v
parse_dec-numeral l v n small =
    rw
      (
        parse_dec-decimal l n.0,
        n.1.1.0,
        n.1.1.1,
        lt→ltb v (2 ^ 32) small,
        eq_false (length l == 0) (λ e. ground (arith, n.1.0)),
      )
      refl

-- What put_uint prints in base 10 for a number below 2^31, shell_parse_dec reads back.
pub parse_dec-put_uint :
    (v : ℕ) → v < 2 ^ 31 → parse_dec (put_uint (λ t c. t ++ (c ∷ [])) v 10 []) ≡ some v
parse_dec-put_uint v small =
    let text = put_uint-signed (λ t c. t ++ (c ∷ [])) v [] (omega arith) in
    let unsigned : leb (2 ^ 31) v ≡ false = ground arith in
    let value : magnitude v ≡ v = ground arith in
    rw text.1.1 (
      rw (unsigned, feed-append text.0 [])
        (parse_dec-numeral text.0 v (subst (IsNumeral text.0) value text.1.0) (omega arith)))
