-- ===== src/Shell/Decimal.antt =====
-- shell_parse_dec against the value of a decimal numeral.
use waltex.Base.{
  ltb, leb, ◌==◌, if◌then◌else◌, lt→ltb, ==→eq, Bool-cases, eq_false, length, ℕ, suc, ◌+◌, ◌-◌, ◌*◌,
  ◌%◌, ◌^◌, ◌≤◌, ◌<◌, ◌≡◌, refl, sym, ap, ◌∙◌, inl, inr, Bool, true, false, ◌&&◌, ◌||◌, none, List,
  [], ◌∷◌, arith,
}
use waltex.CString.{IsText}
use waltex.Shell.{dec_loop, is_too_big, parsed, parse_dec}

-- The value of the digits after a number, however big.
unfoldable pub decimal : ℕ → List ℕ → ℕ
decimal acc [] = acc
decimal acc (c ∷ s) = decimal (acc * 10 + (c - b'0')) s

abbrev pub is_digit : ℕ → Bool
is_digit c = leb b'0' c && leb c b'9'

unfoldable pub is_decimal : List ℕ → Bool
is_decimal [] = true
is_decimal (c ∷ s) = let rest = is_decimal s in is_digit c && rest

pub decimal-ge : (acc : ℕ) (s : List ℕ) → acc ≤ decimal acc s
unfolding decimal
decimal-ge acc [] = omega arith
decimal-ge acc (c ∷ s) = omega (arith, decimal-ge (acc * 10 + (c - b'0')) s)

dec_loop-eq :
    (val cifre : ℕ) (s : List ℕ)
    → IsText s
    → val < 2 ^ 32
    → dec_loop val cifre s ≡ (
        if is_decimal s && ltb (decimal val s) (2 ^ 32)
        then parsed (decimal val s) (cifre + length s)
        else none)
unfolding dec_loop decimal is_decimal
dec_loop-eq val cifre [] t small = rw (lt→ltb val (2 ^ 32) small) (ap (parsed val) (omega arith))
dec_loop-eq val cifre (c ∷ s) t small =
    rw (eq_false (c == 0) (λ e. t.0 (==→eq c 0 e))) (elim (Bool-cases (is_digit c)) [
      | inr other ↦
          let outside : (ltb c b'0' || ltb b'9' c) ≡ true = ground arith in rw (other, outside) refl
      | inl digit ↦
          let inside : (ltb c b'0' || ltb b'9' c) ≡ false = ground arith in
          elim (Bool-cases (is_too_big val c)) [
            | inl big ↦
                let over : ltb (decimal (val * 10 + (c - b'0')) s) (2 ^ 32) ≡ false =
                  eq_false _ (λ e. ground (arith, decimal-ge (val * 10 + (c - b'0')) s)) in
                elim (Bool-cases (is_decimal s)) [
                  | inl all ↦ rw (digit, inside, big, all, over) refl
                  | inr some_not ↦ rw (digit, inside, big, some_not) refl
                ]
            | inr fits ↦
                let exact : (val * 10 + (c - b'0')) % 2 ^ 32 ≡ val * 10 + (c - b'0') =
                  ground arith in
                let bound : val * 10 + (c - b'0') < 2 ^ 32 = ground arith in
                let digits : cifre + 1 + length s ≡ cifre + suc (length s) = omega arith in
                rw (digit, inside, fits, exact)
                  (dec_loop-eq (val * 10 + (c - b'0')) (cifre + 1) s t.1 bound
                    ∙ ap
                        (λ k.
                          if is_decimal s && ltb (decimal (val * 10 + (c - b'0')) s) (2 ^ 32)
                          then parsed (decimal (val * 10 + (c - b'0')) s) k
                          else none)
                        digits)
          ]
    ])

-- On a text, shell_parse_dec gives the number exactly when every byte is a digit and the value of
-- the numeral is below 2^32, and the value is that of the numeral; on the empty text it fails.
pub parse_dec-decimal :
    (s : List ℕ)
    → IsText s
    → parse_dec s ≡ (
        if is_decimal s && ltb (decimal 0 s) (2 ^ 32)
        then parsed (decimal 0 s) (length s)
        else none)
unfolding parse_dec
parse_dec-decimal s t =
    let digits : 0 + length s ≡ length s = omega arith in
    rw (sym digits) (dec_loop-eq 0 0 s t (omega arith))
