-- ===== src/Kprintf/Hex.antt =====
-- put_uint of kernel/kprintf.c in base 16, as %x prints.
use native.Mathlib.Numerals.{unary_clauses}
use waltex.Base.{
  ◌==◌, if◌then◌else◌, Bool-cases, length, replicate, ℕ, suc, ◌*◌, ◌/◌, ◌^◌, ◌≤◌, ◌<◌, ◌≡◌, refl,
  inl, inr, false, List, [], ◌∷◌, arith,
}
use waltex.Kprintf.{put_uint, is_negative, digit_loop}
use waltex.Kprintf.Digits.{numeral, digit_loop-numeral, Backwards-nil}
use waltex.Kprintf.Number.{length-numeral, numeral-IsText, numeral-nonempty}
use waltex.Kprintf.Print.{feed, put_digits-feed}

pub sixteen_power : (k v : ℕ) → v < 16 ^ suc k → v / 16 < 16 ^ k
sixteen_power k v small = let h : v < 16 ^ k * 16 = simp unary_clauses at small in omega arith

-- The text of a number in base 16.
abbrev pub hex_text : ℕ → List ℕ
hex_text v = if v == 0 then b'0' ∷ [] else numeral 32 16 v []

pub put_uint-hex :
    {S : Type 0} (put : S → ℕ → S) (v : ℕ) (s : S)
    → v < 2 ^ 32
    → put_uint put v 16 s ≡ feed put (hex_text v) s
unfolding put_uint feed
put_uint-hex put v s small = elim (Bool-cases (v == 0)) [
  | inl null ↦ rw null refl
  | inr positive ↦
      let negative : is_negative v 16 ≡ false = ground arith in
      let written = digit_loop-numeral 32 (replicate 34 0) [] v 16 Backwards-nil (omega arith) in
      rw (positive, negative, written.0)
        (put_digits-feed put false (digit_loop 32 (replicate 34 0) 0 v 16).0 (numeral 32 16 v []) s
          written.1 (numeral-IsText 32 16 v [] tt) (numeral-nonempty 31 16 v [] (λ e. ground arith))
          (omega (arith, length-numeral 16 sixteen_power 32 8 v [] small)))
]

pub length-hex_text : (v : ℕ) → v < 2 ^ 32 → length (hex_text v) ≤ 8
length-hex_text v small = elim (Bool-cases (v == 0)) [
  | inl null ↦ rw null (omega arith)
  | inr positive ↦
      let short = length-numeral 16 sixteen_power 32 8 v [] small in
      rw positive (omega (arith, short))
]
