-- ===== src/Bits.antt =====
-- The bit tests, `|=` and `&= ~` of a byte: the bitmaps of kernel/minixfs.c and the masks of kernel/pic.c.
use waltex.Base.{
  ltb, ◌==◌, if◌then◌else◌, ==→eq, Bool-cases, ℕ, zero, suc, ◌+◌, ◌-◌, ◌*◌, ◌^◌, ◌<◌, bit_and,
  bit_or, ◌≡◌, refl, ◌≢◌, ◌⊎◌, inl, inr, Bool, true, false, not, ◌&&◌, arith,
}

-- `(byte & (1u << k)) == 0`
abbrev pub is_clear : ℕ → ℕ → Bool
is_clear byte k = bit_and byte (2 ^ k) == 0

-- `byte |= (uint8_t)(1u << k)` and `byte &= (uint8_t)~(1u << k)`
abbrev pub set_bit : ℕ → ℕ → ℕ
set_bit byte k = bit_or byte (2 ^ k)

abbrev pub clear_bit : ℕ → ℕ → ℕ
clear_bit byte k = bit_and byte (255 - 2 ^ k)

-- Facts about a byte and two places of bits in it, by trying all of them.
unfoldable pub all_below : ℕ → (ℕ → Bool) → Bool
all_below zero p = true
all_below (suc n) p = let rest = all_below n p in p n && rest

pub all_below-lt : (n : ℕ) (p : ℕ → Bool) (x : ℕ) → all_below n p ≡ true → x < n → p x ≡ true
unfolding all_below
all_below-lt zero p x h lt = absurd (omega arith)
all_below-lt (suc n) p x h lt = ground (arith, all_below-lt n p x)

abbrev same_bool : Bool → Bool → Bool
same_bool true b = b
same_bool false b = not b

same_bool-eq : (a b : Bool) → same_bool a b ≡ true → a ≡ b
same_bool-eq true true h = refl
same_bool-eq true false h = absurd (ground arith)
same_bool-eq false true h = absurd (ground arith)
same_bool-eq false false h = refl

-- What a change of a byte does to its bits: bit `k` becomes `free`, the others stay.
abbrev pub Changes : (ℕ → ℕ → ℕ) → Bool → Type 0
Changes change free =
    (x k j : ℕ)
    → k < 8
    → j < 8
    → x < 256
    → (change x k < 256)
      × (((k ≡ j) × (is_clear (change x k) j ≡ free))
          ⊎ ((k ≢ j) × (is_clear (change x k) j ≡ is_clear x j)))

abbrev changes : (ℕ → ℕ → ℕ) → Bool → ℕ → ℕ → ℕ → Bool
changes change free k j x =
    let y : ℕ = change x k in
    ltb y 256
    && (if k == j then same_bool (is_clear y j) free else same_bool (is_clear y j) (is_clear x j))

abbrev tried : (ℕ → ℕ → ℕ) → Bool → Bool
tried change free =
    all_below 8 (λ k. all_below 8 (λ j. all_below 256 (λ x. changes change free k j x)))

tried-Changes : (change : ℕ → ℕ → ℕ) (free : Bool) → tried change free ≡ true → Changes change free
tried-Changes change free table x k j hk hj hx =
    let one =
      all_below-lt 256 (λ x. changes change free k j x) x
        (all_below-lt 8 (λ j. all_below 256 (λ x. changes change free k j x)) j
          (all_below-lt 8 (λ k. all_below 8 (λ j. all_below 256 (λ x. changes change free k j x))) k
            table hk)
          hj)
        hx in
    (
      ground (arith, one),
      elim (Bool-cases (k == j)) [
        | inl same ↦ inl (==→eq k j same, same_bool-eq _ _ (ground (arith, one)))
        | inr differ ↦ inr (λ e. ground arith, same_bool-eq _ _ (ground (arith, one)))
      ],
    )

pub set_bit-Changes : Changes set_bit false
unfolding all_below
set_bit-Changes = tried-Changes set_bit false refl

pub clear_bit-Changes : Changes clear_bit true
unfolding all_below
clear_bit-Changes = tried-Changes clear_bit true refl

-- Two halves of a byte, one in each place.
pub bit_or-nibbles : (h l : ℕ) → h < 16 → l < 16 → bit_or (h * 16) l ≡ h * 16 + l
unfolding all_below
bit_or-nibbles h l hh hl = ==→eq (bit_or (h * 16) l) (h * 16 + l) (
    all_below-lt 16 (λ l. bit_or (h * 16) l == h * 16 + l) l
      (all_below-lt 16 (λ h. all_below 16 (λ l. bit_or (h * 16) l == h * 16 + l)) h refl hh) hl)
