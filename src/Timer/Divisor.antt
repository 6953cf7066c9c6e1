-- ===== src/Timer/Divisor.antt =====
-- pit_divisor of kernel/timer.c.
use waltex.Base.{
  ltb, leb, Bool-cases, ℕ, zero, suc, ◌+◌, ◌*◌, ◌/◌, ◌%◌, ◌^◌, ◌≤◌, ◌<◌, ◌≡◌, refl, sym, ap, ◌⊎◌,
  inl, inr, true, false, arith,
}
use waltex.Timer.{pit_divisor, pit_base_freq, pit_hz_min, pit_divisor_max}
use native.Mathlib.Nat.{mul-div-le, lt-mul-div-succ, le-div_iff_mul-le, div-lt_iff_lt-mul}

pit_divisor-quotient :
    (hz : ℕ)
    → pit_hz_min ≤ hz
    → hz ≤ pit_base_freq
    → pit_base_freq / hz < 2 ^ 16
    → pit_divisor hz ≡ pit_base_freq / hz
unfolding pit_divisor
pit_divisor-quotient hz low high small =
    let fast : ltb hz pit_hz_min ≡ false = ground arith in
    let same : pit_base_freq / hz % 2 ^ 16 ≡ pit_base_freq / hz = omega arith in
    elim (Bool-cases (leb pit_base_freq hz)) [
      | inl top ↦
          let exact : hz ≡ pit_base_freq = ground arith in
          rw (fast, top) (ap (λ n. pit_base_freq / n) (sym exact))
      | inr inside ↦ rw (fast, inside) same
    ]

-- What a divisor is for a frequency: one of the chip's, from 1 to 65535, and the largest of these
-- whose frequency is not below the one that is asked, or 1 where there is none.
pub record Nearest (hz d : ℕ) : Type 0 where
  pub positive : 0 < d
  pub fits : d ≤ pit_divisor_max
  pub reaches : (d * hz ≤ pit_base_freq) ⊎ (d ≡ 1)
  pub largest : (e : ℕ) → 0 < e → e ≤ pit_divisor_max → e * hz ≤ pit_base_freq → e ≤ d

pit_divisor-slow : (hz : ℕ) → hz < pit_hz_min → Nearest hz (pit_divisor hz)
unfolding pit_divisor
pit_divisor-slow hz slow =
    let low : ltb hz pit_hz_min ≡ true = ground arith in
    rw low (record {
      positive = omega arith;
      fits = omega arith;
      reaches = inl (omega arith);
      largest = λ e some_e fits below. fits;
    })

pit_divisor-top : (hz : ℕ) → pit_base_freq ≤ hz → Nearest hz (pit_divisor hz)
unfolding pit_divisor
pit_divisor-top hz top =
    let fast : ltb hz pit_hz_min ≡ false = ground arith in
    let high : leb pit_base_freq hz ≡ true = ground arith in
    rw (fast, high)
      (record {
        positive = omega arith;
        fits = omega arith;
        reaches = inr refl;
        largest = λ e some_e fits below. at_most_one e hz top some_e below;
      })
  where
    at_most_one : (e hz : ℕ) → pit_base_freq ≤ hz → 0 < e → e * hz ≤ pit_base_freq → e ≤ 1
    at_most_one zero hz top some_e below = omega arith
    at_most_one (suc zero) hz top some_e below = omega arith
    at_most_one (suc (suc e)) hz top some_e below =
        let two : suc (suc e) * hz ≡ e * hz + (hz + hz) = grind arith in omega arith

pit_divisor-between : (hz : ℕ) → pit_hz_min ≤ hz → hz < pit_base_freq → Nearest hz (pit_divisor hz)
pit_divisor-between hz low high =
    let q = pit_base_freq / hz in
    let some_hz : 0 < hz = omega arith in
    let below : hz * q ≤ pit_base_freq = mul-div-le pit_base_freq hz in
    let above : pit_base_freq < hz * (q + 1) = lt-mul-div-succ pit_base_freq some_hz in
    let nonzero : 1 ≤ q = (le-div_iff_mul-le some_hz).1 (omega arith) in
    let small : q < 65536 = (div-lt_iff_lt-mul some_hz).1 (omega arith) in
    rw (pit_divisor-quotient hz low (omega arith) small) (record {
      positive = omega arith;
      fits = omega arith;
      reaches = inl (grind (arith, below));
      largest = λ e some_e fits reached. (le-div_iff_mul-le some_hz).1 reached;
    })

-- For every frequency pit_divisor gives the largest of the chip's divisors, 1 to 65535, whose
-- frequency is not below the one that is asked, and 1 where the chip cannot reach it.
pub pit_divisor-Nearest : (hz : ℕ) → Nearest hz (pit_divisor hz)
pit_divisor-Nearest hz = elim (Bool-cases (ltb hz pit_hz_min)) [
  | inl slow ↦ pit_divisor-slow hz (ground arith)
  | inr fast ↦ elim (Bool-cases (leb pit_base_freq hz)) [
    | inl top ↦ pit_divisor-top hz (ground arith)
    | inr inside ↦ pit_divisor-between hz (ground arith) (ground arith)
  ]
]
