-- ===== src/Ata/Registers.antt =====
-- The registers that kernel/ata.c writes, and its check of the range.
use waltex.Base.{
  ◌==◌, ==→eq, ℕ, ◌+◌, ◌*◌, ◌/◌, ◌%◌, ◌^◌, ◌≤◌, ◌<◌, bit_or, ◌≡◌, refl, ◌↔◌, true, arith,
}
use waltex.Ata.{range_ok, drive_register, lba_lo, lba_mid, lba_hi}
use waltex.Bits.{all_below, all_below-lt}

-- ata_range_ok admits exactly the transfers of at most 256 sectors that begin on the disk and end on
-- it; the sum is the true one, which may need more than 32 bits.
pub range_ok_iff :
    (nsectors lba count : ℕ)
    → (range_ok nsectors lba count ≡ true)
      ↔ ((count ≤ 256) × (lba < nsectors) × (lba + count ≤ nsectors))
unfolding range_ok
range_ok_iff nsectors lba count =
    (λ e. (ground arith, ground arith, ground arith), λ p. ground (arith, p.0, p.1))

drive_bits : (d n : ℕ) → d < 2 → n < 16 → bit_or (bit_or 0xe0 (d * 2 ^ 4)) n ≡ 0xe0 + d * 16 + n
unfolding all_below
drive_bits d n hd hn = ==→eq (bit_or (bit_or 0xe0 (d * 2 ^ 4)) n) (0xe0 + d * 16 + n) (
    all_below-lt 16 (λ n. bit_or (bit_or 0xe0 (d * 2 ^ 4)) n == 0xe0 + d * 16 + n) n
      (all_below-lt 2
        (λ d. all_below 16 (λ n. bit_or (bit_or 0xe0 (d * 2 ^ 4)) n == 0xe0 + d * 16 + n)) d refl
        hd)
      hn)

-- The address and the drive that a disk reads from the four registers.
abbrev pub address_of : ℕ → ℕ → ℕ → ℕ → ℕ
address_of drive_reg lo mid hi = lo + 2 ^ 8 * mid + 2 ^ 16 * hi + 2 ^ 24 * (drive_reg % 2 ^ 4)

-- For an address of 28 bits and one of the two drives, the disk reads from the registers that
-- ata_prepare writes the address and the drive that it was given, in the mode for linear addresses,
-- and each value is a byte.
pub drive_register-address :
    (drive lba : ℕ)
    → drive < 2
    → lba < 2 ^ 28
    → let reg = drive_register drive lba in
      (address_of reg (lba_lo lba) (lba_mid lba) (lba_hi lba) ≡ lba)
      × (reg / 2 ^ 4 % 2 ≡ drive)
      × (reg / 2 ^ 5 ≡ 7)
      × (reg < 2 ^ 8)
drive_register-address drive lba hd hl =
    let bits = drive_bits drive (lba / 2 ^ 24 % 2 ^ 4) hd (omega arith) in
    rw bits (omega arith, omega arith, omega arith, omega arith)
