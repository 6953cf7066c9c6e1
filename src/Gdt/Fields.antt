-- ===== src/Gdt/Fields.antt =====
-- The fields of a segment that kernel/gdt.c makes, as the processor reads them.
use waltex.Base.{ℕ, ◌+◌, ◌*◌, ◌/◌, ◌%◌, ◌^◌, ◌<◌, ◌≡◌, refl, arith}
use waltex.Bits.{bit_or-nibbles}
use waltex.Gdt.{GdtEntry, gdt_entry}

-- How the processor puts the base, the limit and the flags together.
abbrev pub base_of : GdtEntry → ℕ
base_of e = e.base_low + 2 ^ 16 * e.base_mid + 2 ^ 24 * e.base_high

abbrev pub limit_of : GdtEntry → ℕ
limit_of e = e.limit_low + 2 ^ 16 * (e.limit_high_flags % 2 ^ 4)

abbrev pub flags_of : GdtEntry → ℕ
flags_of e = e.limit_high_flags / 2 ^ 4

-- The processor reads from the entry that gdt_set stores the base of 32 bits, the limit of 20 bits
-- and the 4 flags that it was given, and each field fits in its place.
pub gdt_entry-fields :
    (base limit access flags : ℕ)
    → base < 2 ^ 32
    → limit < 2 ^ 20
    → flags < 2 ^ 4
    → let e = gdt_entry base limit access flags in
      (base_of e ≡ base)
      × (limit_of e ≡ limit)
      × (flags_of e ≡ flags)
      × (e.access ≡ access)
      × (e.limit_high_flags < 2 ^ 8)
unfolding gdt_entry
gdt_entry-fields base limit access flags hb hl hf =
    let packed =
      bit_or-nibbles (flags % 2 ^ 4) (limit / 2 ^ 16 % 2 ^ 4) (omega arith) (omega arith) in
    rw packed (omega arith, omega arith, omega arith, refl, omega arith)
