-- ===== src/Gdt.antt =====
-- kernel/gdt.c, include/gdt.h: the table of segments. A mask with 2^k - 1 is a remainder, and a shift
-- to the right a quotient.
pub mod Fields
mod Examples
use waltex.Base.{set, ℕ, ◌-◌, ◌*◌, ◌/◌, ◌%◌, ◌^◌, bit_or, List}

-- struct gdt_entry
pub record GdtEntry : Type 0 where
  pub limit_low : ℕ
  pub base_low : ℕ
  pub base_mid : ℕ
  pub access : ℕ
  pub limit_high_flags : ℕ
  pub base_high : ℕ

-- What gdt_set stores in an entry.
unfoldable pub gdt_entry : ℕ → ℕ → ℕ → ℕ → GdtEntry
gdt_entry base limit access flags = record {
  limit_low = limit % 2 ^ 16;
  base_low = base % 2 ^ 16;
  base_mid = base / 2 ^ 16 % 2 ^ 8;
  base_high = base / 2 ^ 24 % 2 ^ 8;
  access = access;
  limit_high_flags = bit_or (flags % 2 ^ 4 * 2 ^ 4) (limit / 2 ^ 16 % 2 ^ 4);
}

-- gdt_set, on a table of three entries
unfoldable pub gdt_set : List GdtEntry → ℕ → ℕ → ℕ → ℕ → ℕ → List GdtEntry
gdt_set gdt index base limit access flags = set gdt index (gdt_entry base limit access flags)

-- struct gdt_ptr
pub record GdtPtr : Type 0 where
  pub limit : ℕ
  pub base : ℕ

-- gdt_init before it loads the table, which stands at the address `at`. An entry has 8 bytes.
unfoldable pub init : ℕ → List GdtEntry → List GdtEntry × GdtPtr
unfolding gdt_set
init at gdt = (
  gdt_set (gdt_set (gdt_set gdt 0 0 0x00000 0x00 0x0) 1 0 0xfffff 0x9a 0xc) 2 0 0xfffff 0x92 0xc,
  record { limit = 3 * 8 - 1; base = at },
)
