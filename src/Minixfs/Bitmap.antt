-- ===== src/Minixfs/Bitmap.antt =====
-- The bitmaps of kernel/minixfs.c: bitmap_trova_libero, bitmap_accendi, bitmap_spegni.
use waltex.Base.{
  ◌==◌, if◌then◌else◌, get_or, set, ℕ, zero, suc, ◌+◌, ◌*◌, ◌/◌, ◌%◌, Bool, false, Option, none,
  some, List, [],
}
use waltex.Bits.{set_bit, clear_bit, is_clear}
use waltex.Blockdev.{BlockDev}
use waltex.Minixfs.Disk.{blocco_scrivi, blocco_leggi, block_size}

-- BIT_PER_BLOCCO
abbrev pub bit_per_blocco : ℕ
bit_per_blocco = block_size * 8

-- The block and the byte in it that hold a bit.
abbrev pub block_of : ℕ → ℕ → ℕ
block_of primo bit = primo + bit / bit_per_blocco

abbrev pub byte_of : ℕ → ℕ
byte_of bit = bit % bit_per_blocco / 8

-- `(buf[byte] & (1u << (bit % 8))) == 0`
abbrev pub is_free : List ℕ → ℕ → Bool
is_free buf bit = is_clear (get_or buf (byte_of bit) 0) (bit % 8)

module _ {D : Type 0} (dev : BlockDev D) where
  -- `if (blocco != corrente)`: the buffer, read again only for another block. `none` for
  -- `corrente` is 0xFFFFFFFF, which no block has for a number.
  abbrev pub buffered : D → ℕ → Option ℕ → List ℕ → Option (List ℕ)
  buffered d blocco none buf = blocco_leggi dev d blocco
  buffered d blocco (some corrente) buf =
      if blocco == corrente then some buf else blocco_leggi dev d blocco

  -- One round of the loop, given the buffer; `go` is the rest of the loop.
  unfoldable pub try_bit : (List ℕ → Option ℕ) → ℕ → Option (List ℕ) → Option ℕ
  try_bit go bit none = none
  try_bit go bit (some buf) = let rest = go buf in if is_free buf bit then some bit else rest

  -- The loop of bitmap_trova_libero, with the rounds left.
  unfoldable pub trova_da : D → ℕ → ℕ → ℕ → Option ℕ → List ℕ → Option ℕ
  unfolding try_bit
  trova_da d primo zero bit corrente buf = none
  trova_da d primo (suc rounds) bit corrente buf =
      let blocco = block_of primo bit in
      try_bit (λ buf'. trova_da d primo rounds (bit + 1) (some blocco) buf') bit
        (buffered d blocco corrente buf)

  -- bitmap_trova_libero: `none` is 0.
  unfoldable pub trova_libero : D → ℕ → ℕ → Option ℕ
  unfolding trova_da
  trova_libero d primo max_bit = trova_da d primo max_bit 1 none []

  -- bitmap_accendi and bitmap_spegni: read the block, change one byte, write it back.
  unfoldable pub change_bit : (ℕ → ℕ → ℕ) → D → ℕ → ℕ → Option (List ℕ) → Bool × D
  change_bit change d blocco bit none = (false, d)
  change_bit change d blocco bit (some buf) =
      let byte = byte_of bit in
      blocco_scrivi dev d blocco (set buf byte (change (get_or buf byte 0) (bit % 8)))

  unfoldable pub accendi : D → ℕ → ℕ → Bool × D
  unfolding change_bit
  accendi d primo bit =
      let blocco = block_of primo bit in change_bit set_bit d blocco bit (blocco_leggi dev d blocco)

  unfoldable pub spegni : D → ℕ → ℕ → Bool × D
  unfolding change_bit
  spegni d primo bit =
      let blocco = block_of primo bit in
      change_bit clear_bit d blocco bit (blocco_leggi dev d blocco)
