-- ===== src/Devio.antt =====
-- kernel/devio.c: devices as files. The view by bytes of a disk, and the wrappers of the registry.
pub mod Entry
pub mod Registered
pub mod Read
pub mod Patch
pub mod Sector
pub mod Write
pub mod Wrote
pub mod Roundtrip
pub mod Ram
mod Examples
use waltex.Base.{
  ltb, leb, ◌==◌, if◌then◌else◌, take, drop, ℕ, zero, suc, ◌+◌, ◌-◌, ◌/◌, ◌%◌, true, false, Option,
  none, some, List, [], ◌++◌,
}
use waltex.Blockdev.{BlockDev, sector_size}
use waltex.CString.{memcpy}

-- `chunk`: what is left of the sector at `off + fatti`, or of the request.
abbrev pub chunk_at : ℕ → ℕ → ℕ → ℕ
chunk_at off fatti n =
    let chunk = sector_size - (off + fatti) % sector_size in
    if ltb (n - fatti) chunk then n - fatti else chunk

-- `(fatti > 0) ? (int)fatti : -1`, for the bytes so far
abbrev pub bytes_or_minus_one : ℕ → List ℕ → Option (List ℕ)
bytes_or_minus_one fatti dst = if ltb 0 fatti then some dst else none

abbrev pub count_or_minus_one : ℕ → Option ℕ
count_or_minus_one fatti = if ltb 0 fatti then some fatti else none

-- The clamp of blk_read and blk_write: `n` up to the end of the device.
abbrev pub clamp : ℕ → ℕ → ℕ → ℕ
clamp size off n = if ltb (size - off) n then size - off else n

-- `memcpy(bounce + skip, src + fatti, chunk)`
unfoldable pub patch_sector : List ℕ → ℕ → List ℕ → ℕ → List ℕ
unfolding memcpy
patch_sector bounce skip src chunk = take skip bounce ++ memcpy (drop skip bounce) src chunk

module _ {D : Type 0} where
  -- The loop of blk_read. `dst` is what the buffer has so far.
  unfoldable pub blk_read_loop :
      (D → ℕ → ℕ → Option (List ℕ)) → D → ℕ → ℕ → ℕ → ℕ → List ℕ → Option (List ℕ)
  blk_read_loop op d off n zero fatti dst = some dst
  blk_read_loop op d off n (suc k) fatti dst =
      let lba = (off + fatti) / sector_size in
      let skip = (off + fatti) % sector_size in
      let chunk = chunk_at off fatti n in
      let body : Option (List ℕ) = elim (op d lba 1) [
        | none ↦ bytes_or_minus_one fatti dst
        | some bounce ↦
            blk_read_loop op d off n k (fatti + chunk) (dst ++ take chunk (drop skip bounce))
      ] in
      if ltb fatti n then body else some dst

  unfoldable pub read_from : (D → ℕ → ℕ → Option (List ℕ)) → D → ℕ → ℕ → ℕ → Option (List ℕ)
  unfolding blk_read_loop
  read_from op d size off n =
      if leb size off
      then some []
      else blk_read_loop op d off (clamp size off n) (clamp size off n) 0 []

  -- blk_read on an inode of `size` bytes; `none` for a null `priv`. The bytes that it stores, or -1.
  unfoldable pub blk_read : Option (BlockDev D) → D → ℕ → ℕ → ℕ → Option (List ℕ)
  unfolding read_from
  blk_read none d size off n = none
  blk_read (some b) d size off n = elim b.read [ none ↦ none | some op ↦ read_from op d size off n ]

  -- `if (chunk != SECTOR_SIZE)` of blk_write: the bounce buffer afterwards, `none` for the return.
  unfoldable pub fetch : BlockDev D → D → ℕ → ℕ → List ℕ → Option (List ℕ)
  fetch b d lba chunk bounce =
      if chunk == sector_size
      then some bounce
      else elim b.read [ none ↦ none | some op ↦ op d lba 1 ]

  -- The loop of blk_write.
  unfoldable pub blk_write_loop :
      BlockDev D → (D → ℕ → ℕ → List ℕ → ℕ × D) → D → ℕ → List ℕ → ℕ → ℕ → ℕ → List ℕ → Option ℕ × D
  blk_write_loop b op d off src n zero fatti bounce = (some fatti, d)
  blk_write_loop b op d off src n (suc k) fatti bounce =
      let lba = (off + fatti) / sector_size in
      let skip = (off + fatti) % sector_size in
      let chunk = chunk_at off fatti n in
      let body : Option ℕ × D = elim (fetch b d lba chunk bounce) [
        | none ↦ (count_or_minus_one fatti, d)
        | some before ↦
            let bounce' = patch_sector before skip (drop fatti src) chunk in
            let (count, d') = op d lba 1 bounce' in
            elim (count == 1) [
              | false ↦ (count_or_minus_one fatti, d')
              | true ↦ blk_write_loop b op d' off src n k (fatti + chunk) bounce'
            ]
      ] in
      if ltb fatti n then body else (some fatti, d)

  unfoldable pub write_from :
      BlockDev D → (D → ℕ → ℕ → List ℕ → ℕ × D) → D → ℕ → ℕ → List ℕ → ℕ → List ℕ → Option ℕ × D
  unfolding blk_write_loop
  write_from b op d size off src n bounce =
      if leb size off
      then (some 0, d)
      else blk_write_loop b op d off src (clamp size off n) (clamp size off n) 0 bounce

  -- blk_write. `bounce` is what the stack holds where the buffer lies.
  unfoldable pub blk_write : Option (BlockDev D) → D → ℕ → ℕ → List ℕ → ℕ → List ℕ → Option ℕ × D
  unfolding write_from
  blk_write none d size off src n bounce = (none, d)
  blk_write (some b) d size off src n bounce = elim b.write [
    | none ↦ (none, d)
    | some op ↦ write_from b op d size off src n bounce
  ]
