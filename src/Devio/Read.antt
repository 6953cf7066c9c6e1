-- ===== src/Devio/Read.antt =====
-- blk_read of kernel/devio.c against the bytes of the disk one after another.
use waltex.Base.{
  ltb, leb, if◌then◌else◌, Bool-cases, Option-cases, length, get_or, take, drop, tabulate,
  length-tabulate, tabulate-append, take-drop-tabulate, ℕ, zero, suc, ◌+◌, ◌/◌, ◌%◌, ◌≤◌, ◌<◌, ◌≡◌,
  refl, ◌⊎◌, inl, inr, true, Option, none, some, List, [], arith,
}
use waltex.Blockdev.{sector_size, BlockDev}
use waltex.Devio.{blk_read_loop, chunk_at, blk_read, read_from, bytes_or_minus_one, clamp}

abbrev pub bytes_of : Option (List ℕ) → List ℕ
bytes_of none = []
bytes_of (some bytes) = bytes

module _ {D : Type 0} (op : D → ℕ → ℕ → Option (List ℕ)) (d : D) where
  -- The bytes of one sector; a sector that cannot be read has none.
  abbrev pub sector : ℕ → List ℕ
  sector lba = bytes_of (op d lba 1)

  -- Byte `i` of the disk.
  abbrev pub disk_byte : ℕ → ℕ
  disk_byte i = get_or (sector (i / sector_size)) (i % sector_size) 0

  -- A sector that is read is whole.
  abbrev pub ReadsWhole : Type 0
  ReadsWhole = (lba : ℕ) (bytes : List ℕ) → op d lba 1 ≡ some bytes → length bytes ≡ sector_size

  -- What a read of at most `n` bytes at `off` gives: the bytes of the disk, all of them or those in
  -- front of a sector that cannot be read, and -1 only where not even one byte comes.
  abbrev pub ReadAt : ℕ → ℕ → Option (List ℕ) → Type 0
  ReadAt off n none = (0 < n) × (op d (off / sector_size) 1 ≡ none)
  ReadAt off n (some bytes) =
      (length bytes ≤ n)
      × ((bytes ≡ tabulate disk_byte off (length bytes))
          × ((length bytes ≡ n)
              ⊎ ((0 < length bytes) × (op d ((off + length bytes) / sector_size) 1 ≡ none))))

  chunk-tabulate :
      (off fatti n : ℕ) (bounce : List ℕ)
      → ReadsWhole
      → fatti < n
      → op d ((off + fatti) / sector_size) 1 ≡ some bounce
      → take (chunk_at off fatti n) (drop ((off + fatti) % sector_size) bounce)
        ≡ tabulate disk_byte (off + fatti) (chunk_at off fatti n)
  chunk-tabulate off fatti n bounce whole more got =
      let size = whole ((off + fatti) / sector_size) bounce got in
      take-drop-tabulate bounce ((off + fatti) % sector_size) (chunk_at off fatti n) (off + fatti)
        disk_byte (ground (arith, size))
        (λ j lt.
          let lba : (off + fatti + j) / sector_size ≡ (off + fatti) / sector_size = ground arith in
          let place : (off + fatti + j) % sector_size ≡ (off + fatti) % sector_size + j =
            ground arith in
          rw (lba, place, got) refl)

  finished-ReadAt :
      (off n fatti : ℕ) → fatti ≡ n → ReadAt off n (some (tabulate disk_byte off fatti))
  finished-ReadAt off n fatti all =
      rw (length-tabulate disk_byte off fatti) (omega arith, (refl, inl all))

  stopped-ReadAt :
      (off n fatti : ℕ)
      → fatti < n
      → op d ((off + fatti) / sector_size) 1 ≡ none
      → ReadAt off n (bytes_or_minus_one fatti (tabulate disk_byte off fatti))
  stopped-ReadAt off n zero more gone =
      let start : off + 0 ≡ off = omega arith in (omega arith, rw (← start) gone)
  stopped-ReadAt off n (suc fatti) more gone =
      let some_bytes : ltb 0 (suc fatti) ≡ true = ground arith in
      rw (some_bytes, length-tabulate disk_byte off (suc fatti))
        (omega arith, (refl, inr (omega arith, gone)))

  blk_read_loop-ReadAt :
      (k off n fatti : ℕ)
      → ReadsWhole
      → fatti ≤ n
      → n ≤ fatti + k
      → ReadAt off n (blk_read_loop op d off n k fatti (tabulate disk_byte off fatti))
  unfolding blk_read_loop
  blk_read_loop-ReadAt zero off n fatti whole le enough = finished-ReadAt off n fatti (omega arith)
  blk_read_loop-ReadAt (suc k) off n fatti whole le enough = elim (Bool-cases (ltb fatti n)) [
    | inr all ↦ rw all (finished-ReadAt off n fatti (ground arith))
    | inl more ↦ elim (Option-cases (op d ((off + fatti) / sector_size) 1)) [
      | inl gone ↦ rw (more, gone) (stopped-ReadAt off n fatti (ground arith) gone)
      | inr (bounce, got) ↦
          rw
            (
              more,
              got,
              chunk-tabulate off fatti n bounce whole (ground arith) got,
              ← tabulate-append disk_byte off fatti (chunk_at off fatti n),
            )
            (blk_read_loop-ReadAt k off n (fatti + chunk_at off fatti n) whole (ground arith)
              (ground arith))
    ]
  ]

-- blk_read on a disk of `size` bytes that can be read, by whole sectors, gives the bytes of the disk from
-- `off` on: at most the `n` that are asked for and those up to the end, and fewer only in front of
-- a sector that cannot be read; it answers -1 only where the first sector cannot be read.
pub blk_read-ReadAt :
    {D : Type 0} (b : BlockDev D) (op : D → ℕ → ℕ → Option (List ℕ)) (d : D) (size off n : ℕ)
    → b.read ≡ some op
    → ReadsWhole op d
    → ReadAt op d off
        (if leb size off then 0 else clamp size off n)
        (blk_read (some b) d size off n)
unfolding blk_read read_from tabulate
blk_read-ReadAt b op d size off n can whole = elim (Bool-cases (leb size off)) [
  | inl end ↦ rw (can, end) (omega arith, (refl, inl refl))
  | inr inside ↦
      rw (can, inside)
        (blk_read_loop-ReadAt op d (clamp size off n) off (clamp size off n) 0 whole (omega arith)
          (omega arith))
]
