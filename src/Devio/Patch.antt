-- ===== src/Devio/Patch.antt =====
-- One round of blk_write of kernel/devio.c: what becomes of the bytes of a sector.
use waltex.Base.{
  ltb, leb, if◌then◌else◌, Bool-cases, is_some, length, get_or, take, drop, length-append,
  length-take, length-drop, get_or-append_left, get_or-append_right, get_or-take, get_or-drop, ℕ,
  ◌+◌, ◌-◌, ◌/◌, ◌%◌, ◌≤◌, ◌<◌, ◌≡◌, ap, ◌∙◌, ◌≢◌, ◌⊎◌, inl, inr, true, false, ◌&&◌, Option, none,
  some, List, ◌++◌, arith,
}
use waltex.Blockdev.{sector_size}
use waltex.CString.{memcpy}
use waltex.CString.Fill.{length-memcpy, memcpy_lem}
use waltex.Devio.{patch_sector, chunk_at}
use waltex.Devio.Read.{ReadsWhole, disk_byte}

pub length-patch_sector :
    (before : List ℕ) (skip : ℕ) (src : List ℕ) (n : ℕ)
    → skip ≤ length before
    → length (patch_sector before skip src n) ≡ length before
unfolding patch_sector
length-patch_sector before skip src n fits = omega (
  arith,
  length-append (take skip before) (memcpy (drop skip before) src n),
  length-memcpy (drop skip before) src n,
  length-take skip before,
  length-drop skip before,
)

-- Bytes `skip` to `skip + n` come from the source.
pub get_or-patch_sector :
    (before : List ℕ) (skip : ℕ) (src : List ℕ) (n j : ℕ)
    → skip + n ≤ length before
    → n ≤ length src
    → get_or (patch_sector before skip src n) j 0
      ≡ (if leb skip j && ltb j (skip + n) then get_or src (j - skip) 0 else get_or before j 0)
unfolding patch_sector
get_or-patch_sector before skip src n j fits enough =
    let size = length-take skip before in
    let tail_size = length-drop skip before in
    let middle_size = length-take n src in
    let room : n ≤ length (drop skip before) = omega (arith, tail_size) in
    rw (memcpy_lem (drop skip before) src n room enough) (elim (Bool-cases (ltb j skip)) [
      | inl front ↦
          let miss : (leb skip j && ltb j (skip + n)) ≡ false = ground arith in
          rw miss (
            get_or-append_left (take skip before) (take n src ++ drop n (drop skip before)) j
              (ground (arith, size))
            ∙ get_or-take skip before j (ground arith))
      | inr later ↦
          rw
            (get_or-append_right (take skip before) (take n src ++ drop n (drop skip before)) j
              (ground (arith, size)))
            (elim (Bool-cases (ltb j (skip + n))) [
              | inl middle ↦
                  let hit : (leb skip j && ltb j (skip + n)) ≡ true = ground arith in
                  let place : j - length (take skip before) ≡ j - skip = ground (arith, size) in
                  rw (hit, place)
                    (get_or-append_left (take n src) (drop n (drop skip before)) (j - skip)
                        (ground (arith, middle_size))
                      ∙ get_or-take n src (j - skip) (ground arith))
              | inr end ↦
                  let miss : (leb skip j && ltb j (skip + n)) ≡ false = ground arith in
                  let place : skip + (n + (j - length (take skip before) - length (take n src)))
                      ≡ j =
                    ground (arith, size, middle_size) in
                  rw miss (
                    get_or-append_right (take n src) (drop n (drop skip before))
                      (j - length (take skip before)) (ground (arith, size, middle_size))
                    ∙ get_or-drop n (drop skip before)
                        (j - length (take skip before) - length (take n src))
                    ∙ get_or-drop skip before
                        (n + (j - length (take skip before) - length (take n src)))
                    ∙ ap (λ i. get_or before i 0) place)
            ])
    ])

-- What a disk promises to one that reads and writes it by single sectors: sectors are whole, a
-- sector that was written is read back, and a write touches no other sector, also where it fails.
pub record KeepsSectors {D : Type 0} (read : D → ℕ → ℕ → Option (List ℕ))
    (write : D → ℕ → ℕ → List ℕ → ℕ × D) : Type 0 where
  pub whole : (d : D) → ReadsWhole read d
  pub same :
      (d : D) (lba : ℕ) (bytes : List ℕ)
      → length bytes ≡ sector_size
      → (write d lba 1 bytes).0 ≡ 1
      → read (write d lba 1 bytes).1 lba 1 ≡ some bytes
  pub other :
      (d : D) (lba c : ℕ) (bytes : List ℕ) → lba ≢ c → read (write d lba 1 bytes).1 c 1 ≡ read d c 1

module _ {D : Type 0} (read : D → ℕ → ℕ → Option (List ℕ)) where
  -- The bytes from `off` on are those of the source up to `k`, and readable; the others are what
  -- they were.
  abbrev pub Patched : D → ℕ → List ℕ → ℕ → D → Type 0
  Patched d off src k d' =
      ((i : ℕ)
        → disk_byte read d' i
          ≡ (if leb off i && ltb i (off + k) then get_or src (i - off) 0 else disk_byte read d i))
      × ((i : ℕ) → off ≤ i → i < off + k → is_some (read d' (i / sector_size) 1) ≡ true)

  -- What blk_write leaves, from a disk `d0`: all `n` bytes are written, or those in front of a
  -- sector that could not be read or written, which alone may have changed otherwise.
  abbrev pub WroteAt : D → ℕ → List ℕ → ℕ → Option ℕ → D → Type 0
  WroteAt d0 off src n none d =
      (0 < n)
      × ((i : ℕ) → i / sector_size ≢ off / sector_size → disk_byte read d i ≡ disk_byte read d0 i)
  WroteAt d0 off src n (some k) d =
      ((k ≡ n) × Patched d0 off src n d)
      ⊎ ((0 < k)
          × (k < n)
          × ((i : ℕ)
              → i / sector_size ≢ (off + k) / sector_size
              → disk_byte read d i ≡ (
                  if leb off i && ltb i (off + k)
                  then get_or src (i - off) 0
                  else disk_byte read d0 i)))

module _ {D : Type 0} (write : D → ℕ → ℕ → List ℕ → ℕ × D) where
  -- The write of one round.
  abbrev pub round : D → ℕ → ℕ → ℕ → List ℕ → List ℕ → ℕ × D
  round d off n fatti src before =
      write d ((off + fatti) / sector_size) 1
        (patch_sector before ((off + fatti) % sector_size) (drop fatti src) (chunk_at off fatti n))
