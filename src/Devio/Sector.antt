-- ===== src/Devio/Sector.antt =====
-- A sector that blk_write of kernel/devio.c patches and writes.
use waltex.Base.{
  ltb, leb, ◌==◌, if◌then◌else◌, ==→eq, Bool-cases, some_inj, length, get_or, ℕ, ◌+◌, ◌-◌, ◌*◌, ◌/◌,
  ◌%◌, ◌≤◌, ◌≡◌, refl, sym, ap, ◌∙◌, ◌⊎◌, inl, inr, true, false, ◌&&◌, Option, some, List, arith,
}
use waltex.Blockdev.{BlockDev, sector_size}
use waltex.Devio.{fetch, patch_sector}
use waltex.Devio.Patch.{KeepsSectors, get_or-patch_sector, length-patch_sector}
use waltex.Devio.Read.{disk_byte, sector}

module _ {D : Type 0} (b : BlockDev D) (read : D → ℕ → ℕ → Option (List ℕ))
    (write : D → ℕ → ℕ → List ℕ → ℕ × D) (can_read : b.read ≡ some read)
    (keeps : KeepsSectors read write) where
  -- The sector that a round patches: all of it is written, or it is read first.
  pub fetched :
      (d : D) (lba skip chunk : ℕ) (bounce before : List ℕ)
      → length bounce ≡ sector_size
      → fetch b d lba chunk bounce ≡ some before
      → (length before ≡ sector_size) × ((chunk ≡ sector_size) ⊎ (before ≡ sector read d lba))
  unfolding fetch
  fetched d lba skip chunk bounce before size got = elim (Bool-cases (chunk == sector_size)) [
    | inl all ↦
        let same : before ≡ bounce = some_inj (sym got ∙ rw all refl) in
        (rw same size, inl (==→eq chunk sector_size all))
    | inr part ↦
        let from_disk : read d lba 1 ≡ some before = rw (part, can_read) at got in
        (keeps.whole d lba before from_disk, inr (rw from_disk refl))
  ]

  -- A sector that is patched and written.
  pub sector_written :
      (d : D) (lba skip chunk : ℕ) (before piece : List ℕ) (i : ℕ)
      → length before ≡ sector_size
      → skip + chunk ≤ sector_size
      → chunk ≤ length piece
      → (chunk ≡ sector_size) ⊎ (before ≡ sector read d lba)
      → (write d lba 1 (patch_sector before skip piece chunk)).0 ≡ 1
      → disk_byte read (write d lba 1 (patch_sector before skip piece chunk)).1 i ≡ (
          if leb (lba * sector_size + skip) i && ltb i (lba * sector_size + skip + chunk)
          then get_or piece (i - (lba * sector_size + skip)) 0
          else disk_byte read d i)
  sector_written d lba skip chunk before piece i size fits enough origin wrote =
      elim (Bool-cases (i / sector_size == lba)) [
        | inr elsewhere ↦
            let miss : (leb (lba * sector_size + skip) i
                  && ltb i (lba * sector_size + skip + chunk))
                ≡ false =
              ground arith in
            rw
              (
                miss,
                keeps.other d lba (i / sector_size) (patch_sector before skip piece chunk)
                    (λ e. ground arith),
              )
              refl
        | inl here ↦
            let at : i / sector_size ≡ lba = ground arith in
            let whole : length (patch_sector before skip piece chunk) ≡ sector_size =
              length-patch_sector before skip piece chunk (omega arith) ∙ size in
            rw (at, keeps.same d lba (patch_sector before skip piece chunk) whole wrote)
              (get_or-patch_sector before skip piece chunk (i % sector_size) (omega arith) enough
                ∙ elim (Bool-cases
                    (leb skip (i % sector_size) && ltb (i % sector_size) (skip + chunk))) [
                      | inl hit ↦
                          let hit' : (leb (lba * sector_size + skip) i
                                && ltb i (lba * sector_size + skip + chunk))
                              ≡ true =
                            ground arith in
                          rw (hit, hit') (ap (λ j. get_or piece j 0) (ground arith))
                      | inr miss ↦
                          let miss' : (leb (lba * sector_size + skip) i
                                && ltb i (lba * sector_size + skip + chunk))
                              ≡ false =
                            ground arith in
                          rw (miss, miss')
                            (elim origin [
                              | inl all ↦ absurd (ground arith)
                              | inr same ↦ ap (λ l. get_or l (i % sector_size) 0) same
                            ])
                    ])
      ]
