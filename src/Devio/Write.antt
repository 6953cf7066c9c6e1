-- ===== src/Devio/Write.antt =====
-- blk_write of kernel/devio.c against the bytes of the disk, round by round.
use waltex.Base.{
  ltb, leb, ◌==◌, if◌then◌else◌, ==→eq, Bool-cases, is_some, length, get_or, drop, length-drop,
  get_or-drop, ℕ, ◌+◌, ◌-◌, ◌*◌, ◌/◌, ◌%◌, ◌≤◌, ◌<◌, ◌≡◌, refl, ap, ◌∙◌, ◌⊎◌, inl, inr, true, ◌&&◌,
  Option, some, List, arith,
}
use waltex.Blockdev.{BlockDev, sector_size}
use waltex.Devio.{patch_sector, chunk_at}
use waltex.Devio.Patch.{KeepsSectors, length-patch_sector, Patched, round}
use waltex.Devio.Read.{disk_byte, sector}
use waltex.Devio.Sector.{sector_written}

module _ {D : Type 0} (b : BlockDev D) (read : D → ℕ → ℕ → Option (List ℕ))
    (write : D → ℕ → ℕ → List ℕ → ℕ × D) (can_read : b.read ≡ some read)
    (keeps : KeepsSectors read write) where
  module _ (d d0 : D) (off n fatti : ℕ) (src before : List ℕ) (more : fatti < n)
      (enough : n ≤ length src) (so_far : Patched read d0 off src fatti d)
      (size : length before ≡ sector_size)
      (origin : (chunk_at off fatti n ≡ sector_size)
        ⊎ (before ≡ sector read d ((off + fatti) / sector_size)))
      (wrote : (round write d off n fatti src before).0 ≡ 1) where
    pub round-bytes :
        (i : ℕ)
        → disk_byte read (round write d off n fatti src before).1 i ≡ (
            if leb off i && ltb i (off + (fatti + chunk_at off fatti n))
            then get_or src (i - off) 0
            else disk_byte read d0 i)
    round-bytes i =
        let place : (off + fatti) / sector_size * sector_size + (off + fatti) % sector_size
            ≡ off + fatti =
          omega arith in
        let room : chunk_at off fatti n ≤ length (drop fatti src) =
          ground (arith, length-drop fatti src) in
        rw
          (
            sector_written b read write can_read keeps d ((off + fatti) / sector_size)
                ((off + fatti) % sector_size) (chunk_at off fatti n) before (drop fatti src) i size
                (ground arith) room origin wrote,
            place,
            get_or-drop fatti src (i - (off + fatti)),
            so_far.0 i,
          )
          (elim (Bool-cases (leb (off + fatti) i && ltb i (off + fatti + chunk_at off fatti n))) [
            | inl now ↦
                let within : (leb off i && ltb i (off + (fatti + chunk_at off fatti n))) ≡ true =
                  ground arith in
                let same : fatti + (i - (off + fatti)) ≡ i - off = ground arith in
                rw (now, within, same) refl
            | inr not_now ↦
                rw not_now (
                  ap (λ t. if t then get_or src (i - off) 0 else disk_byte read d0 i)
                    (ground arith))
          ])

    pub round-readable :
        (i : ℕ)
        → off ≤ i
        → i < off + (fatti + chunk_at off fatti n)
        → is_some (read (round write d off n fatti src before).1 (i / sector_size) 1) ≡ true
    round-readable i ge lt = elim (Bool-cases (i / sector_size == (off + fatti) / sector_size)) [
      | inl here ↦
          let whole =
            length-patch_sector before ((off + fatti) % sector_size) (drop fatti src)
              (chunk_at off fatti n) (omega arith) in
          rw
            (
              ==→eq (i / sector_size) ((off + fatti) / sector_size) here,
              keeps.same d ((off + fatti) / sector_size)
                  (patch_sector before ((off + fatti) % sector_size) (drop fatti src)
                    (chunk_at off fatti n))
                  (whole ∙ size) wrote,
            )
            refl
      | inr elsewhere ↦
          rw
            (keeps.other d ((off + fatti) / sector_size) (i / sector_size)
              (patch_sector before ((off + fatti) % sector_size) (drop fatti src)
                (chunk_at off fatti n))
              (λ e. ground arith))
            (so_far.1 i ge (ground arith))
    ]
