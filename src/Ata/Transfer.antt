-- ===== src/Ata/Transfer.antt =====
-- kernel/ata.c: the transfers of sectors, and ata_init.
use waltex.Base.{
  ◌==◌, if◌then◌else◌, ℤ, pos, negsuc, length, take, drop, ℕ, zero, suc, ◌+◌, ◌/◌, bit_or, Bool,
  true, false, not, Option, none, some, List, [], ◌∷◌, ◌++◌,
}
use waltex.Ata.{
  AtaDrive, ata_wait, prepare, range_ok, identify, sr_bsy, sr_drq, ata_timeout, ata_max_drives,
  primary_base, primary_ctrl,
}
use waltex.Blockdev.{sector_size}
use waltex.Ports.{Ports}

-- struct blockdev, as far as ata_init fills it: the name of the drive, its capacity, and which drive
-- it is. The functions are the same for all, and their pointers are not kept here.
pub record Drive : Type 0 where
  pub name : List ℕ
  pub nsectors : ℕ
  pub info : AtaDrive

-- A sector, and those behind it where they were all read.
abbrev pub sector_before : List ℕ → Option (List ℕ) → Option (List ℕ)
sector_before sector none = none
sector_before sector (some bytes) = some (sector ++ bytes)

module _ {W : Type 0} (ports : Ports W) where
  -- The loop of ata_dev_read over `n` sectors: the bytes, `none` for -1.
  unfoldable pub read_sectors : AtaDrive → ℕ → W → Option (List ℕ) × W
  unfolding ata_wait
  read_sectors a zero w = (some [], w)
  read_sectors a (suc n) w =
      let (ready, w') = ata_wait ports a.ctrl (bit_or sr_bsy sr_drq) sr_drq ata_timeout w in
      let (sector, w'') = ports.insw a.base (sector_size / 2) w' in
      let (rest, w''') = read_sectors a n w'' in
      if not ready then (none, w') else (sector_before sector rest, w''')

  abbrev pub read_prepared : AtaDrive → ℕ → Bool × W → Option (List ℕ) × W
  read_prepared a count (false, w) = (none, w)
  read_prepared a count (true, w) = read_sectors a count w

  -- ata_dev_read; `none` for the drive is a null `priv`. ATA_CMD_READ is 0x20.
  unfoldable pub dev_read : Option AtaDrive → ℕ → ℕ → ℕ → W → Option (List ℕ) × W
  unfolding read_sectors prepare
  dev_read none nsectors lba count w = (if count == 0 then some [] else none, w)
  dev_read (some a) nsectors lba count w =
      let prepared = prepare ports a lba count 0x20 w in
      if count == 0
      then (some [], w)
      else if not (range_ok nsectors lba count)
      then (none, w)
      else read_prepared a count prepared

  -- The loop of ata_dev_write over `n` sectors.
  unfoldable pub write_sectors : AtaDrive → List ℕ → ℕ → W → Bool × W
  unfolding ata_wait
  write_sectors a p zero w = (true, w)
  write_sectors a p (suc n) w =
      let (ready, w') = ata_wait ports a.ctrl (bit_or sr_bsy sr_drq) sr_drq ata_timeout w in
      let w'' = ports.outsw a.base (take sector_size p) w' in
      let rest = write_sectors a (drop sector_size p) n w'' in
      if not ready then (false, w') else rest

  -- The flush, and the count that is returned. ATA_CMD_FLUSH is 0xe7.
  abbrev pub flushed : AtaDrive → ℕ → Bool × W → Option ℕ × W
  flushed a count (false, w) = (none, w)
  flushed a count (true, w) =
      let (done, w') =
        ata_wait ports a.ctrl sr_bsy 0 ata_timeout (ports.outb (a.base + 7) 0xe7 w) in
      (if done then some count else none, w')

  abbrev pub write_prepared : AtaDrive → List ℕ → ℕ → Bool × W → Option ℕ × W
  write_prepared a p count (false, w) = (none, w)
  write_prepared a p count (true, w) = flushed a count (write_sectors a p count w)

  -- ata_dev_write. ATA_CMD_WRITE is 0x30.
  unfoldable pub dev_write : Option AtaDrive → ℕ → ℕ → List ℕ → ℕ → W → Option ℕ × W
  unfolding write_sectors prepare ata_wait
  dev_write none nsectors lba buf count w = (if count == 0 then some 0 else none, w)
  dev_write (some a) nsectors lba buf count w =
      let prepared = prepare ports a lba count 0x30 w in
      if count == 0
      then (some 0, w)
      else if not (range_ok nsectors lba count)
      then (none, w)
      else write_prepared a buf count prepared

  -- "hda" and "hdb"
  abbrev pub nome : ℕ → List ℕ
  nome d = b'h' ∷ b'd' ∷ (b'a' + d) ∷ []

  -- The loop of ata_init, with `k` drives left to look for: the drives that were found are `drives`.
  -- They are registered under their names, with the numbers 3 and 64 * d (Dev, Devio).
  unfoldable pub find_drives : List Drive → ℕ → ℕ → W → List Drive × W
  unfolding identify
  find_drives drives d zero w = (drives, w)
  find_drives drives d (suc k) w =
      let (found, w') = identify ports primary_base primary_ctrl d w in
      let missing = find_drives drives (d + 1) k w' in
      elim found [
        | none ↦ missing
        | some n ↦
            find_drives
              (drives
                ++ (record {
                  name = nome d;
                  nsectors = n;
                  info = record { base = primary_base; ctrl = primary_ctrl; drive = d };
                }
                    ∷ []))
              (d + 1) k w'
      ]

  -- ata_init
  unfoldable pub init : W → List Drive × W
  unfolding find_drives
  init w = find_drives [] 0 ata_max_drives w

-- ata_drive_count, ata_drive; `none` is a null pointer.
unfoldable pub drive_count : List Drive → ℕ
drive_count drives = length drives

unfoldable pub drive_at : List Drive → ℤ → Option Drive
drive_at drives (negsuc n) = none
drive_at [] (pos i) = none
drive_at (d ∷ drives) (pos zero) = some d
drive_at (d ∷ drives) (pos (suc i)) = drive_at drives (pos i)
