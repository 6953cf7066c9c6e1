-- ===== src/Ata.antt =====
-- kernel/ata.c, include/ata.h: the driver of the disks of the primary channel, by polling. The number
-- of a drive is 0 or 1, and `true` is 0 and `false` is -1 where only that is returned.
pub mod Transfer
pub mod Registers
pub mod Absent
mod Examples
use waltex.Base.{
  ltb, leb, ◌==◌, if◌then◌else◌, get_or, ℕ, zero, suc, ◌+◌, ◌-◌, ◌*◌, ◌/◌, ◌%◌, ◌^◌, bit_and,
  bit_or, Bool, true, false, not, Option, none, some, List,
}
use waltex.Ports.{Ports}

-- ATA_PRIMARY_BASE, ATA_PRIMARY_CTRL
abbrev pub primary_base : ℕ
primary_base = 0x1f0

abbrev pub primary_ctrl : ℕ
primary_ctrl = 0x3f6

-- ATA_SR_BSY, ATA_SR_DF, ATA_SR_DRQ, ATA_SR_ERR
abbrev pub sr_bsy : ℕ
sr_bsy = 0x80

abbrev pub sr_df : ℕ
sr_df = 0x20

abbrev pub sr_drq : ℕ
sr_drq = 0x08

abbrev pub sr_err : ℕ
sr_err = 0x01

-- ATA_TIMEOUT, ATA_MAX_DRIVES
abbrev pub ata_timeout : ℕ
ata_timeout = 10000000

abbrev pub ata_max_drives : ℕ
ata_max_drives = 2

-- struct ata_drive
pub record AtaDrive : Type 0 where
  pub base : ℕ
  pub ctrl : ℕ
  pub drive : ℕ

-- ata_range_ok, on the capacity of the disk. All three are uint32_t.
unfoldable pub range_ok : ℕ → ℕ → ℕ → Bool
range_ok nsectors lba count =
    if ltb 256 count
    then false
    else if leb nsectors lba
    then false
    else if ltb (nsectors - lba) count
    then false
    else true

-- Word `k` of the answer to IDENTIFY, the low byte first.
abbrev pub word_at : List ℕ → ℕ → ℕ
word_at id k = get_or id (2 * k) 0 + 2 ^ 8 * get_or id (2 * k + 1) 0

-- The capacity: words 60 and 61.
abbrev pub capacity : List ℕ → ℕ
capacity id = bit_or (word_at id 60) (word_at id 61 * 2 ^ 16)

-- What ata_prepare writes to the register of the drive, and to those of the address.
abbrev pub drive_register : ℕ → ℕ → ℕ
drive_register drive lba = bit_or (bit_or 0xe0 (drive * 2 ^ 4)) (lba / 2 ^ 24 % 2 ^ 4)

abbrev pub lba_lo : ℕ → ℕ
lba_lo lba = lba % 2 ^ 8

abbrev pub lba_mid : ℕ → ℕ
lba_mid lba = lba / 2 ^ 8 % 2 ^ 8

abbrev pub lba_hi : ℕ → ℕ
lba_hi lba = lba / 2 ^ 16 % 2 ^ 8

module _ {W : Type 0} (ports : Ports W) where
  -- ata_400ns: the answers are not looked at.
  unfoldable pub delay_400ns : ℕ → W → W
  delay_400ns ctrl w =
      let w = (ports.inb ctrl w).1 in
      let w = (ports.inb ctrl w).1 in let w = (ports.inb ctrl w).1 in (ports.inb ctrl w).1

  -- ata_wait, with `limite` tries left
  unfoldable pub ata_wait : ℕ → ℕ → ℕ → ℕ → W → Bool × W
  ata_wait ctrl mask val zero w = (false, w)
  ata_wait ctrl mask val (suc limite) w =
      let (st, w') = ports.inb ctrl w in
      let again = ata_wait ctrl mask val limite w' in
      if not (bit_and st (bit_or sr_err sr_df) == 0)
      then (false, w')
      else if bit_and st mask == val
      then (true, w')
      else again

  -- The end of ata_identify: the data are there, or the wait for them failed.
  abbrev pub identified : ℕ → Bool × W → Option ℕ × W
  identified base (false, w) = (none, w)
  identified base (true, w) = let (id, w') = ports.insw base 256 w in (some (capacity id), w')

  -- The signature of a drive that is no disk, after the first wait.
  abbrev pub after_busy : ℕ → ℕ → Bool × W → Option ℕ × W
  after_busy base ctrl (false, w) = (none, w)
  after_busy base ctrl (true, w) =
      let (mid, w1) = ports.inb (base + 4) w in
      let (hi, w2) = ports.inb (base + 5) w1 in
      let waited = ata_wait ctrl (bit_or sr_bsy sr_drq) sr_drq ata_timeout w2 in
      if not (mid == 0)
      then (none, w1)
      else if not (hi == 0)
      then (none, w2)
      else identified base waited

  -- The first lines of ata_identify. ATA_CMD_IDENTIFY is 0xec.
  unfoldable pub identify_command : ℕ → ℕ → ℕ → W → W
  unfolding delay_400ns
  identify_command base ctrl drive w =
      let w = ports.outb (base + 6) (bit_or 0xa0 (drive * 2 ^ 4)) w in
      let w = delay_400ns ctrl w in
      let w = ports.outb (base + 2) 0 w in
      let w = ports.outb (base + 3) 0 w in
      let w = ports.outb (base + 4) 0 w in
      let w = ports.outb (base + 5) 0 w in
      let w = ports.outb (base + 7) 0xec w in delay_400ns ctrl w

  -- The rest, with the status that was read: 0 is that there is no disk.
  abbrev pub present : ℕ → ℕ → ℕ × W → Option ℕ × W
  present base ctrl (st, w) =
      let waited = ata_wait ctrl sr_bsy 0 ata_timeout w in
      if st == 0 then (none, w) else after_busy base ctrl waited

  -- ata_identify: the capacity, `none` for -1.
  unfoldable pub identify : ℕ → ℕ → ℕ → W → Option ℕ × W
  identify base ctrl drive w =
      present base ctrl (ports.inb (base + 7) (identify_command base ctrl drive w))

  -- The registers and the command of ata_prepare, after the wait.
  abbrev pub command : AtaDrive → ℕ → ℕ → ℕ → Bool × W → Bool × W
  command a lba count cmd (false, w) = (false, w)
  command a lba count cmd (true, w) =
      let w = ports.outb (a.base + 6) (drive_register a.drive lba) w in
      let w = delay_400ns a.ctrl w in
      let w = ports.outb (a.base + 2) (count % 2 ^ 8) w in
      let w = ports.outb (a.base + 3) (lba_lo lba) w in
      let w = ports.outb (a.base + 4) (lba_mid lba) w in
      let w = ports.outb (a.base + 5) (lba_hi lba) w in (true, ports.outb (a.base + 7) cmd w)

  -- ata_prepare
  unfoldable pub prepare : AtaDrive → ℕ → ℕ → ℕ → W → Bool × W
  unfolding ata_wait delay_400ns
  prepare a lba count cmd w = command a lba count cmd (ata_wait a.ctrl sr_bsy 0 ata_timeout w)
