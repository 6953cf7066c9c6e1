-- ===== src/Minixfs/Types.antt =====
-- The structs of kernel/minixfs.c and its state.
use waltex.Base.{
  ◌==◌, if◌then◌else◌, get_or, set, replicate, ℕ, ◌+◌, bit_and, Bool, true, false, none, List,
}
use waltex.Blockdev.{BlockDev}
use waltex.Vfs.Types.{InodeType, inode_none, inode_file, inode_dir, inode_chardev}

-- MINIX_MAGIC, INODE_SIZE, INODE_PER_BLOCCO, ZONE_DIRETTE, ZONA_INDIRETTA, ZONA_DOPPIA,
-- PTR_PER_BLOCCO, DIRENT_SIZE, MINIX_NAME_MAX and MAX_INODES
abbrev pub minix_magic : ℕ
minix_magic = 0x137F

abbrev pub inode_size : ℕ
inode_size = 32

abbrev pub inode_per_blocco : ℕ
inode_per_blocco = 32

abbrev pub zone_dirette : ℕ
zone_dirette = 7

abbrev pub zona_indiretta : ℕ
zona_indiretta = 7

abbrev pub zona_doppia : ℕ
zona_doppia = 8

abbrev pub ptr_per_blocco : ℕ
ptr_per_blocco = 512

abbrev pub dirent_size : ℕ
dirent_size = 16

abbrev pub minix_name_max : ℕ
minix_name_max = 14

abbrev pub max_inodes : ℕ
max_inodes = 64

-- struct minix_superblock, the fields that the code looks at.
pub record Superblock : Type 0 where
  pub ninodes : ℕ
  pub nzones : ℕ
  pub imap_blocks : ℕ
  pub zmap_blocks : ℕ
  pub firstdatazone : ℕ
  pub log_zone_size : ℕ
  pub magic : ℕ

-- struct minode, without the fields of struct inode that are the same for every inode of minix. The
-- slot is free where `ino` is 0.
pub record Minode : Type 0 where
  pub ino : ℕ
  pub kind : InodeType
  pub size : ℕ
  pub zone : List ℕ
  pub mode : ℕ
  pub nlinks : ℕ

abbrev pub blank_minode : Minode
blank_minode = record {
  ino = 0;
  kind = inode_none;
  size = 0;
  zone = replicate 9 0;
  mode = 0;
  nlinks = 0;
}

-- The static variables: `disco` is not null where `attached`, `montato` is `mounted`,
-- `blocco_inodi` is `table`. `disk` is the state of the device. An inode is the index of its slot.
pub record Fs (D : Type 0) : Type 0 where
  pub disk : D
  pub attached : Bool
  pub mounted : Bool
  pub sb : Superblock
  pub table : ℕ
  pub cache : List Minode

abbrev pub slot_at : {D : Type 0} → Fs D → ℕ → Minode
slot_at f i = get_or f.cache i blank_minode

abbrev pub put_slot : {D : Type 0} → Fs D → ℕ → Minode → Fs D
put_slot f i m = record f { cache = set f.cache i m }

abbrev pub put_disk : {D : Type 0} → Fs D → D → Fs D
put_disk f d = record f { disk = d }

-- `*disco`; through a null pointer the operations are null too.
abbrev pub device : {D : Type 0} → BlockDev D → Bool → BlockDev D
device dev true = dev
device dev false = record { nsectors = 0; read = none; write = none }

abbrev pub disco : {D : Type 0} → BlockDev D → Fs D → BlockDev D
disco dev f = device dev f.attached

-- BLOCCO_IMAP and BLOCCO_ZMAP
abbrev pub blocco_imap : ℕ
blocco_imap = 2

abbrev pub blocco_zmap : Superblock → ℕ
blocco_zmap sb = 2 + sb.imap_blocks

-- tipo_da_mode
unfoldable pub tipo_da_mode : ℕ → InodeType
tipo_da_mode mode =
    let t = bit_and mode 0o170000 in
    if t == 0o040000
    then inode_dir
    else if t == 0o100000
    then inode_file
    else if t == 0o020000
    then inode_chardev
    else inode_none

-- mode_da_tipo
abbrev pub mode_da_tipo : InodeType → ℕ
mode_da_tipo inode_dir = 0o040000
mode_da_tipo inode_file = 0o100000
mode_da_tipo inode_chardev = 0o020000
mode_da_tipo _ = 0

abbrev pub is_no_type : InodeType → Bool
is_no_type inode_none = true
is_no_type _ = false
