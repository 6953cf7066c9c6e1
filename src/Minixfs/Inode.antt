-- ===== src/Minixfs/Inode.antt =====
-- minixfs_init, inode_carica, inode_scrivi, inode_alloca and minixfs_root of kernel/minixfs.c.
use waltex.Base.{
  ltb, ◌==◌, if◌then◌else◌, get_or, set, take, drop, replicate, first_index, ℕ, ◌+◌, ◌-◌, ◌*◌, ◌/◌,
  ◌%◌, bit_or, Bool, true, false, not, ◌||◌, Option, none, some, List, ◌++◌,
}
use waltex.CString.{memset}
use waltex.Minixfs.Bitmap.{accendi, trova_libero}
use waltex.Minixfs.Bytes.{get32, put32, put16s, get16s, put16, get16}
use waltex.Blockdev.{BlockDev}
use waltex.Minixfs.Disk.{blocco_leggi, blocco_scrivi}
use waltex.Minixfs.Types.{
  inode_per_blocco, blocco_imap, disco, slot_at, Superblock, put_disk, Minode, is_no_type,
  max_inodes, put_slot, blank_minode, Fs, tipo_da_mode, mode_da_tipo, inode_size, minix_magic,
}
use waltex.Vfs.Types.{InodeType, inode_file, inode_dir, is_dir}

-- The superblock in block 1.
abbrev pub superblock_of : List ℕ → Superblock
superblock_of buf = record {
  ninodes = get16 buf 0;
  nzones = get16 buf 2;
  imap_blocks = get16 buf 4;
  zmap_blocks = get16 buf 6;
  firstdatazone = get16 buf 8;
  log_zone_size = get16 buf 10;
  magic = get16 buf 16;
}

-- The inode `ino` in the 32 bytes at `off`.
abbrev pub minode_of : ℕ → List ℕ → ℕ → Minode
minode_of ino buf off = record {
  ino = ino;
  kind = tipo_da_mode (get16 buf off);
  size = get32 buf (off + 4);
  zone = get16s buf (off + 14) 9;
  mode = get16 buf off;
  nlinks = get_or buf (off + 13) 0;
}

-- The fields that inode_scrivi writes; the others keep their bytes.
abbrev pub store_inode : Minode → List ℕ → ℕ → List ℕ
store_inode m buf off =
    put16s (set (put32 (put16 buf off m.mode) (off + 4) m.size) (off + 13) (m.nlinks % 256))
      (off + 14) m.zone

-- `memset(d, 0, INODE_SIZE)`
abbrev pub clear_inode : List ℕ → ℕ → List ℕ
clear_inode buf off = take off buf ++ memset (drop off buf) 0 inode_size

abbrev pub inode_offset : ℕ → ℕ
inode_offset ino = (ino - 1) % inode_per_blocco * inode_size

-- What inode_alloca puts into the slot.
abbrev pub new_minode : ℕ → InodeType → Minode
new_minode ino tipo = record {
  ino = ino;
  kind = tipo;
  size = 0;
  zone = replicate 9 0;
  mode = bit_or (mode_da_tipo tipo) (if is_dir tipo then 0o755 else 0o644);
  nlinks = if is_dir tipo then 2 else 1;
}

abbrev pub is_creatable : InodeType → Bool
is_creatable inode_file = true
is_creatable inode_dir = true
is_creatable _ = false

module _ {D : Type 0} (dev : BlockDev D) where
  abbrev pub leggi : Fs D → ℕ → Option (List ℕ)
  leggi f b = blocco_leggi (disco dev f) f.disk b

  abbrev pub on_disk : Fs D → Bool × D → Bool × Fs D
  on_disk f (wrote, d) = (wrote, put_disk f d)

  abbrev pub scrivi : Fs D → ℕ → List ℕ → Bool × Fs D
  scrivi f b bytes = on_disk f (blocco_scrivi (disco dev f) f.disk b bytes)

  -- minixfs_init after the superblock is read. `f` is unmounted and without a disk.
  unfoldable pub mount_super : Fs D → Option (List ℕ) → Bool × Fs D
  mount_super f none = (false, f)
  mount_super f (some buf) =
      let sb = superblock_of buf in
      if not (sb.magic == minix_magic) || not (sb.log_zone_size == 0) then (false, f) else (
        true,
        record f {
          attached = true;
          mounted = true;
          sb = sb;
          table = 2 + sb.imap_blocks + sb.zmap_blocks;
          cache = replicate max_inodes blank_minode;
        },
      )

  -- minixfs_init; `given` tells whether the argument is not null.
  unfoldable pub init : Fs D → Bool → Bool × Fs D
  unfolding mount_super
  init f given =
      let off = record f { attached = false; mounted = false } in
      if not given then (false, off) else mount_super off (blocco_leggi dev f.disk 1)

  abbrev pub inode_block : Fs D → ℕ → ℕ
  inode_block f ino = f.table + (ino - 1) / inode_per_blocco

  -- `ino == 0 || ino > sb.s_ninodes`
  abbrev pub is_bad_ino : Fs D → ℕ → Bool
  is_bad_ino f ino = ino == 0 || ltb f.sb.ninodes ino

  -- The two loops over the cache: the slot of an inode, and a free one.
  abbrev pub cached : Fs D → ℕ → Option ℕ
  cached f ino = first_index (λ i. (slot_at f i).ino == ino) 0 max_inodes

  -- inode_carica once the block is read.
  unfoldable pub fill_from : Fs D → ℕ → ℕ → Option (List ℕ) → Option ℕ × Fs D
  fill_from f ino i none = (none, f)
  fill_from f ino i (some buf) =
      let m = minode_of ino buf (inode_offset ino) in
      if is_no_type m.kind
      then (none, put_slot f i (record (slot_at f i) { kind = m.kind }))
      else (some i, put_slot f i m)

  unfoldable pub load_into : Fs D → ℕ → Option ℕ → Option ℕ × Fs D
  unfolding fill_from
  load_into f ino none = (none, f)
  load_into f ino (some i) = fill_from f ino i (leggi f (inode_block f ino))

  unfoldable pub cached_or_load : Fs D → ℕ → Option ℕ → Option ℕ × Fs D
  unfolding load_into
  cached_or_load f ino (some i) = (some i, f)
  cached_or_load f ino none = load_into f ino (cached f 0)

  -- inode_carica: the slot of the inode, or null.
  unfoldable pub carica : Fs D → ℕ → Option ℕ × Fs D
  unfolding cached_or_load
  carica f ino =
      let result = cached_or_load f ino (cached f ino) in
      if not f.mounted then (none, f) else if is_bad_ino f ino then (none, f) else result

  -- minixfs_root
  unfoldable pub root : Fs D → Option ℕ × Fs D
  root f = let result = carica f 1 in if not f.mounted then (none, f) else result

  -- inode_scrivi once the block is read.
  unfoldable pub store_back : Fs D → ℕ → Option (List ℕ) → Bool × Fs D
  store_back f i none = (false, f)
  store_back f i (some buf) =
      let m = slot_at f i in scrivi f (inode_block f m.ino) (store_inode m buf (inode_offset m.ino))

  -- inode_scrivi of the inode in slot `i`.
  unfoldable pub inode_scrivi : Fs D → ℕ → Bool × Fs D
  unfolding store_back
  inode_scrivi f i =
      let ino = (slot_at f i).ino in
      let result = store_back f i (leggi f (inode_block f ino)) in
      if not f.mounted || is_bad_ino f ino then (false, f) else result

  -- inode_alloca, from its last step to its first.
  unfoldable pub alloca_done : ℕ → Bool × Fs D → Option ℕ × Fs D
  alloca_done i (false, f) = (none, put_slot f i (record (slot_at f i) { ino = 0 }))
  alloca_done i (true, f) = (some i, f)

  unfoldable pub alloca_fill : InodeType → ℕ → ℕ → Bool × Fs D → Option ℕ × Fs D
  unfolding alloca_done inode_scrivi
  alloca_fill tipo i bit (false, f) = (none, f)
  alloca_fill tipo i bit (true, f) =
      alloca_done i (inode_scrivi (put_slot f i (new_minode bit tipo)) i)

  unfoldable pub alloca_clear : Fs D → InodeType → ℕ → ℕ → Option (List ℕ) → Option ℕ × Fs D
  unfolding alloca_fill
  alloca_clear f tipo i bit none = (none, f)
  alloca_clear f tipo i bit (some buf) =
      alloca_fill tipo i bit (scrivi f (inode_block f bit) (clear_inode buf (inode_offset bit)))

  unfoldable pub alloca_mark : InodeType → ℕ → ℕ → Bool × Fs D → Option ℕ × Fs D
  unfolding alloca_clear
  alloca_mark tipo i bit (false, f) = (none, f)
  alloca_mark tipo i bit (true, f) = alloca_clear f tipo i bit (leggi f (inode_block f bit))

  unfoldable pub alloca_bit : Fs D → InodeType → ℕ → Option ℕ → Option ℕ × Fs D
  unfolding alloca_mark
  alloca_bit f tipo i none = (none, f)
  alloca_bit f tipo i (some bit) =
      alloca_mark tipo i bit (on_disk f (accendi (disco dev f) f.disk blocco_imap bit))

  unfoldable pub alloca_slot : Fs D → InodeType → Option ℕ → Option ℕ × Fs D
  unfolding alloca_bit
  alloca_slot f tipo none = (none, f)
  alloca_slot f tipo (some i) =
      alloca_bit f tipo i (trova_libero (disco dev f) f.disk blocco_imap f.sb.ninodes)

  -- inode_alloca: the slot of a new inode, or null.
  unfoldable pub inode_alloca : Fs D → InodeType → Option ℕ × Fs D
  unfolding alloca_slot
  inode_alloca f tipo =
      let result = alloca_slot f tipo (cached f 0) in
      if not f.mounted then (none, f) else if not (is_creatable tipo) then (none, f) else result
