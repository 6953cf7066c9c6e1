-- ===== src/Devio/Examples.antt =====
-- kernel/devio.c on a disk in memory, and on a registry with one disk.
use waltex.Base.{
  leb, if◌then◌else◌, pos, is_some, take, replicate, first_index, ℕ, ◌≡◌, refl, true, none, some,
  List, [], ◌∷◌, arith,
}
use waltex.Blockdev.{BlockDev}
use waltex.CString.{strcmp, str_eq}
use waltex.Dev.{get, lookup_index, init, register, by_id, is_terminated, Registry}
use waltex.Dev.Invariant.{init-IsRegistry}
use waltex.Devio.{blk_write, fetch, clamp, patch_sector, blk_read}
use waltex.Devio.Entry.{
  CharDev, DeviceInode, blockdev_register, no_ops, device_entry, copy_name, dev_chardev, fill_inode,
  dev_blockdev, ops_blockdev,
}
use waltex.Devio.Patch.{WroteAt}
use waltex.Devio.Ram.{Ram, ram_disk, ram_write, ram_read, ram-KeepsSectors}
use waltex.Devio.Read.{blk_read-ReadAt, ReadAt}
use waltex.Devio.Registered.{after_disk, blockdev_register-found}
use waltex.Devio.Roundtrip.{blk_read-blk_write}
use waltex.Devio.Wrote.{blk_write-WroteAt}
use waltex.Vfs.Types.{inode_none, inode_blockdev}

abbrev ones : Ram
ones = replicate 512 1 ∷ replicate 512 2 ∷ replicate 512 3 ∷ []

abbrev junk : List ℕ
junk = replicate 512 170

abbrev four : List ℕ
four = 9 ∷ 8 ∷ 7 ∷ 6 ∷ []

-- A read over the edge of two sectors, and one that the end of the disk cuts short.
read_over_edge : blk_read (some ram_disk) ones 1536 510 4 ≡ some (1 ∷ 1 ∷ 2 ∷ 2 ∷ [])
unfolding blk_read
read_over_edge = refl

read_at_end : blk_read (some ram_disk) ones 1536 1534 100 ≡ some (3 ∷ 3 ∷ [])
unfolding blk_read
read_at_end = refl

read_broken : blk_read (some ram_disk) (replicate 512 1 ∷ [] ∷ []) 1024 510 4 ≡ some (1 ∷ 1 ∷ [])
unfolding blk_read
read_broken = refl

-- A write over the edge keeps the bytes around it.
write_over_edge :
    blk_read (some ram_disk) (blk_write (some ram_disk) ones 1536 510 four 4 junk).1 1536 508 8
    ≡ some (1 ∷ 1 ∷ 9 ∷ 8 ∷ 7 ∷ 6 ∷ 2 ∷ 2 ∷ [])
unfolding blk_read blk_write fetch patch_sector
write_over_edge = refl

blk_read-ReadAt_example :
    ReadAt ram_read ones 510
      (if leb 1536 510 then 0 else clamp 1536 510 4)
      (blk_read (some ram_disk) ones 1536 510 4)
blk_read-ReadAt_example =
    blk_read-ReadAt ram_disk ram_read ones 1536 510 4 refl (ram-KeepsSectors.whole ones)

blk_write-WroteAt_example :
    WroteAt ram_read ones 510 four
      (if leb 1536 510 then 0 else clamp 1536 510 4)
      (blk_write (some ram_disk) ones 1536 510 four 4 junk).0
      (blk_write (some ram_disk) ones 1536 510 four 4 junk).1
blk_write-WroteAt_example =
    blk_write-WroteAt ram_disk ram_read ram_write ones 1536 510 4 four junk refl ram-KeepsSectors
      refl (omega arith) refl

all_four : (blk_write (some ram_disk) ones 1536 510 four 4 junk).0 ≡ some (clamp 1536 510 4)
unfolding blk_write fetch patch_sector
all_four = refl

blk_read-blk_write_example :
    blk_read (some ram_disk) (blk_write (some ram_disk) ones 1536 510 four 4 junk).1 1536 510 4
    ≡ some (take (clamp 1536 510 4) four)
blk_read-blk_write_example =
    blk_read-blk_write ram_disk ram_read ram_write ones 1536 510 4 four junk refl ram-KeepsSectors
      refl (omega arith) refl (omega arith) all_four

abbrev no_chars : ℕ → CharDev (Unit {0})
no_chars p = record { read = none; write = none }

abbrev disks : ℕ → BlockDev Ram
disks p = ram_disk

abbrev hda : List ℕ
hda = b'h' ∷ b'd' ∷ b'a' ∷ []

abbrev empty_registry : Registry
empty_registry = init (record { curr = 0; entries = [] })

hda_accepted : (blockdev_register no_chars disks empty_registry (some hda) 3 0 7).0 ≡ pos 0
unfolding init blockdev_register register by_id is_terminated device_entry copy_name first_index
    str_eq strcmp
hda_accepted = refl

abbrev empty_inode : DeviceInode
empty_inode = record {
  ino = 0;
  kind = inode_none;
  size = 0;
  ops = no_ops;
  priv = 0;
  major = 0;
  minor = 0;
}

blockdev_register-found_example :
    (dev_blockdev (after_disk no_chars disks empty_registry hda 3 0 7) hda ≡ 7)
    × (dev_chardev (after_disk no_chars disks empty_registry hda 3 0 7) hda ≡ 0)
    × (is_some (disks 7).read ≡ true)
    × (fill_inode no_chars disks
          (get
            (after_disk no_chars disks empty_registry hda 3 0 7)
            (lookup_index (after_disk no_chars disks empty_registry hda 3 0 7) hda))
          empty_inode
        ≡ (
          true,
          record {
            ino = 0;
            kind = inode_blockdev;
            size = 1536;
            ops = ops_blockdev;
            priv = 7;
            major = 3;
            minor = 0;
          },
        ))
blockdev_register-found_example =
    blockdev_register-found no_chars disks empty_registry hda 3 0 7 empty_inode
      (init-IsRegistry (record { curr = 0; entries = [] })).0 hda_accepted
