-- ===== src/Devfs/Examples.antt =====
-- kernel/devfs.c on a registry that gets one disk.
use waltex.Base.{
  pos, length, set, replicate, first_index, hits, get_elem?, ℕ, ◌≤◌, ◌≡◌, refl, none, some, List,
  [], ◌∷◌, ◌++◌, arith,
}
use waltex.Blockdev.{BlockDev}
use waltex.CString.{strcmp, str_eq, text, memcpy, strlen}
use waltex.Dev.{Registry, get, lookup_index, register, by_id, is_terminated, entry_at, count}
use waltex.Dev.Invariant.{init-IsRegistry, IsRegistry, register-IsRegistry}
use waltex.Devfs.{init, dev_lookup, device_at, readdir_loop, prepara, dev_readdir, found_device}
use waltex.Devfs.Agree.{dev_lookup-dev_readdir, dev_lookup-listed}
use waltex.Devfs.Grow.{dev_lookup-after_disk, init-IsDevfs, disk_inode}
use waltex.Devfs.Listing.{served_devices}
use waltex.Devfs.Prepare.{IsDevfs}
use waltex.Devio.Entry.{
  CharDev, blockdev_register, device_entry, copy_name, fill_inode, chardev_of, blockdev_of,
}
use waltex.Devio.Ram.{Ram, ram_disk}
use waltex.Devio.Registered.{after_disk, disk_entry}
use waltex.Vfs.Types.{entry, end, name_max}

abbrev no_chars : ℕ → CharDev (Unit {0})
no_chars p = record { read = none; write = none }

abbrev disks : ℕ → BlockDev Ram
disks p = ram_disk

abbrev hda : List ℕ
hda = b'h' ∷ b'd' ∷ b'a' ∷ []

abbrev fresh : Registry
fresh = waltex.Dev.init (record { curr = 0; entries = [] })

abbrev with_disk : Registry
with_disk = after_disk no_chars disks fresh hda 3 0 7

accepted_disk : (blockdev_register no_chars disks fresh (some hda) 3 0 7).0 ≡ pos 0
unfolding waltex.Dev.init blockdev_register register by_id is_terminated device_entry copy_name
    first_index str_eq strcmp
accepted_disk = refl

fresh-IsRegistry : IsRegistry fresh
fresh-IsRegistry = (init-IsRegistry (record { curr = 0; entries = [] })).0

with_disk-IsRegistry : IsRegistry with_disk
unfolding blockdev_register
with_disk-IsRegistry =
    register-IsRegistry fresh (disk_entry no_chars disks fresh hda 3 0 7) fresh-IsRegistry

dev_lookup-after_disk_example :
    IsDevfs no_chars disks with_disk init
    × ((dev_lookup no_chars disks with_disk init hda).0 ≡ some 0)
    × (device_at (dev_lookup no_chars disks with_disk init hda).1 0
        ≡ disk_inode no_chars disks 3 0 7 0)
unfolding waltex.Dev.init
dev_lookup-after_disk_example =
    dev_lookup-after_disk no_chars disks fresh init hda 3 0 7 fresh-IsRegistry
      (init-IsDevfs no_chars disks fresh) accepted_disk

abbrev buffer : List ℕ
buffer = replicate 15 170

-- The one entry of /dev, and the end behind it.
only_disk :
    ((dev_readdir no_chars disks with_disk init (pos 0) buffer).0 ≡ entry (hda ++ replicate 12 0) 3)
    × ((dev_readdir no_chars disks with_disk init (pos 1) buffer).0 ≡ end)
unfolding waltex.Dev.init init dev_readdir readdir_loop count prepara fill_inode get
    blockdev_register register by_id is_terminated device_entry copy_name first_index str_eq strcmp
    memcpy chardev_of blockdev_of
only_disk = (refl, refl)

disk_served : get_elem? (served_devices no_chars disks with_disk) 0 ≡ some 0
unfolding waltex.Dev.init hits fill_inode get blockdev_register register by_id is_terminated
    device_entry copy_name first_index str_eq strcmp chardev_of blockdev_of
disk_served = refl

short_name :
    (name_max ≤ length (entry_at with_disk 0).name)
    × (strlen (entry_at with_disk 0).name ≤ name_max)
unfolding waltex.Dev.init blockdev_register register by_id is_terminated device_entry copy_name
    first_index str_eq strcmp strlen
short_name = (omega arith, omega arith)

dev_lookup-dev_readdir_example :
    let d' = (dev_readdir no_chars disks with_disk init (pos 0) buffer).1 in
    let listed = set (memcpy buffer (entry_at with_disk 0).name name_max) name_max 0 in
    ((dev_readdir no_chars disks with_disk init (pos 0) buffer).0 ≡ entry listed 3)
    × ((dev_lookup no_chars disks with_disk d' listed).0 ≡ some 0)
    × ((device_at (dev_lookup no_chars disks with_disk d' listed).1 0).ino ≡ 3)
dev_lookup-dev_readdir_example =
    dev_lookup-dev_readdir no_chars disks with_disk init with_disk-IsRegistry
      (init-IsDevfs no_chars disks with_disk) 0 0 buffer (omega arith) short_name.0 short_name.1
      disk_served

hda_found : (dev_lookup no_chars disks with_disk init hda).0 ≡ some 0
unfolding waltex.Dev.init init dev_lookup found_device lookup_index prepara fill_inode get
    blockdev_register register by_id is_terminated device_entry copy_name first_index str_eq strcmp
    chardev_of blockdev_of
hda_found = refl

dev_lookup-listed_run :
    (idx : ℕ) × (text (entry_at with_disk 0).name ≡ text hda)
    × ((dev_readdir no_chars disks with_disk init (pos idx) buffer).0
        ≡ entry (set (memcpy buffer (entry_at with_disk 0).name name_max) name_max 0) 3)
dev_lookup-listed_run =
    dev_lookup-listed no_chars disks with_disk init with_disk-IsRegistry
      (init-IsDevfs no_chars disks with_disk) hda buffer 0 hda_found
