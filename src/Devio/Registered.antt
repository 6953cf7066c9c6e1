-- ===== src/Devio/Registered.antt =====
-- kernel/devio.c: what a device that has been registered is found as.

use waltex.Base.{
  ◌==◌, pos, ==→eq, is_some, eq_false, replicate, ℕ, zero, suc, ◌*◌, ◌%◌, ◌^◌, ◌<◌, ◌≡◌, refl, sym,
  ap, ◌∙◌, subst, ◌≢◌, true, false, some, List, [], ◌∷◌, arith,
}
use waltex.Blockdev.{BlockDev, sector_size}
use waltex.CString.{text, strlen}
use waltex.Dev.{DevEntry, Registry, lookup_index, get, dev_name_max, register, dev_block}
use waltex.Dev.Find.{lookup-register, lookup_index-text}
use waltex.Dev.Invariant.{IsRegistry}
use waltex.Dev.Register.{register_iff}
use waltex.Devio.Entry.{
  CharDev, copy_name, dev_chardev, DeviceInode, ops_blockdev, fill_inode, blockdev_register,
  dev_blockdev, device_entry, blockdev_of, chardev_of,
}
use waltex.Vfs.Types.{inode_blockdev}

-- A name that fits keeps its text, and a longer one is cut.
pub text-copy_name :
    (n : ℕ) (name : List ℕ)
    → strlen (copy_name (replicate n 0) name) < n
    → text (copy_name (replicate n 0) name) ≡ text name
unfolding strlen copy_name text
text-copy_name zero name h = absurd (omega arith)
text-copy_name (suc n) [] h = refl
text-copy_name (suc n) (c ∷ name) h = ground (arith, text-copy_name n name)

module _ {W D : Type 0} (chardev_at : ℕ → CharDev W) (blockdev_at : ℕ → BlockDev D) (r : Registry)
    (name : List ℕ) (major minor b : ℕ) where
  -- Where the registration ends.
  abbrev pub after_disk : Registry
  after_disk = (blockdev_register chardev_at blockdev_at r (some name) major minor b).1

  abbrev pub disk_entry : DevEntry
  disk_entry = device_entry name dev_block major minor b

  pub disk-accepted :
      (blockdev_register chardev_at blockdev_at r (some name) major minor b).0 ≡ pos 0
      → (b ≢ 0)
        × (is_some (blockdev_at b).read ≡ true)
        × (blockdev_register chardev_at blockdev_at r (some name) major minor b
            ≡ register r disk_entry)
        × ((register r disk_entry).0 ≡ pos 0)
  unfolding blockdev_register
  disk-accepted accepted = ground arith

  -- The entry that the search finds then.
  pub disk-entry :
      IsRegistry r
      → (blockdev_register chardev_at blockdev_at r (some name) major minor b).0 ≡ pos 0
      → get after_disk (lookup_index after_disk name) ≡ some disk_entry
  unfolding device_entry
  disk-entry w accepted =
      let (nonzero, readable, same, took) = disk-accepted accepted in
      let fits = ((register_iff r disk_entry).0 took).terminated in
      subst (λ x. get x (lookup_index x name) ≡ some disk_entry) (sym (ap (λ p. p.1) same))
        (ap (get (register r disk_entry).1) (
            sym (
              lookup_index-text (register r disk_entry).1 disk_entry.name name
                (text-copy_name dev_name_max name fits)))
          ∙ (lookup-register r disk_entry w took).0)

  -- A disk that blockdev_register accepts is found under its name as a disk and not as a character
  -- device, at its address; it can be read; and its inode is one of a disk whose size is that of
  -- its sectors, modulo 2^32.
  pub blockdev_register-found :
      (inode : DeviceInode)
      → IsRegistry r
      → (blockdev_register chardev_at blockdev_at r (some name) major minor b).0 ≡ pos 0
      → (dev_blockdev after_disk name ≡ b)
        × (dev_chardev after_disk name ≡ 0)
        × (is_some (blockdev_at b).read ≡ true)
        × (fill_inode chardev_at blockdev_at (get after_disk (lookup_index after_disk name)) inode
            ≡ (
              true,
              record {
                ino = inode.ino;
                kind = inode_blockdev;
                size = (blockdev_at b).nsectors * sector_size % 2 ^ 32;
                ops = ops_blockdev;
                priv = b;
                major = major;
                minor = minor;
              },
            ))
  unfolding dev_blockdev dev_chardev chardev_of blockdev_of fill_inode device_entry
  blockdev_register-found inode w accepted =
      let (nonzero, readable, same, took) = disk-accepted accepted in
      let null : (b == 0) ≡ false = eq_false (b == 0) (λ e. nonzero (==→eq b 0 e)) in
      rw (disk-entry w accepted, null) (refl, refl, readable, refl)
