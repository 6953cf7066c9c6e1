-- ===== src/Devfs/Listing.antt =====
-- The entries of /dev in kernel/devfs.c: readdir lists the devices that are served, and lookup finds
-- what it lists.
use waltex.Base.{
  ◌==◌, pos, Bool-cases, hits, get_elem?, ℕ, zero, suc, ◌+◌, ◌-◌, ◌≤◌, ◌<◌, ◌≡◌, refl, ◌∙◌, inl,
  inr, true, Option, none, some, List, arith,
}
use waltex.Blockdev.{BlockDev}
use waltex.Dev.{Registry, dev_max, get}
use waltex.Devfs.{Devfs, readdir_loop, device_at, prepara, found_device, dev_entry_name}
use waltex.Devfs.Prepare.{served_inode, IsDevfs, serves, prepara-Prepared}
use waltex.Devio.Entry.{CharDev}
use waltex.Vfs.Types.{DirEntry, entry, end}

module _ {W D : Type 0} (chardev_at : ℕ → CharDev W) (blockdev_at : ℕ → BlockDev D) where
  -- The devices that are served, in the order of the registry.
  abbrev pub served_devices : Registry → List ℕ
  served_devices r = hits (serves chardev_at blockdev_at r) 0 r.curr

  -- The entry for a device, or the end.
  abbrev pub entry_for : Registry → List ℕ → Option ℕ → DirEntry
  entry_for r name none = end
  entry_for r name (some i) = entry (dev_entry_name (get r (pos i)) name) (3 + i)

  pub readdir_loop-served :
      (r : Registry) (d : Devfs) (idx : ℕ) (name : List ℕ) (k i seen : ℕ)
      → IsDevfs chardev_at blockdev_at r d
      → i + k ≤ dev_max
      → seen ≤ idx
      → ((readdir_loop chardev_at blockdev_at r d idx name k i seen).0
          ≡ entry_for r name (get_elem? (hits (serves chardev_at blockdev_at r) i k) (idx - seen)))
        × IsDevfs chardev_at blockdev_at r
            (readdir_loop chardev_at blockdev_at r d idx name k i seen).1
  unfolding readdir_loop hits
  readdir_loop-served r d idx name zero i seen w room le = (refl, w)
  readdir_loop-served r d idx name (suc k) i seen w room le =
      let p = prepara-Prepared chardev_at blockdev_at r d i w (omega arith) in
      let d' = (prepara chardev_at blockdev_at r d i).1 in
      elim (Bool-cases (serves chardev_at blockdev_at r i)) [
        | inr free ↦
            rw (p.answer, free)
              (readdir_loop-served r d' idx name k (i + 1) seen p.kept (omega arith) le)
        | inl on ↦ elim (Bool-cases (seen == idx)) [
          | inl here ↦
              let first : idx - seen ≡ 0 = ground arith in
              rw (p.answer, on, here, first, p.filled (p.answer ∙ on)) (refl, p.kept)
          | inr later ↦
              let next_place : idx - seen ≡ suc (idx - (seen + 1)) = ground arith in
              rw (p.answer, on, later, next_place)
                (readdir_loop-served r d' idx name k (i + 1) (seen + 1) p.kept (omega arith)
                  (ground arith))
        ]
      ]

  pub found_device-served :
      (r : Registry) (d : Devfs) (i : ℕ)
      → IsDevfs chardev_at blockdev_at r d
      → i < dev_max
      → serves chardev_at blockdev_at r i ≡ true
      → ((found_device chardev_at blockdev_at r d (pos i)).0 ≡ some i)
        × (device_at (found_device chardev_at blockdev_at r d (pos i)).1 i
            ≡ served_inode chardev_at blockdev_at r i)
  unfolding found_device
  found_device-served r d i w lt on =
      let p = prepara-Prepared chardev_at blockdev_at r d i w lt in
      rw (p.answer, on) (refl, p.filled (p.answer ∙ on))
