-- ===== src/Devfs/Grow.antt =====
-- The pool of kernel/devfs.c while the registry grows: a disk that is registered after devfs_init.
use waltex.Base.{
  leb, ◌==◌, pos, ==→eq, eq_false, get_or, replicate, ℕ, zero, suc, ◌+◌, ◌*◌, ◌%◌, ◌^◌, ◌<◌, ◌≡◌,
  refl, sym, ap, ◌∙◌, subst, ◌≢◌, inl, inr, true, false, some, List, arith,
}
use waltex.Blockdev.{BlockDev, sector_size}
use waltex.CString.{text}
use waltex.Dev.{Registry, dev_max, DevEntry, get, dev_block, dev_name_max}
use waltex.Dev.Invariant.{extend-IsRegistry, entry_at_last, IsRegistry, extend, entry_at_old}
use waltex.Dev.Register.{register_accepted, register-Passes, register_iff}
use waltex.Devfs.{Devfs, init, zero_inode, dev_lookup, device_at}
use waltex.Devfs.Agree.{dev_lookup-served, served-lt, get-entry_at}
use waltex.Devfs.Prepare.{IsDevfs}
use waltex.Devio.Entry.{
  CharDev, DeviceInode, fill_inode, blockdev_register, ops_blockdev, device_entry, chardev_of,
  blockdev_of,
}
use waltex.Devio.Registered.{disk_entry, text-copy_name, disk-accepted, after_disk}
use waltex.Vfs.Types.{inode_blockdev}

zeros_everywhere : (n i : ℕ) → get_or (replicate n zero_inode) i zero_inode ≡ zero_inode
zeros_everywhere zero i = refl
zeros_everywhere (suc n) zero = refl
zeros_everywhere (suc n) (suc i) = zeros_everywhere n i

get-extend :
    (r : Registry) (e : DevEntry) (i : ℕ) → i < r.curr → get (extend r e) (pos i) ≡ get r (pos i)
unfolding get
get-extend r e i lt =
    let before : leb r.curr i ≡ false = ground arith in
    let after : leb (r.curr + 1) i ≡ false = ground arith in
    rw (before, after) (ap some (entry_at_old r e i lt))

module _ {W D : Type 0} (chardev_at : ℕ → CharDev W) (blockdev_at : ℕ → BlockDev D) where
  -- devfs_init makes a pool that agrees with any registry.
  pub init-IsDevfs : (r : Registry) → IsDevfs chardev_at blockdev_at r init
  unfolding init
  init-IsDevfs r = record { size = refl; slots = λ i. inl (zeros_everywhere dev_max i) }

  -- The inodes that are handed out stay those of their devices when one more is registered.
  extend-IsDevfs :
      (r : Registry) (d : Devfs) (e : DevEntry)
      → IsRegistry r
      → IsDevfs chardev_at blockdev_at r d
      → IsDevfs chardev_at blockdev_at (extend r e) d
  extend-IsDevfs r d e wr w = record {
    size = w.size;
    slots = λ i. elim (w.slots i) [
      | inl zeros ↦ inl zeros
      | inr (same, on) ↦
          let old = get-extend r e i (served-lt chardev_at blockdev_at r wr i on) in
          inr (
            same
                ∙ ap
                    (λ o. record (fill_inode chardev_at blockdev_at o zero_inode).1 { ino = 3 + i })
                    (sym old),
            ap (λ o. (fill_inode chardev_at blockdev_at o zero_inode).0) old ∙ on,
          )
    ];
  }

  -- The inode of a disk at a place of the registry.
  abbrev pub disk_inode : ℕ → ℕ → ℕ → ℕ → DeviceInode
  disk_inode major minor b i = record {
    ino = 3 + i;
    kind = inode_blockdev;
    size = (blockdev_at b).nsectors * sector_size % 2 ^ 32;
    ops = ops_blockdev;
    priv = b;
    major = major;
    minor = minor;
  }

  disk-filled :
      (name : List ℕ) (major minor b i : ℕ)
      → b ≢ 0
      → let answer =
          fill_inode chardev_at blockdev_at
            (some (device_entry name dev_block major minor b))
            zero_inode in
        (answer.0 ≡ true) × (record answer.1 { ino = 3 + i } ≡ disk_inode major minor b i)
  unfolding fill_inode device_entry chardev_of blockdev_of
  disk-filled name major minor b i nonzero =
      let null : (b == 0) ≡ false = eq_false (b == 0) (λ e. nonzero (==→eq b 0 e)) in
      rw null (refl, refl)

  -- A disk that is registered after devfs_init, by a call of blockdev_register that succeeds, is in
  -- /dev at once: dev_lookup finds it under its name, and its inode has the disk's address, its
  -- numbers and the size of its sectors modulo 2^32. The pool goes on agreeing with the registry,
  -- so the inodes handed out before are unchanged.
  pub dev_lookup-after_disk :
      (r : Registry) (d : Devfs) (name : List ℕ) (major minor b : ℕ)
      → IsRegistry r
      → IsDevfs chardev_at blockdev_at r d
      → (blockdev_register chardev_at blockdev_at r (some name) major minor b).0 ≡ pos 0
      → let r' = after_disk chardev_at blockdev_at r name major minor b in
        IsDevfs chardev_at blockdev_at r' d
        × ((dev_lookup chardev_at blockdev_at r' d name).0 ≡ some r.curr)
        × (device_at (dev_lookup chardev_at blockdev_at r' d name).1 r.curr ≡ record {
          ino = 3 + r.curr;
          kind = inode_blockdev;
          size = (blockdev_at b).nsectors * sector_size % 2 ^ 32;
          ops = ops_blockdev;
          priv = b;
          major = major;
          minor = minor;
        })
  unfolding device_entry
  dev_lookup-after_disk r d name major minor b wr w accepted =
      let e = disk_entry chardev_at blockdev_at r name major minor b in
      let (nonzero, readable, same, took) =
        disk-accepted chardev_at blockdev_at r name major minor b accepted in
      let a = (register_iff r e).0 took in
      let grown : extend r e ≡ after_disk chardev_at blockdev_at r name major minor b =
        sym (ap (λ p. p.1) (same ∙ register_accepted r e ((register-Passes r e).0 took))) in
      let wide = extend-IsRegistry r e wr a in
      let kept = extend-IsDevfs r d e wr w in
      let last = entry_at_last r e wr a.room in
      let at : get (extend r e) (pos r.curr) ≡ some e =
        get-entry_at chardev_at blockdev_at (extend r e) wide r.curr (omega arith) ∙ ap some last in
      let (on, filled) = disk-filled name major minor b r.curr nonzero in
      let (found, inode) =
        dev_lookup-served chardev_at blockdev_at (extend r e) wide d r.curr name kept (omega arith)
          (ap (λ x. text x.name) last ∙ text-copy_name dev_name_max name a.terminated)
          (ap (λ o. (fill_inode chardev_at blockdev_at o zero_inode).0) at ∙ on) in
      subst
        (λ r'.
          IsDevfs chardev_at blockdev_at r' d
          × ((dev_lookup chardev_at blockdev_at r' d name).0 ≡ some r.curr)
          × (device_at (dev_lookup chardev_at blockdev_at r' d name).1 r.curr
              ≡ disk_inode major minor b r.curr))
        grown
        (
          kept,
          found,
          inode
              ∙ (ap
                    (λ o. record (fill_inode chardev_at blockdev_at o zero_inode).1 {
                      ino = 3 + r.curr;
                    })
                    at
                  ∙ filled),
        )
