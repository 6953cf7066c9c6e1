-- ===== src/Devfs/Prepare.antt =====
-- prepara of kernel/devfs.c: the pool of inodes agrees with the registry, and grows with it.
use waltex.Base.{
  ◌==◌, pos, ==→eq, Bool-cases, length, length-set, get_or-set_self, get_or-set_ne, ℕ, ◌+◌, ◌<◌,
  ◌≡◌, refl, sym, ap, ◌∙◌, subst, ◌⊎◌, inl, inr, Bool, true, false, Option, none, some, arith,
}
use waltex.Blockdev.{BlockDev}
use waltex.Dev.{Registry, dev_max, DevEntry, get}
use waltex.Devfs.{set_device, Devfs, prepara, device_at, zero_inode, number}
use waltex.Devio.Entry.{CharDev, DeviceInode, fill_inode}

module _ {W D : Type 0} (chardev_at : ℕ → CharDev W) (blockdev_at : ℕ → BlockDev D) where
  -- A device is served where devio_fill_inode accepts its entry.
  abbrev pub serves : Registry → ℕ → Bool
  serves r i = (fill_inode chardev_at blockdev_at (get r (pos i)) zero_inode).0

  -- The inode of a device that is served.
  abbrev pub served_inode : Registry → ℕ → DeviceInode
  served_inode r i = record (fill_inode chardev_at blockdev_at (get r (pos i)) zero_inode).1 {
    ino = 3 + i;
  }

  -- The pool is whole, every slot is zeros or the inode of a device that is served.
  pub record IsDevfs (r : Registry) (d : Devfs) : Type 0 where
    pub size : length d.devices ≡ dev_max
    pub slots :
        (i : ℕ)
        → (device_at d i ≡ zero_inode) ⊎ ((device_at d i ≡ served_inode r i) × (serves r i ≡ true))

  -- A slot may be set to its inode, or to zeros.
  set_device-IsDevfs :
      (r : Registry) (d : Devfs) (i : ℕ) (inode : DeviceInode)
      → IsDevfs r d
      → i < dev_max
      → (inode ≡ zero_inode) ⊎ ((inode ≡ served_inode r i) × (serves r i ≡ true))
      → IsDevfs r (set_device d i inode)
  set_device-IsDevfs r d i inode w lt fits = record {
    size = length-set d.devices i inode ∙ w.size;
    slots = λ j. elim (Bool-cases (i == j)) [
      | inl here ↦
          subst
            (λ k.
              (device_at (set_device d i inode) k ≡ zero_inode)
              ⊎ ((device_at (set_device d i inode) k ≡ served_inode r k) × (serves r k ≡ true)))
            (==→eq i j here)
            (rw (get_or-set_self d.devices i inode zero_inode (omega (arith, w.size))) fits)
      | inr away ↦ rw (get_or-set_ne d.devices i j inode zero_inode (ground arith)) (w.slots j)
    ];
  }

  fill_inode-refused :
      (o : Option DevEntry) (inode : DeviceInode)
      → (fill_inode chardev_at blockdev_at o inode).0 ≡ false
      → (fill_inode chardev_at blockdev_at o inode).1 ≡ inode
  unfolding fill_inode
  fill_inode-refused none inode refused = refl
  fill_inode-refused (some e) inode refused = ground arith

  pub record Prepared (r : Registry) (d : Devfs) (i : ℕ) (served : Bool) (after : Devfs)
      : Type 0 where
    pub answer : served ≡ serves r i
    pub kept : IsDevfs r after
    pub filled : served ≡ true → device_at after i ≡ served_inode r i

  number-Prepared :
      (r : Registry) (d : Devfs) (i : ℕ) (p : Bool × DeviceInode)
      → IsDevfs r d
      → i < dev_max
      → fill_inode chardev_at blockdev_at (get r (pos i)) zero_inode ≡ p
      → Prepared r d i (number d i p).0 (number d i p).1
  number-Prepared r d i (false, inode) w lt e =
      let same = fill_inode-refused (get r (pos i)) zero_inode (ap (λ q. q.0) e) in
      record {
        answer = sym (ap (λ q. q.0) e);
        kept = set_device-IsDevfs r d i inode w lt (inl (sym (ap (λ q. q.1) e) ∙ same));
        filled = λ absurd_case. absurd (cc absurd_case);
      }
  number-Prepared r d i (true, inode) w lt e =
      let same : record inode { ino = 3 + i } ≡ served_inode r i =
        ap (λ q. record q.1 { ino = 3 + i }) (sym e) in
      let served : serves r i ≡ true = ap (λ q. q.0) e in
      record {
        answer = sym served;
        kept = set_device-IsDevfs r d i (record inode { ino = 3 + i }) w lt (inr (same, served));
        filled = λ u.
            get_or-set_self d.devices i (record inode { ino = 3 + i }) zero_inode
              (omega (arith, w.size))
            ∙ same;
      }

  -- prepara answers whether the device is served, keeps the pool in agreement with the registry,
  -- and leaves in the slot of a device that is served its inode, the same at every call.
  pub prepara-Prepared :
      (r : Registry) (d : Devfs) (i : ℕ)
      → IsDevfs r d
      → i < dev_max
      → Prepared r d i
          (prepara chardev_at blockdev_at r d i).0
          (prepara chardev_at blockdev_at r d i).1
  unfolding prepara
  prepara-Prepared r d i w lt = elim (w.slots i) [
    | inr (same, served) ↦
        let used : ((device_at d i).ino == 0) ≡ false = rw same (ground arith) in
        rw used (record { answer = sym served; kept = w; filled = λ e. same })
    | inl unused ↦
        let zeros : ((device_at d i).ino == 0) ≡ true = rw unused refl in
        rw (zeros, unused)
          (number-Prepared r d i (fill_inode chardev_at blockdev_at (get r (pos i)) zero_inode) w lt
            refl)
  ]
