-- ===== src/Vfs/Mounts.antt =====
-- vfs_mount and risolvi_mount: what a mount changes.
use waltex.Base.{
  ◌==◌, if◌then◌else◌, ==→eq, eq→==, Bool-cases, eq_false, length, get_or, set, FirstIn,
  first_index-FirstIn, ℕ, zero, suc, ◌<◌, ◌≡◌, refl, sym, ap, ◌∙◌, ◌≢◌, ◌⊎◌, inl, inr, Bool, true,
  false, not, ◌&&◌, Option, none, some, List, [], ◌∷◌, arith,
}
use waltex.Vfs.Resolve.{mounted_on, follow_mounts, risolvi_mount}
use waltex.Vfs.Seek.{free_slot_mount, free_mount, mount_at, place_mount}
use waltex.Vfs.Types.{Inode, max_mounts, is_dir, Vfs, Mount}

-- Nothing is mounted on an inode.
abbrev pub NotMounted : List Mount → ℕ → Type 0
NotMounted ms ino = (j : ℕ) → (get_or ms j free_slot_mount).punto ≢ ino

mounted_on-NotMounted :
    (ms : List Mount) (ino : ℕ) → ino ≢ 0 → NotMounted ms ino → mounted_on ms ino ≡ 0
unfolding mounted_on
mounted_on-NotMounted [] ino ne free = refl
mounted_on-NotMounted (m ∷ ms) ino ne free =
    let rest = mounted_on-NotMounted ms ino ne (λ j. free (suc j)) in
    let here = free 0 in
    rw (eq_false (m.punto == ino) (λ e. here (==→eq _ _ e))) (ground (arith, rest))

-- The new mount is the one that is found, where the slot was the first free one.
mounted_on-set :
    (ms : List Mount) (i punto radice : ℕ)
    → i < length ms
    → punto ≢ 0
    → NotMounted ms punto
    → mounted_on (set ms i (record { punto = punto; root = radice })) punto ≡ radice
unfolding mounted_on
mounted_on-set [] i punto radice lt ne free = absurd (omega arith)
mounted_on-set (m ∷ ms) zero punto radice lt ne free =
    rw (eq→== punto punto refl) (rw (eq_false (punto == 0) (λ e. ne (==→eq _ _ e))) refl)
mounted_on-set (m ∷ ms) (suc i) punto radice lt ne free =
    let rest = mounted_on-set ms i punto radice (omega arith) ne (λ j. free (suc j)) in
    let here = free 0 in
    rw (eq_false (m.punto == punto) (λ e. here (==→eq _ _ e))) (ground (arith, rest))

-- The other inodes are as before, where the slot was free.
mounted_on-set_other :
    (ms : List Mount) (i punto radice ino : ℕ)
    → (get_or ms i free_slot_mount).punto ≡ 0
    → ino ≢ punto
    → mounted_on (set ms i (record { punto = punto; root = radice })) ino ≡ mounted_on ms ino
unfolding mounted_on
mounted_on-set_other [] i punto radice ino free ne = refl
mounted_on-set_other (m ∷ ms) zero punto radice ino free ne =
    rw (eq_false (punto == ino) (λ e. ne (sym (==→eq _ _ e)))) (rw free (ground arith))
mounted_on-set_other (m ∷ ms) (suc i) punto radice ino free ne =
    ap (λ rest. if not (m.punto == 0) && m.punto == ino then m.root else rest)
      (mounted_on-set_other ms i punto radice ino free ne)

-- What the end of vfs_mount does.
abbrev pub Mounted : {W : Type 0} → (W → ℕ → Inode W) → Vfs → ℕ → ℕ → W → Bool × Vfs → Type 0
Mounted inode v punto radice w (false, v') =
    (v' ≡ v)
    × ((is_dir (inode w punto).kind ≡ false)
        ⊎ ((punto ≡ radice)
            ⊎ ((j : ℕ) → j < max_mounts → (get_or v.mountpoints j free_slot_mount).punto ≢ 0)))
Mounted inode v punto radice w (true, v') =
    (risolvi_mount v'.mountpoints punto ≡ radice)
    × ((ino : ℕ) → ino ≢ punto → mounted_on v'.mountpoints ino ≡ mounted_on v.mountpoints ino)
    × (v'.files ≡ v.files)
    × (v'.fds ≡ v.fds)
    × (v'.root ≡ v.root)

risolvi_mount-once :
    (ms : List Mount) (punto radice : ℕ)
    → mounted_on ms punto ≡ radice
    → radice ≢ 0
    → mounted_on ms radice ≡ 0
    → risolvi_mount ms punto ≡ radice
unfolding risolvi_mount follow_mounts
risolvi_mount-once ms punto radice e ne last = rw e (rw last (ground arith))

module _ {W : Type 0} (inode : W → ℕ → Inode W) where
  place_mount-Mounted :
      (v : Vfs) (punto radice : ℕ) (w : W) (o : Option ℕ)
      → length v.mountpoints ≡ max_mounts
      → punto ≢ 0
      → radice ≢ 0
      → punto ≢ radice
      → NotMounted v.mountpoints punto
      → NotMounted v.mountpoints radice
      → FirstIn (λ i. (get_or v.mountpoints i free_slot_mount).punto == 0) 0 max_mounts o
      → Mounted inode v punto radice w (place_mount v punto radice o)
  unfolding place_mount
  place_mount-Mounted v punto radice w none size np nr ne free_p free_r full =
      (refl, inr (inr (λ j lt. λ e. ground (arith, full j (omega arith) (omega arith)))))
  place_mount-Mounted v punto radice w (some i) size np nr ne free_p free_r (ge, lt, free, before) =
      let other = mounted_on-set_other v.mountpoints i punto radice in
      let was_free = ==→eq _ _ free in
      (
        risolvi_mount-once _ punto radice
            (mounted_on-set v.mountpoints i punto radice (omega (arith, size)) np free_p) nr
            (other radice was_free (λ e. ne (sym e))
              ∙ mounted_on-NotMounted v.mountpoints radice nr free_r),
        λ ino ne. other ino was_free ne,
        refl,
        refl,
        refl,
      )

  -- The end of vfs_mount, where the mount table has its four slots and nothing is mounted on the
  -- mount point or on the new root, which are not null. On success risolvi_mount leads from the
  -- mount point to the new root, what is mounted on any other inode stays, and the files, the
  -- descriptors and the root inode are untouched. On failure nothing changes, and the
  -- mount point is no directory, is the new root, or all four slots are used.
  pub mount_at-Mounted :
      (v : Vfs) (punto radice : ℕ) (w : W)
      → length v.mountpoints ≡ max_mounts
      → punto ≢ 0
      → radice ≢ 0
      → NotMounted v.mountpoints punto
      → NotMounted v.mountpoints radice
      → Mounted inode v punto radice w (mount_at inode v punto radice w)
  unfolding mount_at free_mount
  mount_at-Mounted v punto radice w size np nr free_p free_r =
      elim (Bool-cases (is_dir (inode w punto).kind)) [
        | inr file ↦ rw file (refl, inl file)
        | inl dir ↦ elim (Bool-cases (punto == radice)) [
          | inl same ↦ rw dir (rw same (refl, inr (inl (==→eq _ _ same))))
          | inr differ ↦ rw dir (
              rw differ (
                place_mount-Mounted v punto radice w _ size np nr (λ e. ground arith) free_p free_r
                  (first_index-FirstIn _ 0 max_mounts)))
        ]
      ]
