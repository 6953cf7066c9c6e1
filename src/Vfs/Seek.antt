-- ===== src/Vfs/Seek.antt =====
-- vfs_lseek and vfs_mount of kernel/vfs.c.
use waltex.Base.{
  ◌==◌, if◌then◌else◌, ℤ, negsuc, get_or, set, first_index, ℕ, Bool, true, false, not, Option, none,
  some, List,
}
use waltex.Vfs.Calls.{set_off, add32, to_int32, of_int32, is_negative}
use waltex.Vfs.Descriptors.{get_file_from_fd, file_at}
use waltex.Vfs.Resolve.{found, resolve}
use waltex.Vfs.Types.{Vfs, Mount, Inode, is_dir, max_mounts}

-- SEEK_SET, SEEK_CUR, SEEK_END; `other_whence` is any other value.
pub data Whence : Type 0 where
  seek_set seek_cur seek_end other_whence : Whence

-- The `switch` of vfs_lseek on an open file: the result, and the table afterwards.
unfoldable pub seek : Vfs → ℕ → ℕ → ℤ → Whence → ℤ × Vfs
seek v slot size off seek_set =
    if is_negative off
    then (negsuc 0, v)
    else (to_int32 (of_int32 off), set_off v slot (of_int32 off))
seek v slot size off seek_cur =
    let o = add32 (file_at v slot).off (of_int32 off) in
    if is_negative (to_int32 o) then (negsuc 0, v) else (to_int32 o, set_off v slot o)
seek v slot size off seek_end = let o = add32 size (of_int32 off) in (to_int32 o, set_off v slot o)
seek v slot size off other_whence = (negsuc 0, v)

abbrev pub free_slot_mount : Mount
free_slot_mount = record { punto = 0; root = 0 }

-- The loop of vfs_mount: the first free slot of the mount table.
unfoldable pub free_mount : Vfs → Option ℕ
free_mount v = first_index (λ i. (get_or v.mountpoints i free_slot_mount).punto == 0) 0 max_mounts

-- What vfs_mount does with the slot that its loop found.
unfoldable pub place_mount : Vfs → ℕ → ℕ → Option ℕ → Bool × Vfs
place_mount v punto radice none = (false, v)
place_mount v punto radice (some i) =
    (true, record v { mountpoints = set v.mountpoints i (record { punto = punto; root = radice }) })

module _ {W : Type 0} (inode : W → ℕ → Inode W) where
  -- vfs_lseek
  unfoldable pub lseek : Vfs → ℕ → ℤ → ℤ → Whence → W → ℤ × Vfs
  unfolding seek
  lseek v t fd off whence w = elim (get_file_from_fd v t fd) [
    | none ↦ (negsuc 0, v)
    | some slot ↦ seek v slot (inode w (file_at v slot).inode).size off whence
  ]

  -- The end of vfs_mount, once the path is resolved to `punto`.
  unfoldable pub mount_at : Vfs → ℕ → ℕ → W → Bool × Vfs
  unfolding place_mount free_mount
  mount_at v punto radice w =
      let placed = place_mount v punto radice (free_mount v) in
      if not (is_dir (inode w punto).kind)
      then (false, v)
      else if punto == radice
      then (false, v)
      else placed

  -- vfs_mount: `true` for 0, `false` for -1.
  unfoldable pub mount : Vfs → List ℕ → ℕ → W → (Bool × Vfs) × W
  unfolding mount_at
  mount v path radice w =
      let (there, w') = resolve inode v path w in
      if radice == 0
      then ((false, v), w)
      else if not (is_dir (inode w radice).kind)
      then ((false, v), w)
      else elim there [ found punto ↦ (mount_at v punto radice w', w') | _ ↦ ((false, v), w') ]
