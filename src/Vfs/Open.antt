-- ===== src/Vfs/Open.antt =====
-- vfs_open after the path is resolved: the lowest free descriptor of the
-- task, on a free slot.
use waltex.Base.{
  ◌==◌, ==→eq, Bool-cases, is_some, not-true, not-false, is_some-none, length, get_or, set,
  length-set, get_or-set_self, get_or-set_ne, first_index, FirstIn, first_index-FirstIn, ℕ, ◌*◌,
  ◌<◌, ◌≡◌, refl, sym, ap, ◌∙◌, ◌≢◌, ◌⊎◌, inl, inr, Bool, true, not, Option, none, some, List,
  arith,
}
use waltex.Vfs.Descriptors.{
  open_inode, free_fd, take_slot, free_file, take_fd, file_alloc, keep_or_release, open_slot,
  fd_index, fd_alloc, file_at,
}
use waltex.Vfs.Types.{max_tasks, task_fds, File, Vfs, closed_file, max_open_files}

-- What the calls keep: the arrays have their sizes, a descriptor is on a slot that is taken, and
-- no two descriptors are on the same slot.
pub record IsVfs (v : Vfs) : Type 0 where
  pub files_size : length v.files ≡ max_open_files
  pub fds_size : length v.fds ≡ max_tasks * task_fds
  pub taken :
      (k slot : ℕ)
      → get_or v.fds k none ≡ some slot
      → (slot < max_open_files) × (0 < (file_at v slot).inode)
  pub apart :
      (j k slot : ℕ) → get_or v.fds j none ≡ some slot → get_or v.fds k none ≡ some slot → j ≡ k

-- The descriptor is the lowest one free in the row of the task.
abbrev pub IsLowest : Vfs → ℕ → ℕ → Type 0
IsLowest v t fd =
    (fd < task_fds)
    × (get_or v.fds (fd_index t fd) none ≡ none)
    × ((j : ℕ) → j < fd → is_some (get_or v.fds (fd_index t j) none) ≡ true)

-- What the second half of vfs_open does to the tables.
abbrev pub Opened : Vfs → ℕ → ℕ → ℕ → Option ℕ × Vfs → Type 0
Opened v t ino flags (none, v') =
    (v'.fds ≡ v.fds)
    × (length v'.files ≡ length v.files)
    × ((j : ℕ) → (file_at v' j).inode ≡ (file_at v j).inode)
    × (((j : ℕ) → j < max_open_files → 0 < (file_at v j).inode)
        ⊎ ((j : ℕ) → j < task_fds → is_some (get_or v.fds (fd_index t j) none) ≡ true))
Opened v t ino flags (some fd, v') =
    IsLowest v t fd
    × ((slot : ℕ) × (slot < max_open_files)
        × ((file_at v slot).inode ≡ 0)
        × (v'.files ≡ set v.files slot (record { inode = ino; off = 0; flags = flags }))
        × (v'.fds ≡ set v.fds (fd_index t fd) (some slot)))

-- The tests of the two loops.
abbrev is_free_file : Vfs → ℕ → Bool
is_free_file v i = (file_at v i).inode == 0

abbrev is_free_fd : Vfs → ℕ → ℕ → Bool
is_free_fd v t i = not (is_some (get_or v.fds (fd_index t i) none))

release-take :
    (fs : List File) (slot j ino flags : ℕ)
    → slot < length fs
    → (get_or fs slot closed_file).inode ≡ 0
    → let taken = set fs slot (record { inode = ino; off = 0; flags = flags }) in
      (get_or
        (set taken slot (record (get_or taken slot closed_file) { inode = 0 }))
        j
        closed_file).inode
      ≡ (get_or fs j closed_file).inode
release-take fs slot j ino flags lt e =
    let made : File = record { inode = ino; off = 0; flags = flags } in
    let freed : File = record (get_or (set fs slot made) slot closed_file) { inode = 0 } in
    elim (Bool-cases (slot == j)) [
      | inl same ↦ rw (← ==→eq slot j same) (
          ap (λ f. f.inode)
            (get_or-set_self (set fs slot made) slot freed closed_file
              (omega (arith, length-set fs slot made)))
          ∙ sym e)
      | inr differ ↦
          let ne : slot ≢ j = λ eq. ground arith in
          ap (λ f. f.inode)
            (get_or-set_ne (set fs slot made) slot j freed closed_file ne
              ∙ get_or-set_ne fs slot j made closed_file ne)
    ]

fd_step :
    (v : Vfs) (t ino flags slot : ℕ) (o : Option ℕ)
    → IsVfs v
    → slot < max_open_files
    → (file_at v slot).inode ≡ 0
    → FirstIn (is_free_fd v t) 0 task_fds o
    → Opened v t ino flags (
        keep_or_release slot (
          take_fd
            (record v { files = set v.files slot (record { inode = ino; off = 0; flags = flags }) })
            t
            slot
            o))
unfolding keep_or_release take_fd
fd_step v t ino flags slot none w lt e nobody = (
  refl,
  length-set (set v.files slot (record { inode = ino; off = 0; flags = flags })) slot _
      ∙ length-set v.files slot _,
  λ j. release-take v.files slot j ino flags (omega (arith, w.files_size)) e,
  inr (λ j lt. not-false (nobody j (omega arith) (omega arith))),
)
fd_step v t ino flags slot (some fd) w lt e (ge, small, free, before) = (
  (small, is_some-none _ (not-true free), λ j lt. not-false (before j (omega arith) lt)),
  (slot, lt, e, refl, refl),
)

file_step :
    (v : Vfs) (t ino flags : ℕ) (o : Option ℕ)
    → IsVfs v
    → FirstIn (is_free_file v) 0 max_open_files o
    → Opened v t ino flags (open_slot t (take_slot v ino flags o))
unfolding open_slot fd_alloc free_fd take_slot
file_step v t ino flags none w full =
    (refl, refl, λ j. refl, inl (λ j lt. ground (arith, full j (omega arith) (omega arith))))
file_step v t ino flags (some slot) w (ge, lt, free, before) =
    fd_step v t ino flags slot (first_index (is_free_fd v t) 0 task_fds) w (omega arith)
      (==→eq _ _ free) (first_index-FirstIn (is_free_fd v t) 0 task_fds)

-- vfs_open on an inode, on whole tables. A descriptor that it returns is the lowest free one of
-- the task, and the tables change in two places only: the descriptor is put on a slot that was
-- free, and the slot holds the inode, the offset 0 and the flags. It fails only if every slot or
-- every descriptor of the task is taken, and then no descriptor changes and every slot that was
-- free is free.
pub open_inode-Opened :
    (v : Vfs) (t ino flags : ℕ) → IsVfs v → Opened v t ino flags (open_inode v t ino flags)
unfolding open_inode file_alloc free_file
open_inode-Opened v t ino flags w =
    file_step v t ino flags (first_index (is_free_file v) 0 max_open_files) w
      (first_index-FirstIn (is_free_file v) 0 max_open_files)
