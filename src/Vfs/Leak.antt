-- ===== src/Vfs/Leak.antt =====
-- vfs_close frees no slot of the table of files: what a run of vfs_open and vfs_close comes to.
use waltex.Base.{
  ◌==◌, if◌then◌else◌, ℤ, is_some, is_some-none, is_some-some, length, get_or, set, ℕ, zero, suc,
  ◌+◌, ◌≤◌, ◌<◌, ◌≡◌, refl, ap, ap₂, ◌∙◌, Bool, true, false, Option, none, some, List, [], ◌∷◌,
  arith,
}
use waltex.Vfs.Close.{close-IsVfs}
use waltex.Vfs.Descriptors.{open_inode, close, ok}
use waltex.Vfs.Keep.{open_inode-IsVfs}
use waltex.Vfs.Open.{IsVfs, open_inode-Opened, Opened}
use waltex.Vfs.Types.{File, max_open_files, closed_file, Vfs, max_tasks}

-- The tables after calls of vfs_open that reached an inode, by tasks of the table, and of
-- vfs_close within the array of descriptors, in any order. The number counts the calls of vfs_open that returned a descriptor.
pub data Run (v : Vfs) : ℕ → Vfs → Type 0 where
  start : Run v 0 v
  opened :
      {n : ℕ} {v' : Vfs} (t ino flags : ℕ)
      → t < max_tasks
      → 0 < ino
      → is_some (open_inode v' t ino flags).0 ≡ true
      → Run v n v'
      → Run v (suc n) (open_inode v' t ino flags).1
  failed :
      {n : ℕ} {v' : Vfs} (t ino flags : ℕ)
      → t < max_tasks
      → 0 < ino
      → is_some (open_inode v' t ino flags).0 ≡ false
      → Run v n v'
      → Run v n (open_inode v' t ino flags).1
  closed :
      {n : ℕ} {u v' : Vfs} (t : ℕ) (fd : ℤ) (b : Bool)
      → close u t fd ≡ ok (b, v')
      → Run v n u
      → Run v n v'

-- How many slots are taken.
pub taken_files : List File → ℕ
taken_files [] = 0
taken_files (f ∷ fs) = (if f.inode == 0 then 0 else 1) + taken_files fs

taken_files-le : (fs : List File) → taken_files fs ≤ length fs
unfolding taken_files
taken_files-le [] = omega arith
taken_files-le (f ∷ fs) = ground (arith, taken_files-le fs)

taken_files-set :
    (fs : List File) (i : ℕ) (f : File)
    → i < length fs
    → (get_or fs i closed_file).inode ≡ 0
    → 0 < f.inode
    → taken_files (set fs i f) ≡ suc (taken_files fs)
unfolding taken_files
taken_files-set [] i f lt free h = absurd (omega arith)
taken_files-set (g ∷ fs) zero f lt free h = ground arith
taken_files-set (g ∷ fs) (suc i) f lt free h =
    ground (arith, taken_files-set fs i f (omega arith) free h)

taken_files-same :
    (fs gs : List File)
    → length fs ≡ length gs
    → ((j : ℕ) → (get_or fs j closed_file).inode ≡ (get_or gs j closed_file).inode)
    → taken_files fs ≡ taken_files gs
unfolding taken_files
taken_files-same [] [] e same = refl
taken_files-same [] (g ∷ gs) e same = absurd (omega arith)
taken_files-same (f ∷ fs) [] e same = absurd (omega arith)
taken_files-same (f ∷ fs) (g ∷ gs) e same =
    ap₂ (λ a b. (if a == 0 then 0 else 1) + b) (same 0)
      (taken_files-same fs gs (omega arith) (λ j. same (suc j)))

abbrev bump : Option ℕ → ℕ → ℕ
bump none n = n
bump (some fd) n = suc n

open_inode-taken_files :
    (v : Vfs) (t ino flags : ℕ) (result : Option ℕ × Vfs)
    → IsVfs v
    → 0 < ino
    → Opened v t ino flags result
    → taken_files result.1.files ≡ bump result.0 (taken_files v.files)
open_inode-taken_files v t ino flags (none, v') w h (fds, size, inodes, full) =
    taken_files-same v'.files v.files size inodes
open_inode-taken_files v t ino flags (some fd, v') w h
      (lowest, (slot, in_range, free, files, fds)) =
    ap taken_files files ∙ taken_files-set v.files slot _ (omega (arith, w.files_size)) free h

Run-taken :
    (v v' : Vfs) (n : ℕ)
    → IsVfs v
    → Run v n v'
    → IsVfs v' × (taken_files v'.files ≡ n + taken_files v.files)
Run-taken v v' n w start = (w, omega arith)
Run-taken v v' n w (opened {n = m} {v' = u} t ino flags lt h opens r) =
    let before = Run-taken v u m w r in
    let one =
      open_inode-taken_files u t ino flags _ before.0 h
        (open_inode-Opened u t ino flags before.0) in
    let found_one = is_some-some _ opens in
    (
      open_inode-IsVfs u t ino flags before.0 lt h,
      omega (arith, one ∙ ap (λ o. bump o (taken_files u.files)) found_one.1, before.1),
    )
Run-taken v v' n w (failed {n = m} {v' = u} t ino flags lt h fails r) =
    let before = Run-taken v u m w r in
    let one =
      open_inode-taken_files u t ino flags _ before.0 h
        (open_inode-Opened u t ino flags before.0) in
    (
      open_inode-IsVfs u t ino flags before.0 lt h,
      omega (arith, one ∙ ap (λ o. bump o (taken_files u.files)) (is_some-none _ fails), before.1),
    )
Run-taken v v' n w (closed {n = m} {u = u} t fd b closes r) =
    let before = Run-taken v u m w r in
    let (whole, files) = close-IsVfs u v' t fd b before.0 closes in
    (whole, ap taken_files files ∙ before.1)

-- From whole tables, whatever the tasks open and close and in whatever order, with descriptors within the array,, at most as many
-- calls of vfs_open succeed as slots of the table of files were free at the start: vfs_close
-- gives none back.
pub opens-le :
    (v v' : Vfs) (n : ℕ) → IsVfs v → Run v n v' → n + taken_files v.files ≤ max_open_files
opens-le v v' n w r =
    let after = Run-taken v v' n w r in
    omega (arith, after.1, after.0.files_size, taken_files-le v'.files)
