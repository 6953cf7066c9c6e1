-- ===== src/Vfs/Examples.antt =====
-- kernel/vfs.c over a small filesystem: / holds the directory dev, which holds the file tty.
use waltex.Base.{
  ltb, ◌==◌, if◌then◌else◌, pos, negsuc, length, get_or, set, take, drop, replicate,
  get_or-replicate_default, first_index, ℕ, zero, suc, ◌+◌, ◌≤◌, ◌≡◌, refl, sym, ap, ◌∙◌, ◌≢◌, true,
  ◌&&◌, Option, none, some, List, [], ◌∷◌, arith,
}
use waltex.CString.{str_eq, strchr, strcmp, strlen, IsText}
use waltex.Vfs.Calls.{read, write}
use waltex.Vfs.Close.{close-other_task, close-Closed, Closed}
use waltex.Vfs.Create.{spezza_path}
use waltex.Vfs.Descend.{resolve_ends}
use waltex.Vfs.Descriptors.{close, get_file_from_fd, open_inode, free_fd, free_file, ok}
use waltex.Vfs.Follow.{resolve-Resolves, Resolves}
use waltex.Vfs.Keep.{open_inode-IsVfs}
use waltex.Vfs.Leak.{opened, Run, opens-le, taken_files, start, closed}
use waltex.Vfs.Mounts.{mount_at-Mounted, Mounted}
use waltex.Vfs.Offsets.{seek-Moved, Moved}
use waltex.Vfs.Open.{IsVfs, Opened, open_inode-Opened}
use waltex.Vfs.Pieces.{Holds, read-append, and_then}
use waltex.Vfs.Resolve.{risolvi_mount, resolve, stuck, skip_slashes, found, component_length}
use waltex.Vfs.Seek.{free_slot_mount, other_whence, seek, seek_end, mount_at}
use waltex.Vfs.Split.{spezza_path-SplitOf, SplitOf}
use waltex.Vfs.Transfer.{write-Advanced, WriteAdvanced}
use waltex.Vfs.Types.{
  Vfs, InodeOps, Inode, closed_file, inode_file, o_rdonly, inode_dir, Mount, o_rdwr,
}

abbrev dev : List ℕ
dev = b'd' ∷ b'e' ∷ b'v' ∷ []

abbrev tty : List ℕ
tty = b't' ∷ b't' ∷ b'y' ∷ []

abbrev slash_dev_tty : List ℕ
slash_dev_tty = b'/' ∷ b'd' ∷ b'e' ∷ b'v' ∷ b'/' ∷ b'/' ∷ b't' ∷ b't' ∷ b'y' ∷ []

abbrev hello : List ℕ
hello = b'h' ∷ b'e' ∷ b'l' ∷ b'l' ∷ b'o' ∷ []

-- Inode 1 is /, 2 is dev, 3 is tty. The world is a counter that nobody changes.
abbrev small_lookup : ℕ → List ℕ → ℕ → Option ℕ × ℕ
small_lookup ino name w = (
  if ino == 1 && str_eq name dev
      then some 2
      else if ino == 2 && str_eq name tty
      then some 3
      else none,
  w,
)

abbrev small_read : ℕ → ℕ → ℕ → ℕ → Option (List ℕ) × ℕ
small_read ino off n w = (some (take n (drop off hello)), w)

abbrev small_ops : InodeOps ℕ
small_ops = record {
  read = some small_read;
  write = some (λ ino off bytes w. (some (length bytes), w));
  lookup = some small_lookup;
  readdir = none;
  create = none;
}

abbrev small : ℕ → ℕ → Inode ℕ
small w ino = record {
  kind = if ltb ino 3 then inode_dir else inode_file;
  size = 5;
  ops = some small_ops;
}

abbrev opened_tables : List Mount → Vfs
opened_tables ms = record {
  root = 1;
  files = record { inode = 3; off = 1; flags = o_rdonly } ∷ replicate 31 closed_file;
  fds = some 0 ∷ replicate 63 none;
  mountpoints = ms;
}

abbrev opened_vfs : Vfs
opened_vfs = opened_tables (replicate 4 free_slot_mount)

only_first : (k slot : ℕ) → get_or opened_vfs.fds k none ≡ some slot → (k ≡ 0) × (slot ≡ 0)
only_first zero slot e = (refl, ground arith)
only_first (suc k) slot e = absurd (none-some (sym (get_or-replicate_default 63 k none) ∙ e))
  where
    none-some : {n : ℕ} → ¬ (none ≡ some n)
    none-some e = ground arith

opened_vfs-IsVfs : IsVfs opened_vfs
opened_vfs-IsVfs = record {
  files_size = refl;
  fds_size = refl;
  taken = λ k slot e. rw ((only_first k slot e).1) (omega arith, omega arith);
  apart = λ j k slot e e'. (only_first j slot e).0 ∙ sym (only_first k slot e').0;
}

slash_dev_tty-IsText : IsText slash_dev_tty
slash_dev_tty-IsText = ground arith

-- The filesystem of tty is mounted on /dev: inode 9, whose only name is tty as well.
abbrev mounted_lookup : ℕ → List ℕ → ℕ → Option ℕ × ℕ
mounted_lookup ino name w = (
  if ino == 1 && str_eq name dev
      then some 2
      else if ino == 9 && str_eq name tty
      then some 10
      else none,
  w,
)

abbrev with_mount : ℕ → ℕ → Inode ℕ
with_mount w ino = record {
  kind = if ino == 10 then inode_file else inode_dir;
  size = 5;
  ops = some (record small_ops { lookup = some mounted_lookup });
}

abbrev mounted_vfs : Vfs
mounted_vfs = opened_tables (record { punto = 2; root = 9 } ∷ replicate 3 free_slot_mount)

resolve-Resolves_example :
    Resolves with_mount mounted_vfs slash_dev_tty 0 (resolve with_mount mounted_vfs slash_dev_tty 0)
resolve-Resolves_example =
    resolve-Resolves with_mount mounted_vfs slash_dev_tty 0 slash_dev_tty-IsText

-- The name behind the mount point is looked up in what is mounted there.
found_mounted : resolve with_mount mounted_vfs slash_dev_tty 0 ≡ (found 10, 0)
unfolding resolve risolvi_mount skip_slashes component_length strlen strchr str_eq strcmp
found_mounted = refl

found_tty : resolve small opened_vfs slash_dev_tty 0 ≡ (found 3, 0)
unfolding resolve risolvi_mount skip_slashes component_length strlen strchr str_eq strcmp
found_tty = refl

resolve_ends_run : (resolve small opened_vfs slash_dev_tty 0).0 ≢ stuck
resolve_ends_run = resolve_ends small opened_vfs slash_dev_tty 0 slash_dev_tty-IsText

open_inode-Opened_example : Opened opened_vfs 0 3 o_rdwr (open_inode opened_vfs 0 3 o_rdwr)
open_inode-Opened_example = open_inode-Opened opened_vfs 0 3 o_rdwr opened_vfs-IsVfs

open_inode-IsVfs_run : IsVfs (open_inode opened_vfs 0 3 o_rdwr).1
open_inode-IsVfs_run =
    open_inode-IsVfs opened_vfs 0 3 o_rdwr opened_vfs-IsVfs (omega arith) (omega arith)

close-Closed_example : Closed opened_vfs 0 (close opened_vfs 0 (pos 0))
close-Closed_example = close-Closed opened_vfs 0 0 opened_vfs-IsVfs

-- Task 0 closes its descriptor 8, which is descriptor 0 of task 1.
close-other_task_example : close opened_vfs 0 (pos 8) ≡ close opened_vfs 1 (pos 0)
close-other_task_example = close-other_task opened_vfs 0 8

abbrev closed_tables : Vfs
closed_tables = record opened_vfs { fds = set opened_vfs.fds 0 none }

closes : close opened_vfs 0 (pos 0) ≡ ok (true, closed_tables)
unfolding close
closes = refl

reopened : Run opened_vfs 1 (open_inode closed_tables 0 3 2).1
unfolding open_inode first_index free_file free_fd
reopened =
    opened {v' = closed_tables} 0 3 2 (omega arith) (omega arith) refl
      (closed {u = opened_vfs} 0 (pos 0) true closes start)

opens-le_example : 1 + taken_files opened_vfs.files ≤ 32
opens-le_example = opens-le opened_vfs _ 1 opened_vfs-IsVfs reopened

write-Advanced_run :
    WriteAdvanced opened_vfs
      (get_file_from_fd opened_vfs 0 (pos 0))
      (write small opened_vfs 0 (pos 0) hello 0)
write-Advanced_run = write-Advanced small opened_vfs 0 (pos 0) hello 0

tty-Holds : Holds small 0 3 hello
tty-Holds = record {
  there = omega arith;
  kind = refl;
  ops = small_ops;
  has_ops = refl;
  op = small_read;
  has_op = refl;
  law = λ off n. refl;
}

first_entry : get_file_from_fd opened_vfs 0 (pos 0) ≡ some 0
unfolding get_file_from_fd
first_entry = refl

read-append_example :
    and_then (read small opened_vfs 0 (pos 0) 2 0) (λ v' w'. read small v' 0 (pos 0) 9 w')
    ≡ read small opened_vfs 0 (pos 0) (2 + 9) 0
read-append_example =
    read-append small opened_vfs 0 (pos 0) 2 9 0 0 hello opened_vfs-IsVfs first_entry
      (λ e. ground arith) tty-Holds (omega arith) (omega arith)

-- From offset 1, two back and three back from the end of a file of 1 byte.
seek-Moved_example : Moved opened_vfs 0 1 (negsuc 2) true (seek opened_vfs 0 1 (negsuc 2) seek_end)
seek-Moved_example =
    seek-Moved opened_vfs 0 1 (negsuc 2) seek_end seek_end-ne (omega arith, omega arith)
  where
    seek_end-ne : seek_end ≢ other_whence
    seek_end-ne e = cc

mount_at-Mounted_run : Mounted small opened_vfs 2 1 0 (mount_at small opened_vfs 2 1 0)
mount_at-Mounted_run =
    mount_at-Mounted small opened_vfs 2 1 0 refl (λ e. ground arith) (λ e. ground arith)
      (λ j. free j 2 (λ e. ground arith)) (λ j. free j 1 (λ e. ground arith))
  where
    free : (j ino : ℕ) → ino ≢ 0 → (get_or opened_vfs.mountpoints j free_slot_mount).punto ≢ ino
    free j ino ne e = ne (sym e ∙ ap (λ m. m.punto) (get_or-replicate_default 4 j free_slot_mount))

spezza_path-SplitOf_run : SplitOf slash_dev_tty (spezza_path slash_dev_tty)
spezza_path-SplitOf_run = spezza_path-SplitOf slash_dev_tty slash_dev_tty-IsText

split_dev_tty : spezza_path slash_dev_tty ≡ some (b'/' ∷ b'd' ∷ b'e' ∷ b'v' ∷ b'/' ∷ [], tty)
unfolding spezza_path strlen
split_dev_tty = refl
