-- ===== src/Vfs/Descriptors.antt =====
-- The table of files and the descriptors of kernel/vfs.c. `t` is what task_current() returns.
use waltex.Base.{
  leb, ◌==◌, if◌then◌else◌, ℤ, pos, negsuc, is_some, get_or, set, first_index, ℕ, ◌+◌, ◌*◌, Bool,
  true, false, not, Option, none, some,
}
use waltex.Vfs.Types.{max_tasks, max_open_files, Vfs, File, closed_file, task_fds}

-- A call that may read or write outside an array or through a null pointer.
pub data Outcome (A : Type 0) : Type 0 where
  fault : Outcome A
  ok : A → Outcome A

-- `fds[t][fd]`
abbrev pub fd_index : ℕ → ℕ → ℕ
fd_index t fd = t * task_fds + fd

-- get_file_from_fd, as the index of the slot.
unfoldable pub get_file_from_fd : Vfs → ℕ → ℤ → Option ℕ
get_file_from_fd v t (negsuc n) = none
get_file_from_fd v t (pos fd) =
    if leb task_fds fd
    then none
    else if leb max_tasks t
    then none
    else get_or v.fds (fd_index t fd) none

abbrev pub file_at : Vfs → ℕ → File
file_at v slot = get_or v.files slot closed_file

-- The loop of file_alloc.
unfoldable pub free_file : Vfs → Option ℕ
free_file v = first_index (λ i. (file_at v i).inode == 0) 0 max_open_files

-- What file_alloc does with the slot that its loop found.
unfoldable pub take_slot : Vfs → ℕ → ℕ → Option ℕ → Option ℕ × Vfs
take_slot v ino flags none = (none, v)
take_slot v ino flags (some slot) = (
  some slot,
  record v { files = set v.files slot (record { inode = ino; off = 0; flags = flags }) },
)

-- file_alloc: the slot, and the table with it taken. The interrupts are off from the test to the
-- store, so nothing comes between.
unfoldable pub file_alloc : Vfs → ℕ → ℕ → Option ℕ × Vfs
unfolding take_slot
file_alloc v ino flags = take_slot v ino flags (free_file v)

-- The loop of fd_alloc over the row of task `t`.
unfoldable pub free_fd : Vfs → ℕ → Option ℕ
free_fd v t = first_index (λ i. not (is_some (get_or v.fds (fd_index t i) none))) 0 task_fds

-- What fd_alloc does with the descriptor that its loop found.
unfoldable pub take_fd : Vfs → ℕ → ℕ → Option ℕ → Option ℕ × Vfs
take_fd v t slot none = (none, v)
take_fd v t slot (some fd) = (some fd, record v { fds = set v.fds (fd_index t fd) (some slot) })

-- fd_alloc
unfoldable pub fd_alloc : Vfs → ℕ → ℕ → Option ℕ × Vfs
unfolding take_fd
fd_alloc v t slot = take_fd v t slot (free_fd v t)

-- `files[slot].inode = 0`
abbrev pub release_slot : Vfs → ℕ → Vfs
release_slot v slot = record v {
  files = set v.files slot (record (get_or v.files slot closed_file) { inode = 0 });
}

-- The end of vfs_open, given what fd_alloc answered: without a descriptor the slot is given back.
unfoldable pub keep_or_release : ℕ → Option ℕ × Vfs → Option ℕ × Vfs
keep_or_release slot (none, v) = (none, release_slot v slot)
keep_or_release slot (some fd, v) = (some fd, v)

-- vfs_open after file_alloc.
unfoldable pub open_slot : ℕ → Option ℕ × Vfs → Option ℕ × Vfs
unfolding keep_or_release fd_alloc
open_slot t (none, v) = (none, v)
open_slot t (some slot, v) = keep_or_release slot (fd_alloc v t slot)

-- The second half of vfs_open, once the inode is there: the descriptor, or -1.
unfoldable pub open_inode : Vfs → ℕ → ℕ → ℕ → Option ℕ × Vfs
unfolding open_slot file_alloc
open_inode v t ino flags = open_slot t (file_alloc v ino flags)

-- vfs_close: 0 or -1. Only the negative `fd` is refused, so `fds[t][fd]` may be another task's
-- entry, and past the whole array it is a fault.
unfoldable pub close : Vfs → ℕ → ℤ → Outcome (Bool × Vfs)
close v t (negsuc n) = ok (false, v)
close v t (pos fd) =
    if leb (max_tasks * task_fds) (fd_index t fd)
    then fault
    else if is_some (get_or v.fds (fd_index t fd) none)
    then ok (true, record v { fds = set v.fds (fd_index t fd) none })
    else ok (false, v)
