-- ===== src/Procfs.antt =====
-- kernel/procfs.c, include/procfs.h: /proc over the table of tasks. A pointer to one of the static
-- inodes is the name of that inode.
pub mod Status
pub mod Names
pub mod Listing
pub mod Text
pub mod Read
mod Examples
use waltex.Base.{
  ltb, leb, ◌==◌, if◌then◌else◌, ℤ, pos, negsuc, get_or, ℕ, zero, suc, ◌+◌, ◌-◌, ◌*◌, ◌%◌, ◌^◌,
  Bool, false, not, ◌||◌, Option, none, some, List, [], ◌∷◌,
}
use waltex.Kprintf.Format.{word, string, Arg, vsnprintf}
use waltex.Task.{blank, Table, max_tasks, Task, slot, is_ready}
use waltex.Vfs.Types.{DirEntry, entry, end, refused, name_max}

-- ino_root, ino_task[i], ino_status[i]
pub data ProcInode : Type 0 where
  ino_root : ProcInode
  ino_task : ℕ → ProcInode
  ino_status : ℕ → ProcInode

-- PROC_INO_ROOT, PROC_INO_TASK, PROC_INO_STATUS: the `ino` of each of them after procfs_init.
unfoldable pub ino_of : ProcInode → ℕ
ino_of ino_root = 1
ino_of (ino_task n) = 2 + n
ino_of (ino_status n) = 2 + max_tasks + n

-- A uint32_t as an int.
abbrev pub as_int : ℕ → ℤ
as_int w = if ltb w (2 ^ 31) then pos w else negsuc (2 ^ 32 - w - 1)

-- PROC_TASK_DA_DIR, PROC_TASK_DA_STATUS
abbrev pub task_da_dir : ℕ → ℤ
task_da_dir ino = as_int ((ino + 2 ^ 32 - 2) % 2 ^ 32)

abbrev pub task_da_status : ℕ → ℤ
task_da_status ino = as_int ((ino + 2 ^ 32 - 2 - max_tasks) % 2 ^ 32)

-- PROC_STATUS_MAX
abbrev pub status_max : ℕ
status_max = 128

abbrev pub is_alive : Option Task → Bool
is_alive none = false
is_alive (some task) = is_ready task.state

-- task_attivo
unfoldable pub task_attivo : Table → ℤ → Bool
unfolding slot
task_attivo t (negsuc n) = false
task_attivo t (pos i) = if leb max_tasks i then false else is_alive (slot t (pos i))

-- The loop of indice_da_nome.
unfoldable pub indice_loop : ℕ → List ℕ → ℤ
indice_loop v [] = pos v
indice_loop v (c ∷ name) =
    let v' = v * 10 + (c - b'0') in
    let rest = indice_loop v' name in
    if c == 0
    then pos v
    else if ltb c b'0' || ltb b'9' c
    then negsuc 0
    else if leb max_tasks v'
    then negsuc 0
    else rest

-- indice_da_nome; `none` is a null pointer.
unfoldable pub indice_da_nome : Option (List ℕ) → ℤ
indice_da_nome none = negsuc 0
indice_da_nome (some name) = if get_or name 0 0 == 0 then negsuc 0 else indice_loop 0 name

-- The format of genera_status.
abbrev pub status_format : List ℕ
status_format =
    b'P' ∷ b'i' ∷ b'd' ∷ b':' ∷ b' ' ∷ b' ' ∷ b' ' ∷ b' ' ∷ b'%' ∷ b'd' ∷ 10 ∷ b'S' ∷ b't' ∷ b'a'
    ∷ b't' ∷ b'e' ∷ b':' ∷ b' ' ∷ b' ' ∷ b'R' ∷ b' ' ∷ b'(' ∷ b'%' ∷ b's' ∷ b')' ∷ 10 ∷ b'E' ∷ b's'
    ∷ b'p' ∷ b':' ∷ b' ' ∷ b' ' ∷ b' ' ∷ b' ' ∷ b'0' ∷ b'x' ∷ b'%' ∷ b'x' ∷ 10 ∷ []

abbrev pub running_text : List ℕ
running_text = b'r' ∷ b'u' ∷ b'n' ∷ b'n' ∷ b'i' ∷ b'n' ∷ b'g' ∷ []

abbrev pub ready_text : List ℕ
ready_text = b'r' ∷ b'e' ∷ b'a' ∷ b'd' ∷ b'y' ∷ []

abbrev pub status_args : Table → ℕ → List Arg
status_args t i =
    word i
    ∷ string (some (if i == t.current then running_text else ready_text))
    ∷ word (get_or t.tasks i blank).esp
    ∷ []

-- The end of genera_status: a text that does not fit is refused.
abbrev pub fitting : ℕ → Option (ℕ × List ℕ) → Option (ℕ × List ℕ)
fitting max none = none
fitting max (some (scritti, buf)) = if leb max scritti then none else some (scritti, buf)

-- genera_status for a buffer that is not null: the length and the buffer, `none` for -1.
unfoldable pub genera_status : Table → ℕ → List ℕ → ℕ → Option (ℕ × List ℕ)
genera_status t i buf max =
    if not (task_attivo t (pos i)) || max == 0
    then none
    else fitting max (vsnprintf buf max status_format (status_args t i))

-- root_lookup. `dir` is the number of the directory's inode, `none` for a null pointer.
abbrev pub found_task : Table → ℤ → Option ProcInode
found_task t (negsuc n) = none
found_task t (pos i) = if not (task_attivo t (pos i)) then none else some (ino_task i)

unfoldable pub root_lookup : Table → Option ℕ → Option (List ℕ) → Option ProcInode
root_lookup t none name = none
root_lookup t (some ino) name =
    if not (ino == ino_of ino_root) then none else found_task t (indice_da_nome name)

-- `snprintf(name, VFS_NAME_MAX + 1, fmt, ...) > VFS_NAME_MAX`, and the entry otherwise.
abbrev pub named_entry : Option (ℕ × List ℕ) → ℕ → DirEntry
named_entry none ino = refused
named_entry (some (n, name)) ino = if ltb name_max n then refused else entry name ino

-- The loop of root_readdir. `name` is the caller's buffer, which the entry has afterwards.
unfoldable pub readdir_loop : Table → ℕ → List ℕ → ℕ → ℕ → ℕ → DirEntry
readdir_loop t idx name zero i visti = end
readdir_loop t idx name (suc k) i visti =
    let skipped = readdir_loop t idx name k (i + 1) visti in
    let counted = readdir_loop t idx name k (i + 1) (visti + 1) in
    if not (task_attivo t (pos i))
    then skipped
    else if visti == idx
    then named_entry (vsnprintf name (name_max + 1) (b'%' ∷ b'd' ∷ []) (word i ∷ []))
        (ino_of (ino_task i))
    else counted

-- root_readdir
unfoldable pub root_readdir : Table → Option ℕ → ℤ → List ℕ → DirEntry
root_readdir t none idx name = refused
root_readdir t (some ino) (negsuc n) name = refused
root_readdir t (some ino) (pos idx) name =
    if not (ino == ino_of ino_root) then refused else readdir_loop t idx name max_tasks 0 0
