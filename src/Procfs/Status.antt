-- ===== src/Procfs/Status.antt =====
-- kernel/procfs.c: the directories /proc/<N>, the reads of their file, and procfs_init.
use waltex.Base.{
  ltb, leb, ◌==◌, if◌then◌else◌, ℤ, pos, negsuc, get_or, ℕ, zero, suc, ◌+◌, ◌-◌, Bool, true, not,
  Option, none, some, List, [], ◌∷◌,
}
use waltex.CString.{str_eq}
use waltex.Kprintf.Format.{vsnprintf}
use waltex.Procfs.{
  task_da_status, task_da_dir, ino_task, ino_status, ino_root, status_max, ino_of, task_attivo,
  genera_status, ProcInode, named_entry,
}
use waltex.Task.{Table, max_tasks}
use waltex.Vfs.Types.{DirEntry, end, refused, name_max, InodeType, inode_dir, inode_file}

-- "status"
abbrev pub status_name : List ℕ
status_name = b's' ∷ b't' ∷ b'a' ∷ b't' ∷ b'u' ∷ b's' ∷ []

abbrev pub status_of : Table → ℤ → List ℕ → Option ProcInode
status_of t (negsuc n) name = none
status_of t (pos i) name =
    if not (task_attivo t (pos i))
    then none
    else if not (str_eq name status_name)
    then none
    else some (ino_status i)

-- task_lookup, on the number of the directory's inode
unfoldable pub task_lookup : Table → Option ℕ → Option (List ℕ) → Option ProcInode
task_lookup t none name = none
task_lookup t (some ino) none = none
task_lookup t (some ino) (some name) = status_of t (task_da_dir ino) name

abbrev pub status_entry : Table → ℤ → ℕ → List ℕ → DirEntry
status_entry t (negsuc n) idx name = refused
status_entry t (pos i) idx name =
    if not (task_attivo t (pos i))
    then refused
    else if ltb 0 idx
    then end
    else named_entry (vsnprintf name (name_max + 1) status_name []) (ino_of (ino_status i))

-- task_readdir
unfoldable pub task_readdir : Table → Option ℕ → ℤ → List ℕ → DirEntry
task_readdir t none idx name = refused
task_readdir t (some ino) (negsuc n) name = refused
task_readdir t (some ino) (pos idx) name = status_entry t (task_da_dir ino) idx name

-- The loop that copies `n` bytes of the text from `off` on.
unfoldable pub copied : List ℕ → ℕ → ℕ → List ℕ
copied testo off zero = []
copied testo off (suc n) = get_or testo off 0 ∷ copied testo (off + 1) n

-- status_read after the text is made.
abbrev pub slice : Option (ℕ × List ℕ) → ℕ → ℕ → Option (List ℕ)
slice none off n = none
slice (some (len, testo)) off n =
    let n' = if ltb (len - off) n then len - off else n in
    if leb len off then some [] else some (copied testo off n')

abbrev pub read_of : Table → ℤ → List ℕ → ℕ → ℕ → Option (List ℕ)
read_of t (negsuc i) testo off n = some []
read_of t (pos i) testo off n =
    if not (task_attivo t (pos i))
    then some []
    else slice (genera_status t i testo status_max) off n

-- status_read into a buffer that is not null: the bytes that it stores, `none` for -1. `testo` is
-- what the stack holds where the text will be.
unfoldable pub status_read : Table → Option ℕ → List ℕ → ℕ → ℕ → Option (List ℕ)
unfolding copied
status_read t none testo off n = none
status_read t (some ino) testo off n =
    if n == 0 then some [] else read_of t (task_da_status ino) testo off n

-- The tables of inode_ops.
pub data ProcOps : Type 0 where
  ops_root ops_taskdir ops_status : ProcOps

-- struct inode, as far as procfs fills it.
pub record ProcNode : Type 0 where
  pub ino : ℕ
  pub kind : InodeType
  pub size : ℕ
  pub ops : ProcOps

-- What procfs_init stores in an inode.
unfoldable pub node_of : ProcInode → ProcNode
unfolding ino_of
node_of ino_root = record { ino = ino_of ino_root; kind = inode_dir; size = 0; ops = ops_root }
node_of (ino_task i) = record {
  ino = ino_of (ino_task i);
  kind = inode_dir;
  size = 0;
  ops = ops_taskdir;
}
node_of (ino_status i) = record {
  ino = ino_of (ino_status i);
  kind = inode_file;
  size = 0;
  ops = ops_status;
}

-- The static variables of procfs.c.
pub record Procfs : Type 0 where
  pub ready : Bool
  pub root : ProcNode
  pub tasks : List ProcNode
  pub statuses : List ProcNode

-- The loop of procfs_init over one of the two arrays.
unfoldable pub nodes_from : (ℕ → ProcInode) → ℕ → ℕ → List ProcNode
nodes_from inode i zero = []
nodes_from inode i (suc n) = node_of (inode i) ∷ nodes_from inode (i + 1) n

-- procfs_init
unfoldable pub init : Procfs
unfolding nodes_from
init = record {
  ready = true;
  root = node_of ino_root;
  tasks = nodes_from ino_task 0 max_tasks;
  statuses = nodes_from ino_status 0 max_tasks;
}

-- procfs_procdir; `none` for a null pointer.
unfoldable pub procdir : Procfs → Option ProcInode
procdir p = if not p.ready then none else some ino_root
