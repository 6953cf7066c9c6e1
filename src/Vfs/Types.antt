-- ===== src/Vfs/Types.antt =====
-- include/vfs.h: inodes with their operations, open files, descriptors and the mount table.
use waltex.Base.{ℤ, replicate, ℕ, ◌*◌, Bool, true, false, Option, none, List, [], ◌∷◌}

-- VFS_PATH_MAX, VFS_NAME_MAX, MAX_OPEN_FILES, TASK_FDS, MAX_MOUNTS and MAX_TASKS
abbrev pub path_max : ℕ
path_max = 64

abbrev pub name_max : ℕ
name_max = 14

abbrev pub max_open_files : ℕ
max_open_files = 32

abbrev pub task_fds : ℕ
task_fds = 8

abbrev pub max_mounts : ℕ
max_mounts = 4

abbrev pub max_tasks : ℕ
max_tasks = 8

-- O_RDONLY, O_WRONLY, O_RDWR and O_CREAT
abbrev pub o_rdonly : ℕ
o_rdonly = 0

abbrev pub o_wronly : ℕ
o_wronly = 1

abbrev pub o_rdwr : ℕ
o_rdwr = 2

abbrev pub o_creat : ℕ
o_creat = 0o100

-- enum inode_type
pub data InodeType : Type 0 where
  inode_none inode_file inode_dir inode_chardev inode_blockdev : InodeType

abbrev pub is_dir : InodeType → Bool
is_dir inode_dir = true
is_dir _ = false

-- The three answers of readdir: an entry (1), the end (0), or -1.
pub data DirEntry : Type 0 where
  entry : List ℕ → ℕ → DirEntry
  end : DirEntry
  refused : DirEntry

-- struct inode_ops over a world `W`, the memory and the devices behind the filesystems. A null
-- function pointer is `none`; a negative result is `none` in the answer. An inode is named by its
-- address, and no address is 0. `read` returns the bytes that it stores in the buffer.
pub record InodeOps (W : Type 0) : Type 0 where
  pub read : Option (ℕ → ℕ → ℕ → W → Option (List ℕ) × W)
  pub write : Option (ℕ → ℕ → List ℕ → W → Option ℕ × W)
  pub lookup : Option (ℕ → List ℕ → W → Option ℕ × W)
  pub readdir : Option (ℕ → ℤ → W → DirEntry × W)
  pub create : Option (ℕ → List ℕ → InodeType → W → Option ℕ × W)

-- struct inode, as far as the VFS looks at it.
pub record Inode (W : Type 0) : Type 0 where
  pub kind : InodeType
  pub size : ℕ
  pub ops : Option (InodeOps W)

-- struct file. The slot is free where `inode` is null (0).
pub record File : Type 0 where
  pub inode : ℕ
  pub off : ℕ
  pub flags : ℕ

abbrev pub closed_file : File
closed_file = record { inode = 0; off = 0; flags = 0 }

-- struct mountpoint. The slot is free where `punto` is null (0).
pub record Mount : Type 0 where
  pub punto : ℕ
  pub root : ℕ

-- `root`, `files`, `fds` row after row as C lays the array out, and `mountpoints`. A descriptor
-- that is -1 is `none`.
pub record Vfs : Type 0 where
  pub root : ℕ
  pub files : List File
  pub fds : List (Option ℕ)
  pub mountpoints : List Mount

-- vfs_init: the loops leave `off` and `flags` of the files alone.
pub free_files : List File → List File
free_files [] = []
free_files (f ∷ fs) = record f { inode = 0 } ∷ free_files fs

pub init : Vfs → ℕ → Vfs
unfolding free_files
init v r = record {
  root = r;
  files = free_files v.files;
  fds = replicate (max_tasks * task_fds) none;
  mountpoints = replicate max_mounts (record { punto = 0; root = 0 });
}
