-- ===== src/Devfs.antt =====
-- kernel/devfs.c: the directory /dev over the device registry. A pointer to one of the static inodes
-- is the name of that inode.
pub mod Prepare
pub mod Listing
pub mod Agree
pub mod Grow
mod Examples
use waltex.Base.{
  ◌==◌, if◌then◌else◌, ℤ, pos, negsuc, get_or, set, replicate, ℕ, zero, suc, ◌+◌, Bool, true, false,
  not, Option, none, some, List, [], ◌∷◌, ◌++◌,
}
use waltex.Blockdev.{BlockDev}
use waltex.CString.{memcpy, str_eq}
use waltex.Dev.{Registry, dev_max, DevEntry, get, count, lookup_index}
use waltex.Devio.Entry.{CharDev, DeviceInode, fill_inode, no_ops}
use waltex.Vfs.Types.{DirEntry, inode_none, inode_dir, InodeType, entry, end, refused, name_max}

-- ino_root, ino_dev, ino_devices[i]
pub data DevfsInode : Type 0 where
  root_inode : DevfsInode
  dev_inode : DevfsInode
  device_inode : ℕ → DevfsInode

-- ops_root, ops_dev
pub data DevfsOps : Type 0 where
  ops_null ops_root ops_dev : DevfsOps

-- struct inode, for the two directories
pub record DirNode : Type 0 where
  pub ino : ℕ
  pub kind : InodeType
  pub size : ℕ
  pub ops : DevfsOps

-- The static variables of devfs.c.
pub record Devfs : Type 0 where
  pub ready : Bool
  pub root : DirNode
  pub dev : DirNode
  pub devices : List DeviceInode

-- An inode of zeros.
abbrev pub zero_inode : DeviceInode
zero_inode = record {
  ino = 0;
  kind = inode_none;
  size = 0;
  ops = no_ops;
  priv = 0;
  major = 0;
  minor = 0;
}

-- devfs_init, whatever was there before
unfoldable pub init : Devfs
init = record {
  ready = true;
  root = record { ino = 1; kind = inode_dir; size = 0; ops = ops_root };
  dev = record { ino = 2; kind = inode_dir; size = 0; ops = ops_dev };
  devices = replicate dev_max zero_inode;
}

-- devfs_root, devfs_devdir; `none` is the null pointer.
unfoldable pub root_dir : Devfs → Option DevfsInode
root_dir d = if not d.ready then none else some root_inode

unfoldable pub devdir : Devfs → Option DevfsInode
devdir d = if not d.ready then none else some dev_inode

-- "dev"
abbrev pub dev_text : List ℕ
dev_text = b'd' ∷ b'e' ∷ b'v' ∷ []

-- root_lookup
unfoldable pub root_lookup : List ℕ → Option DevfsInode
root_lookup name = if str_eq name dev_text then some dev_inode else none

-- root_readdir, with the caller's buffer
unfoldable pub root_readdir : Devfs → ℤ → List ℕ → DirEntry
root_readdir d (negsuc n) name = end
root_readdir d (pos idx) name =
    if idx == 0 then entry (memcpy name (dev_text ++ (0 ∷ [])) 4) d.dev.ino else end

abbrev pub device_at : Devfs → ℕ → DeviceInode
device_at d i = get_or d.devices i zero_inode

abbrev pub set_device : Devfs → ℕ → DeviceInode → Devfs
set_device d i inode = record d { devices = set d.devices i inode }

-- What prepara does with the answer of devio_fill_inode for slot `i`.
abbrev pub number : Devfs → ℕ → Bool × DeviceInode → Bool × Devfs
number d i (false, inode) = (false, set_device d i inode)
number d i (true, inode) = (true, set_device d i (record inode { ino = 3 + i }))

-- The name that a reader of the directory gets: 14 bytes of the entry's, and a NUL.
abbrev pub dev_entry_name : Option DevEntry → List ℕ → List ℕ
dev_entry_name none name = name
dev_entry_name (some e) name = set (memcpy name e.name name_max) name_max 0

module _ {W D : Type 0} (chardev_at : ℕ → CharDev W) (blockdev_at : ℕ → BlockDev D) where
  -- prepara
  unfoldable pub prepara : Registry → Devfs → ℕ → Bool × Devfs
  prepara r d i =
      if not ((device_at d i).ino == 0)
      then (true, d)
      else number d i (fill_inode chardev_at blockdev_at (get r (pos i)) (device_at d i))

  -- dev_lookup: the index of the inode in ino_devices
  unfoldable pub found_device : Registry → Devfs → ℤ → Option ℕ × Devfs
  unfolding prepara
  found_device r d (negsuc n) = (none, d)
  found_device r d (pos i) =
      let (served, d') = prepara r d i in (if not served then none else some i, d')

  unfoldable pub dev_lookup : Registry → Devfs → List ℕ → Option ℕ × Devfs
  unfolding found_device
  dev_lookup r d name = found_device r d (lookup_index r name)

  -- The loop of dev_readdir, with `k` devices left. `seen` is the `pos` of the code.
  unfoldable pub readdir_loop : Registry → Devfs → ℕ → List ℕ → ℕ → ℕ → ℕ → DirEntry × Devfs
  unfolding prepara
  readdir_loop r d idx name zero i seen = (end, d)
  readdir_loop r d idx name (suc k) i seen =
      let (served, d') = prepara r d i in
      let skipped = readdir_loop r d' idx name k (i + 1) seen in
      let counted = readdir_loop r d' idx name k (i + 1) (seen + 1) in
      if not served
      then skipped
      else if seen == idx
      then (entry (dev_entry_name (get r (pos i)) name) (device_at d' i).ino, d')
      else counted

  -- dev_readdir
  unfoldable pub dev_readdir : Registry → Devfs → ℤ → List ℕ → DirEntry × Devfs
  unfolding readdir_loop count
  dev_readdir r d (negsuc n) name = (refused, d)
  dev_readdir r d (pos idx) name = readdir_loop r d idx name (count r) 0 0
