-- ===== src/Devio/Entry.antt =====
-- kernel/devio.c: character devices as files, the wrappers of dev_register, the typed lookups, and
-- the inode that a device is seen through. A pointer to a device is a number, and 0 is null.
use waltex.Base.{
  ◌==◌, if◌then◌else◌, ℤ, negsuc, is_some, replicate, ℕ, ◌+◌, ◌*◌, ◌%◌, ◌^◌, Bool, true, false, not,
  ◌&&◌, Option, none, some, List, [], ◌∷◌,
}
use waltex.Blockdev.{BlockDev, sector_size}
use waltex.Dev.{
  DevEntry, Registry, lookup_index, dev_name_max, register, get, DevKind, dev_char, dev_block,
}
use waltex.Vfs.Types.{InodeType, inode_chardev, inode_blockdev}

-- struct chardev, over a world `W`. `read` answers the bytes that it stores, `none` for -1.
pub record CharDev (W : Type 0) : Type 0 where
  pub read : Option (W → ℕ → Option (List ℕ) × W)
  pub write : Option (W → List ℕ → ℕ → Option ℕ × W)

module _ {W : Type 0} where
  -- chr_read; `none` for a null `priv`. The offset is not looked at.
  unfoldable pub chr_read : Option (CharDev W) → ℕ → ℕ → W → Option (List ℕ) × W
  chr_read none off n w = (none, w)
  chr_read (some c) off n w = elim c.read [ none ↦ (none, w) | some op ↦ op w n ]

  -- chr_write
  unfoldable pub chr_write : Option (CharDev W) → ℕ → List ℕ → ℕ → W → Option ℕ × W
  chr_write none off buf n w = (none, w)
  chr_write (some c) off buf n w = elim c.write [ none ↦ (none, w) | some op ↦ op w buf n ]

abbrev pub is_char : DevKind → Bool
is_char dev_char = true
is_char _ = false

abbrev pub is_disk : DevKind → Bool
is_disk dev_block = true
is_disk _ = false

-- devio_chardev_of, devio_blockdev_of
unfoldable pub chardev_of : Option DevEntry → ℕ
chardev_of none = 0
chardev_of (some e) = if is_char e.kind then e.impl else 0

unfoldable pub blockdev_of : Option DevEntry → ℕ
blockdev_of none = 0
blockdev_of (some e) = if is_disk e.kind then e.impl else 0

-- dev_chardev, dev_blockdev
unfoldable pub dev_chardev : Registry → List ℕ → ℕ
dev_chardev r name = chardev_of (get r (lookup_index r name))

unfoldable pub dev_blockdev : Registry → List ℕ → ℕ
dev_blockdev r name = blockdev_of (get r (lookup_index r name))

-- The loop that copies a name into the zeroed array of an entry.
unfoldable pub copy_name : List ℕ → List ℕ → List ℕ
copy_name [] name = []
copy_name (d ∷ dest) [] = d ∷ dest
copy_name (d ∷ dest) (c ∷ name) = if c == 0 then d ∷ dest else c ∷ copy_name dest name

unfoldable pub device_entry : List ℕ → DevKind → ℕ → ℕ → ℕ → DevEntry
device_entry name kind major minor impl = record {
  name = copy_name (replicate dev_name_max 0) name;
  kind = kind;
  major = major;
  minor = minor;
  impl = impl;
}

-- The tables of inode_ops that an inode can have here.
pub data DeviceOps : Type 0 where
  no_ops ops_chardev ops_blockdev : DeviceOps

-- struct inode, as far as devio and devfs fill it.
pub record DeviceInode : Type 0 where
  pub ino : ℕ
  pub kind : InodeType
  pub size : ℕ
  pub ops : DeviceOps
  pub priv : ℕ
  pub major : ℕ
  pub minor : ℕ

-- The mask of devio_caps: DEVIO_CAN_READ is 1, DEVIO_CAN_WRITE is 2.
abbrev pub mask : Bool → Bool → ℕ
mask can_read can_write = (if can_read then 1 else 0) + (if can_write then 2 else 0)

-- The last lines of devio_fill_inode, for an entry that is one of the two kinds.
abbrev pub finish : DevEntry → DeviceInode → DeviceInode
finish e inode = record inode { priv = e.impl; major = e.major; minor = e.minor }

-- What the pointers point to.
module _ {W D : Type 0} (chardev_at : ℕ → CharDev W) (blockdev_at : ℕ → BlockDev D) where
  -- devio_caps
  unfoldable pub caps : Option DevEntry → ℕ
  unfolding chardev_of blockdev_of
  caps none = 0
  caps (some e) =
      let b = blockdev_of (some e) in
      let c = chardev_of (some e) in
      if e.impl == 0
      then 0
      else if not (b == 0)
      then mask (is_some (blockdev_at b).read) (is_some (blockdev_at b).write)
      else if not (c == 0)
      then mask (is_some (chardev_at c).read) (is_some (chardev_at c).write)
      else 0

  -- chardev_register: 0 or -1, and the registry. A null name is `none`.
  unfoldable pub chardev_register : Registry → Option (List ℕ) → ℕ → ℕ → ℕ → ℤ × Registry
  chardev_register r none major minor c = (negsuc 0, r)
  chardev_register r (some name) major minor c =
      if c == 0
      then (negsuc 0, r)
      else if not (is_some (chardev_at c).read) && not (is_some (chardev_at c).write)
      then (negsuc 0, r)
      else register r (device_entry name dev_char major minor c)

  -- blockdev_register
  unfoldable pub blockdev_register : Registry → Option (List ℕ) → ℕ → ℕ → ℕ → ℤ × Registry
  blockdev_register r none major minor b = (negsuc 0, r)
  blockdev_register r (some name) major minor b =
      if b == 0
      then (negsuc 0, r)
      else if not (is_some (blockdev_at b).read)
      then (negsuc 0, r)
      else register r (device_entry name dev_block major minor b)

  -- devio_fill_inode: `true` for 0, `false` for -1, and the inode, whose pointer is not null.
  unfoldable pub fill_inode : Option DevEntry → DeviceInode → Bool × DeviceInode
  unfolding chardev_of blockdev_of
  fill_inode none inode = (false, inode)
  fill_inode (some e) inode =
      let b = blockdev_of (some e) in
      if e.impl == 0
      then (false, inode)
      else if not (chardev_of (some e) == 0)
      then (true, finish e (record inode { kind = inode_chardev; ops = ops_chardev; size = 0 }))
      else if not (b == 0)
      then (
        true,
        finish e (record inode {
          kind = inode_blockdev;
          ops = ops_blockdev;
          size = (blockdev_at b).nsectors * sector_size % 2 ^ 32;
        }),
      )
      else (false, inode)
