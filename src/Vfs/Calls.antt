-- ===== src/Vfs/Calls.antt =====
-- vfs_open, vfs_read, vfs_write and vfs_readdir of kernel/vfs.c. `t` is what task_current() returns.
use waltex.Base.{
  ltb, ◌==◌, if◌then◌else◌, ℤ, pos, negsuc, length, get_or, set, ℕ, ◌+◌, ◌-◌, ◌/◌, ◌%◌, ◌^◌, Bool,
  true, false, Option, none, some, List,
}
use waltex.Vfs.Create.{crea_ultimo}
use waltex.Vfs.Descriptors.{Outcome, fault, get_file_from_fd, file_at, open_inode, ok}
use waltex.Vfs.Resolve.{found, resolve}
use waltex.Vfs.Types.{
  inode_file, DirEntry, Vfs, InodeOps, o_wronly, o_rdonly, closed_file, o_creat, Inode, is_dir,
  refused,
}

-- `flags & O_CREAT`
abbrev pub wants_creation : ℕ → Bool
wants_creation flags = flags / o_creat % 2 == 1

-- A uint32_t as the int32_t of the same bits, and back.
abbrev pub to_int32 : ℕ → ℤ
to_int32 x = if ltb x (2 ^ 31) then pos x else negsuc (2 ^ 32 - 1 - x)

abbrev pub of_int32 : ℤ → ℕ
of_int32 (pos n) = n % 2 ^ 32
of_int32 (negsuc n) = (2 ^ 32 - 1 - n) % 2 ^ 32

abbrev pub add32 : ℕ → ℕ → ℕ
add32 a b = (a + b) % 2 ^ 32

abbrev pub is_negative : ℤ → Bool
is_negative (pos n) = false
is_negative (negsuc n) = true

-- `f->off = off`
abbrev pub set_off : Vfs → ℕ → ℕ → Vfs
set_off v slot off = record v {
  files = set v.files slot (record (get_or v.files slot closed_file) { off = off });
}

module _ {W : Type 0} (inode : W → ℕ → Inode W) where
  -- `f->inode->ops`; a null inode has none.
  abbrev pub ops_of : W → ℕ → Option (InodeOps W)
  ops_of w ino = if ino == 0 then none else (inode w ino).ops

  -- vfs_open
  unfoldable pub open_path : Vfs → ℕ → List ℕ → ℕ → W → (Option ℕ × Vfs) × W
  unfolding open_inode
  open_path v t path flags w =
      let (there, w') = resolve inode v path w in
      let (made, w'') = crea_ultimo inode v path inode_file w' in
      elim there [
        | found ino ↦ (open_inode v t ino flags, w')
        | _ ↦
            if wants_creation flags
            then elim made [ none ↦ ((none, v), w'') | some ino ↦ (open_inode v t ino flags, w'') ]
            else ((none, v), w')
      ]

  -- The end of vfs_read: what the filesystem's read gave, and the offset.
  abbrev pub after_read : Vfs → ℕ → Option (List ℕ) × W → Outcome (Option (List ℕ) × Vfs × W)
  after_read v slot (none, w) = ok (none, v, w)
  after_read v slot (some bytes, w) =
      ok (some bytes, set_off v slot (add32 (file_at v slot).off (length bytes)), w)

  -- The call of the filesystem's read, if it has one.
  unfoldable pub read_with :
      Vfs
      → ℕ
      → ℕ
      → W
      → Option (ℕ → ℕ → ℕ → W → Option (List ℕ) × W)
      → Outcome (Option (List ℕ) × Vfs × W)
  read_with v slot n w none = ok (none, v, w)
  read_with v slot n w (some op) =
      after_read v slot (op (file_at v slot).inode (file_at v slot).off n w)

  -- vfs_read on an open file: the flags, the operations, the directory.
  unfoldable pub read_ops :
      Vfs → ℕ → ℕ → W → Option (InodeOps W) → Outcome (Option (List ℕ) × Vfs × W)
  unfolding read_with
  read_ops v slot n w none = fault
  read_ops v slot n w (some ops) =
      let result = read_with v slot n w ops.read in
      if is_dir (inode w (file_at v slot).inode).kind then ok (none, v, w) else result

  unfoldable pub read_slot : Vfs → ℕ → W → Option ℕ → Outcome (Option (List ℕ) × Vfs × W)
  unfolding read_ops
  read_slot v n w none = ok (none, v, w)
  read_slot v n w (some slot) =
      let result = read_ops v slot n w (ops_of w (file_at v slot).inode) in
      if (file_at v slot).flags == o_wronly then ok (none, v, w) else result

  -- vfs_read into a buffer of `n` bytes: the bytes that are stored, or -1.
  unfoldable pub read : Vfs → ℕ → ℤ → ℕ → W → Outcome (Option (List ℕ) × Vfs × W)
  unfolding read_slot
  read v t fd n w = read_slot v n w (get_file_from_fd v t fd)

  abbrev pub after_write : Vfs → ℕ → Option ℕ × W → Outcome (Option ℕ × Vfs × W)
  after_write v slot (none, w) = ok (none, v, w)
  after_write v slot (some count, w) =
      ok (some count, set_off v slot (add32 (file_at v slot).off count), w)

  -- The call of the filesystem's write, if it has one.
  unfoldable pub write_with :
      Vfs
      → ℕ
      → List ℕ
      → W
      → Option (ℕ → ℕ → List ℕ → W → Option ℕ × W)
      → Outcome (Option ℕ × Vfs × W)
  write_with v slot bytes w none = ok (none, v, w)
  write_with v slot bytes w (some op) =
      after_write v slot (op (file_at v slot).inode (file_at v slot).off bytes w)

  -- vfs_write on an open file: the flags, the operations, the directory.
  unfoldable pub write_ops :
      Vfs → ℕ → List ℕ → W → Option (InodeOps W) → Outcome (Option ℕ × Vfs × W)
  unfolding write_with
  write_ops v slot bytes w none = fault
  write_ops v slot bytes w (some ops) =
      let result = write_with v slot bytes w ops.write in
      if is_dir (inode w (file_at v slot).inode).kind then ok (none, v, w) else result

  unfoldable pub write_slot : Vfs → List ℕ → W → Option ℕ → Outcome (Option ℕ × Vfs × W)
  unfolding write_ops
  write_slot v bytes w none = ok (none, v, w)
  write_slot v bytes w (some slot) =
      let result = write_ops v slot bytes w (ops_of w (file_at v slot).inode) in
      if (file_at v slot).flags == o_rdonly then ok (none, v, w) else result

  -- vfs_write: how many bytes were taken, or -1.
  unfoldable pub write : Vfs → ℕ → ℤ → List ℕ → W → Outcome (Option ℕ × Vfs × W)
  unfolding write_slot
  write v t fd bytes w = write_slot v bytes w (get_file_from_fd v t fd)

  -- vfs_readdir
  unfoldable pub readdir : Vfs → ℕ → ℤ → ℤ → W → Outcome (DirEntry × W)
  readdir v t fd idx w = elim (get_file_from_fd v t fd) [
    | none ↦ ok (refused, w)
    | some slot ↦
        let f = file_at v slot in
        let node = inode w f.inode in
        elim (ops_of w f.inode) [
          | none ↦ fault
          | some ops ↦ elim ops.readdir [
            | none ↦ ok (refused, w)
            | some op ↦ if is_dir node.kind then ok (op f.inode idx w) else ok (refused, w)
          ]
        ]
  ]
