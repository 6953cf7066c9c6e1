-- ===== src/Minixfs/Ops.antt =====
-- ops_minix of kernel/minixfs.c: the filesystem as the virtual filesystem sees it.
use waltex.Base.{
  ℤ, length, take, drop, ℕ, zero, suc, ◌≡◌, refl, sym, ap, subst, ◌≢◌, false, Option, some, arith,
}
use waltex.Minixfs.Contents.{contents, Readable, minix_read-contents}
use waltex.Minixfs.Directory.{minix_create, minix_lookup, minix_readdir}
use waltex.Blockdev.{BlockDev}
use waltex.Minixfs.File.{minix_write, minix_read}
use waltex.Minixfs.Types.{slot_at, Fs}
use waltex.Vfs.Calls.{set_off, read, add32}
use waltex.Vfs.Descriptors.{get_file_from_fd, ok, file_at}
use waltex.Vfs.Pieces.{Holds, read-Holds}
use waltex.Vfs.Types.{InodeOps, Inode, is_dir, o_wronly, Vfs}
use mathlib.Core.Option

-- The slot of an address.
abbrev pub slot_of : ℕ → ℕ
slot_of zero = 0
slot_of (suc i) = i

module _ {D : Type 0} (dev : BlockDev D) where
  -- The inode in slot `i` has the address `i + 1`, so that 0 is the null pointer.
  abbrev pub address : Option ℕ × Fs D → Option ℕ × Fs D
  address (o, f) = (Option.map suc o, f)

  -- ops_minix
  abbrev pub ops_minix : InodeOps (Fs D)
  ops_minix = record {
    read = some (λ a off n f. (minix_read dev f (slot_of a) off n, f));
    write = some (λ a off bytes f. minix_write dev f (slot_of a) off bytes);
    lookup = some (λ a name f. address (minix_lookup dev f (slot_of a) name));
    readdir = some (λ a idx f. (minix_readdir dev f (slot_of a) idx, f));
    create = some (λ a name tipo f. address (minix_create dev f (slot_of a) name tipo));
  }

  -- The struct inode in a slot.
  abbrev pub inode_of : Fs D → ℕ → Inode (Fs D)
  inode_of f a = record {
    kind = (slot_at f (slot_of a)).kind;
    size = (slot_at f (slot_of a)).size;
    ops = some ops_minix;
  }

  -- A file of minix keeps the promise that the virtual filesystem asks of a regular file.
  pub Readable-Holds :
      (f : Fs D) (i : ℕ)
      → is_dir (slot_at f i).kind ≡ false
      → Readable dev f i
      → Holds inode_of f (suc i) (contents dev f i)
  Readable-Holds f i file readable = record {
    there = omega arith;
    kind = file;
    ops = ops_minix;
    has_ops = refl;
    op = λ a off n f. (minix_read dev f (slot_of a) off n, f);
    has_op = refl;
    law = λ off n. ap (λ bytes. (bytes, f)) (minix_read-contents dev f i off n readable);
  }

  -- vfs_read on a regular file of minix whose zones can be read, opened for reading: it stores the
  -- bytes of the contents from the offset on, at most as many as were asked for, and moves the
  -- offset by their number. Nothing else changes.
  pub read-contents :
      (v : Vfs) (t : ℕ) (fd : ℤ) (n slot i : ℕ) (f : Fs D)
      → get_file_from_fd v t fd ≡ some slot
      → (file_at v slot).flags ≢ o_wronly
      → (file_at v slot).inode ≡ suc i
      → is_dir (slot_at f i).kind ≡ false
      → Readable dev f i
      → let off = (file_at v slot).off in
        let bytes = take n (drop off (contents dev f i)) in
        read inode_of v t fd n f ≡ ok (some bytes, set_off v slot (add32 off (length bytes)), f)
  read-contents v t fd n slot i f e allowed at file readable =
      read-Holds inode_of v t fd n slot f (contents dev f i) e allowed (
        subst (λ a. Holds inode_of f a (contents dev f i)) (sym at)
          (Readable-Holds f i file readable))
