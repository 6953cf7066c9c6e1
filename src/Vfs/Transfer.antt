-- ===== src/Vfs/Transfer.antt =====
-- vfs_read and vfs_write: whose offset they move, and reading a file in pieces.
use mathlib.Core.Option
use waltex.Base.{◌==◌, ℤ, Bool-cases, length, ℕ, ◌≡◌, refl, inl, inr, Option, none, some, List}
use waltex.Vfs.Calls.{set_off, write_with, write, write_ops, after_write, write_slot, add32}
use waltex.Vfs.Descriptors.{fault, ok, Outcome, get_file_from_fd, file_at}
use waltex.Vfs.Types.{Vfs, is_dir, InodeOps, Inode, o_rdonly}

-- The tables after a transfer of `count` bytes on a slot, or after -1.
abbrev pub Advanced : Vfs → Option ℕ → Option ℕ → Vfs → Type 0
Advanced v slot none v' = v' ≡ v
Advanced v none (some count) v' = ⊥
Advanced v (some slot) (some count) v' = v' ≡ set_off v slot (add32 (file_at v slot).off count)

abbrev pub WriteAdvanced : {W : Type 0} → Vfs → Option ℕ → Outcome (Option ℕ × Vfs × W) → Type 0
WriteAdvanced v slot fault = Unit {0}
WriteAdvanced v slot (ok (count, v', w)) = Advanced v slot count v'

abbrev pub ReadAdvanced :
    {W : Type 0} → Vfs → Option ℕ → Outcome (Option (List ℕ) × Vfs × W) → Type 0
ReadAdvanced v slot fault = Unit {0}
ReadAdvanced v slot (ok (bytes, v', w)) = Advanced v slot (Option.map length bytes) v'

module _ {W : Type 0} (inode : W → ℕ → Inode W) where
  after_write-Advanced :
      (v : Vfs) (slot : ℕ) (r : Option ℕ × W)
      → WriteAdvanced v (some slot) (after_write inode v slot r)
  after_write-Advanced v slot (none, w) = refl
  after_write-Advanced v slot (some count, w) = refl

  write_with-Advanced :
      (v : Vfs) (slot : ℕ) (bytes : List ℕ) (w : W)
      (op : Option (ℕ → ℕ → List ℕ → W → Option ℕ × W))
      → WriteAdvanced v (some slot) (write_with inode v slot bytes w op)
  unfolding write_with
  write_with-Advanced v slot bytes w none = refl
  write_with-Advanced v slot bytes w (some op) = after_write-Advanced v slot _

  write_ops-Advanced :
      (v : Vfs) (slot : ℕ) (bytes : List ℕ) (w : W) (ops : Option (InodeOps W))
      → WriteAdvanced v (some slot) (write_ops inode v slot bytes w ops)
  unfolding write_ops
  write_ops-Advanced v slot bytes w none = tt
  write_ops-Advanced v slot bytes w (some ops) =
      elim (Bool-cases (is_dir (inode w (file_at v slot).inode).kind)) [
        | inl dir ↦ rw dir refl
        | inr file ↦ rw file (write_with-Advanced v slot bytes w ops.write)
      ]

  write_slot-Advanced :
      (v : Vfs) (bytes : List ℕ) (w : W) (slot : Option ℕ)
      → WriteAdvanced v slot (write_slot inode v bytes w slot)
  unfolding write_slot
  write_slot-Advanced v bytes w none = refl
  write_slot-Advanced v bytes w (some slot) =
      elim (Bool-cases ((file_at v slot).flags == o_rdonly)) [
        | inl shut ↦ rw shut refl
        | inr fit ↦ rw fit (write_ops-Advanced v slot bytes w _)
      ]

  -- vfs_write moves the offset of the slot of its descriptor by the count that it returns, modulo
  -- 2^32, and changes nothing else in the tables. Where it returns -1 it changes nothing.
  pub write-Advanced :
      (v : Vfs) (t : ℕ) (fd : ℤ) (bytes : List ℕ) (w : W)
      → WriteAdvanced v (get_file_from_fd v t fd) (write inode v t fd bytes w)
  unfolding write
  write-Advanced v t fd bytes w = write_slot-Advanced v bytes w (get_file_from_fd v t fd)
