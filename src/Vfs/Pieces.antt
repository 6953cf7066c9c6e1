-- ===== src/Vfs/Pieces.antt =====
-- Reading a file in pieces: the offset that vfs_read moves makes the next read go on there.
use waltex.Base.{
  ◌==◌, ℤ, pos, negsuc, ==→eq, eq_false, length, get_or, set, take, drop, length-append,
  get_or-set_self, length-take, length-drop, set-set, take-plus, drop-plus, drop-length-take, ℕ,
  ◌+◌, ◌^◌, ◌<◌, ◌≡◌, refl, sym, ap, ap₂, ◌∙◌, subst, ◌≢◌, false, Option, none, some, List, ◌++◌,
  arith,
}
use waltex.Vfs.Calls.{set_off, read_with, read_slot, read, add32, read_ops}
use waltex.Vfs.Descriptors.{Outcome, get_file_from_fd, file_at, ok, fault, fd_index}
use waltex.Vfs.Open.{IsVfs}
use waltex.Vfs.Types.{Inode, o_wronly, Vfs, is_dir, InodeOps, closed_file}

-- The second of two reads gets what the first one left; the bytes are put together.
abbrev pub prepend :
    {W : Type 0}
    → List ℕ
    → Outcome (Option (List ℕ) × Vfs × W)
    → Outcome (Option (List ℕ) × Vfs × W)
prepend a fault = fault
prepend a (ok (none, v, w)) = ok (none, v, w)
prepend a (ok (some b, v, w)) = ok (some (a ++ b), v, w)

abbrev pub and_then :
    {W : Type 0}
    → Outcome (Option (List ℕ) × Vfs × W)
    → (Vfs → W → Outcome (Option (List ℕ) × Vfs × W))
    → Outcome (Option (List ℕ) × Vfs × W)
and_then fault go = fault
and_then (ok (none, v, w)) go = ok (none, v, w)
and_then (ok (some a, v, w)) go = prepend a (go v w)

get_file-set_off :
    (v : Vfs) (slot o t : ℕ) (fd : ℤ)
    → get_file_from_fd (set_off v slot o) t fd ≡ get_file_from_fd v t fd
unfolding get_file_from_fd
get_file-set_off v slot o t (pos fd) = refl
get_file-set_off v slot o t (negsuc n) = refl

file_at-set_off :
    (v : Vfs) (slot o : ℕ)
    → slot < length v.files
    → file_at (set_off v slot o) slot ≡ record (file_at v slot) { off = o }
file_at-set_off v slot o lt = get_or-set_self v.files slot _ closed_file lt

set_off-set_off :
    (v : Vfs) (slot a b : ℕ)
    → slot < length v.files
    → set_off (set_off v slot a) slot b ≡ set_off v slot b
set_off-set_off v slot a b lt =
    ap
      (λ f. record v {
        files =
            set (set_off v slot a).files slot
              (record { inode = f.inode; off = b; flags = f.flags });
      })
      (file_at-set_off v slot a lt)
    ∙ ap (λ l. record v { files = l }) (set-set v.files slot _ _)

get_file-entry :
    (v : Vfs) (t : ℕ) (fd : ℤ) (slot : ℕ)
    → get_file_from_fd v t fd ≡ some slot
    → (k : ℕ) × (get_or v.fds k none ≡ some slot)
unfolding get_file_from_fd
get_file-entry v t (pos fd) slot e = (fd_index t fd, ground arith)
get_file-entry v t (negsuc n) slot e = absurd (ground arith)

-- An open descriptor is on a slot of the table.
open-lt :
    (v : Vfs) (t : ℕ) (fd : ℤ) (slot : ℕ)
    → IsVfs v
    → get_file_from_fd v t fd ≡ some slot
    → slot < length v.files
open-lt v t fd slot whole e =
    let entry = get_file-entry v t fd slot e in
    omega (arith, (whole.taken entry.0 slot entry.1).0, whole.files_size)

-- The bytes of a piece end where the next piece starts, without wrapping.
next_piece :
    (bytes : List ℕ) (off n : ℕ)
    → off < 2 ^ 32
    → length bytes < 2 ^ 32
    → drop (add32 off (length (take n (drop off bytes)))) bytes ≡ drop n (drop off bytes)
next_piece bytes off n small short =
    ap (λ k. drop k bytes) no_wrap ∙ drop-plus off _ bytes ∙ drop-length-take n (drop off bytes)
  where
    no_wrap : add32 off (length (take n (drop off bytes))) ≡ off + length (take n (drop off bytes))
    no_wrap = omega (arith, length-take n (drop off bytes), length-drop off bytes)

module _ {W : Type 0} (inode : W → ℕ → Inode W) where
  -- What a filesystem promises of a regular file that holds `stored_bytes`, in a state `w`: a read of `n`
  -- bytes at `off` gives the bytes from there on, at most `n`, and changes nothing.
  pub record Holds (w : W) (ino : ℕ) (stored_bytes : List ℕ) : Type 0 where
    pub there : 0 < ino
    pub kind : is_dir (inode w ino).kind ≡ false
    pub ops : InodeOps W
    pub has_ops : (inode w ino).ops ≡ some ops
    pub op : ℕ → ℕ → ℕ → W → Option (List ℕ) × W
    pub has_op : ops.read ≡ some op
    pub law : (off n : ℕ) → op ino off n w ≡ (some (take n (drop off stored_bytes)), w)

  -- One read of such a file.
  pub read-Holds :
      (v : Vfs) (t : ℕ) (fd : ℤ) (n slot : ℕ) (w : W) (stored_bytes : List ℕ)
      → get_file_from_fd v t fd ≡ some slot
      → (file_at v slot).flags ≢ o_wronly
      → Holds w (file_at v slot).inode stored_bytes
      → let bytes = take n (drop (file_at v slot).off stored_bytes) in
        read inode v t fd n w
        ≡ ok (some bytes, set_off v slot (add32 (file_at v slot).off (length bytes)), w)
  unfolding read read_slot read_ops read_with
  read-Holds v t fd n slot w stored_bytes e allowed h = rw e (
      rw (eq_false ((file_at v slot).flags == o_wronly) (λ eq. allowed (==→eq _ _ eq))) (
        rw (eq_false ((file_at v slot).inode == 0) (λ eq. ground (arith, h.there)))
          (rw h.has_ops (rw h.kind (rw h.has_op (rw (h.law (file_at v slot).off n) refl))))))

  -- Reading `n` bytes and then `m` bytes of such a file is reading `n + m` bytes at once: the same
  -- bytes, the same tables afterwards and the same state. The tables are whole, and the offset and
  -- the size are under 2^32.
  pub read-append :
      (v : Vfs) (t : ℕ) (fd : ℤ) (n m slot : ℕ) (w : W) (stored_bytes : List ℕ)
      → IsVfs v
      → get_file_from_fd v t fd ≡ some slot
      → (file_at v slot).flags ≢ o_wronly
      → Holds w (file_at v slot).inode stored_bytes
      → (file_at v slot).off < 2 ^ 32
      → length stored_bytes < 2 ^ 32
      → and_then (read inode v t fd n w) (λ v' w'. read inode v' t fd m w')
        ≡ read inode v t fd (n + m) w
  read-append v t fd n m slot w stored_bytes whole e allowed h small short =
      rw (read-Holds v t fd n slot w stored_bytes e allowed h) (
        rw (second) (
          rw (read-Holds v t fd (n + m) slot w stored_bytes e allowed h)
            (ap₂ (λ bytes tables. ok (some bytes, tables, w)) bytes_same tables_same)))
    where
      off : ℕ
      off = (file_at v slot).off

      rest : List ℕ
      rest = drop off stored_bytes

      v1 : Vfs
      v1 = set_off v slot (add32 off (length (take n rest)))

      lt : slot < length v.files
      lt = open-lt v t fd slot whole e

      same : file_at v1 slot ≡ record (file_at v slot) { off = add32 off (length (take n rest)) }
      same = file_at-set_off v slot _ lt

      second :
          read inode v1 t fd m w
          ≡ ok (
            some (take m (drop (file_at v1 slot).off stored_bytes)),
            set_off v1 slot (
                add32
                  (file_at v1 slot).off
                  (length (take m (drop (file_at v1 slot).off stored_bytes)))),
            w,
          )
      second =
          read-Holds v1 t fd m slot w stored_bytes (get_file-set_off v slot _ t fd ∙ e)
            (λ eq. allowed (sym (ap (λ f. f.flags) same) ∙ eq))
            (subst (λ i. Holds w i stored_bytes) (sym (ap (λ f. f.inode) same)) h)

      goes_on : drop (file_at v1 slot).off stored_bytes ≡ drop n rest
      goes_on = ap (λ f. drop f.off stored_bytes) same ∙ next_piece stored_bytes off n small short

      bytes_same :
          take n rest ++ take m (drop (file_at v1 slot).off stored_bytes) ≡ take (n + m) rest
      bytes_same = ap (λ l. take n rest ++ take m l) goes_on ∙ sym (take-plus n m rest)

      count :
          length (take (n + m) rest)
          ≡ length (take n rest) + length (take m (drop (file_at v1 slot).off stored_bytes))
      count = ap length (sym bytes_same) ∙ length-append (take n rest) _

      tables_same :
          set_off v1 slot (
            add32 (file_at v1 slot).off (length (take m (drop (file_at v1 slot).off stored_bytes))))
          ≡ set_off v slot (add32 off (length (take (n + m) rest)))
      tables_same =
          set_off-set_off v slot _ _ lt
          ∙ ap (set_off v slot) (omega (arith, count, ap (λ f. f.off) same))
