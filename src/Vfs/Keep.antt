-- ===== src/Vfs/Keep.antt =====
-- The calls of vfs.c on descriptors keep the tables whole.
use waltex.Base.{
  ◌==◌, ==→eq, Bool-cases, length, get_or, set, length-set, get_or-set_self, get_or-set_ne, ℕ, ◌<◌,
  ◌≡◌, sym, ap, ◌∙◌, ◌≢◌, ◌⊎◌, inl, inr, Option, none, some, List, arith,
}
use waltex.Vfs.Descriptors.{fd_index, file_at, open_inode}
use waltex.Vfs.Open.{open_inode-Opened, IsVfs, Opened}
use waltex.Vfs.Types.{max_tasks, closed_file, File, Vfs}

-- A descriptor after one is put on a slot: that one, or another as before.
fd-put :
    (fds : List (Option ℕ)) (i slot k s : ℕ)
    → i < length fds
    → get_or (set fds i (some slot)) k none ≡ some s
    → ((k ≡ i) × (s ≡ slot)) ⊎ ((i ≢ k) × (get_or fds k none ≡ some s))
fd-put fds i slot k s lt e = elim (Bool-cases (i == k)) [
  | inl same ↦
      let eq = ==→eq i k same in
      inl (
        sym eq,
        ap (λ o. value o)
            (sym e
              ∙ ap (λ n. get_or (set fds i (some slot)) n none) (sym eq)
              ∙ get_or-set_self fds i (some slot) none lt),
      )
  | inr differ ↦
      let ne : i ≢ k = λ eq. ground arith in
      inr (ne, sym (get_or-set_ne fds i k (some slot) none ne) ∙ e)
]
  where
    value : Option ℕ → ℕ
    value none = 0
    value (some n) = n

Opened-IsVfs :
    (v : Vfs) (t ino flags : ℕ) (result : Option ℕ × Vfs)
    → IsVfs v
    → t < max_tasks
    → 0 < ino
    → Opened v t ino flags result
    → IsVfs result.1
Opened-IsVfs v t ino flags (none, v') w lt pos_ino (fds, size, inodes, full) = record {
  files_size = size ∙ w.files_size;
  fds_size = ap length fds ∙ w.fds_size;
  taken = λ k slot e.
      let old = w.taken k slot (ap (λ l. get_or l k none) (sym fds) ∙ e) in
      (old.0, omega (arith, old.1, inodes slot));
  apart = λ j k slot e e'.
      w.apart j k slot (ap (λ l. get_or l j none) (sym fds) ∙ e)
        (ap (λ l. get_or l k none) (sym fds) ∙ e');
}
Opened-IsVfs v t ino flags (some fd, v') w lt pos_ino (lowest, (slot, in_range, free, files, fds)) =
    record {
      files_size = ap length files ∙ length-set v.files slot made ∙ w.files_size;
      fds_size = ap length fds ∙ length-set v.fds i (some slot) ∙ w.fds_size;
      taken = λ k s e. elim (before k s e) [
        | inl (at_k, at_s) ↦ rw at_s (in_range, omega (arith, ap (λ f. f.inode) (there)))
        | inr (ne, old) ↦
            let kept = w.taken k s old in
            (kept.0, omega (arith, kept.1, ap (λ f. f.inode) (elsewhere s (not_slot k s old))))
      ];
      apart = λ j k s e e'. elim (before j s e) [
        | inl (at_j, at_s) ↦ elim (before k s e') [
          | inl (at_k, at_s') ↦ at_j ∙ sym at_k
          | inr (ne, old) ↦ absurd (not_slot k s old (sym at_s))
        ]
        | inr (ne, old) ↦ elim (before k s e') [
          | inl (at_k, at_s') ↦ absurd (not_slot j s old (sym at_s'))
          | inr (ne', old') ↦ w.apart j k s old old'
        ]
      ];
    }
  where
    i : ℕ
    i = fd_index t fd

    made : File
    made = record { inode = ino; off = 0; flags = flags }

    before :
        (k s : ℕ)
        → get_or v'.fds k none ≡ some s
        → ((k ≡ i) × (s ≡ slot)) ⊎ ((i ≢ k) × (get_or v.fds k none ≡ some s))
    before k s e =
        fd-put v.fds i slot k s (omega (arith, w.fds_size, lowest.0))
          (ap (λ l. get_or l k none) (sym fds) ∙ e)

    there : file_at v' slot ≡ made
    there =
        ap (λ l. get_or l slot closed_file) files
        ∙ get_or-set_self v.files slot made closed_file (omega (arith, w.files_size))

    elsewhere : (s : ℕ) → slot ≢ s → file_at v' s ≡ file_at v s
    elsewhere s ne =
        ap (λ l. get_or l s closed_file) files ∙ get_or-set_ne v.files slot s made closed_file ne

    not_slot : (k s : ℕ) → get_or v.fds k none ≡ some s → slot ≢ s
    not_slot k s old e =
        absurd (omega (arith, (w.taken k s old).1, free, ap (λ n. (file_at v n).inode) e))

-- vfs_open on an inode keeps the tables whole, whether it succeeds or not.
pub open_inode-IsVfs :
    (v : Vfs) (t ino flags : ℕ)
    → IsVfs v
    → t < max_tasks
    → 0 < ino
    → IsVfs (open_inode v t ino flags).1
open_inode-IsVfs v t ino flags w lt h =
    Opened-IsVfs v t ino flags (open_inode v t ino flags) w lt h (open_inode-Opened v t ino flags w)
