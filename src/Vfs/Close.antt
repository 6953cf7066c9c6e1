-- ===== src/Vfs/Close.antt =====
-- vfs_close: what it changes, which descriptor it takes, and what it leaves behind.
use waltex.Base.{
  leb, ◌==◌, if◌then◌else◌, ℤ, pos, negsuc, ==→eq, Bool-cases, Option-cases, is_some, get_or, set,
  length-set, get_or-set_self, get_or-set_ne, get_or-set_default, ℕ, ◌+◌, ◌*◌, ◌/◌, ◌%◌, ◌≤◌, ◌<◌,
  ◌≡◌, refl, sym, ap, ◌∙◌, subst, ◌≢◌, ◌⊎◌, inl, inr, Bool, true, false, none, some, arith,
}
use waltex.Vfs.Descriptors.{Outcome, fault, ok, fd_index, close}
use waltex.Vfs.Open.{IsVfs}
use waltex.Vfs.Types.{max_tasks, task_fds, Vfs}

-- What vfs_close does to entry `k` of the array of descriptors, `fd` being `k` for some task.
abbrev pub Closed : Vfs → ℕ → Outcome (Bool × Vfs) → Type 0
Closed v k fault = max_tasks * task_fds ≤ k
Closed v k (ok (true, v')) =
    (k < max_tasks * task_fds)
    × ((slot : ℕ) × (get_or v.fds k none ≡ some slot))
    × (get_or v'.fds k none ≡ none)
    × ((j : ℕ) → j ≢ k → get_or v'.fds j none ≡ get_or v.fds j none)
    × (v'.files ≡ v.files)
    × (v'.mountpoints ≡ v.mountpoints)
Closed v k (ok (false, v')) = (k < max_tasks * task_fds) × (get_or v.fds k none ≡ none) × (v' ≡ v)

-- vfs_close of a descriptor that is not negative, on whole tables. It is out of the array exactly
-- where the index is. It answers 0 on an entry in use, frees that entry and no other, and does
-- not touch the table of files nor the mounts: the slot of the file stays taken. It answers -1 on a free
-- entry and changes nothing.
pub close-Closed : (v : Vfs) (t fd : ℕ) → IsVfs v → Closed v (fd_index t fd) (close v t (pos fd))
unfolding close
close-Closed v t fd w = elim (Bool-cases (leb (max_tasks * task_fds) (fd_index t fd))) [
  | inl out ↦ rw out (ground arith)
  | inr inside ↦ rw inside (elim (Option-cases (get_or v.fds (fd_index t fd) none)) [
    | inl free ↦ rw free (ground arith, free, refl)
    | inr (slot, used) ↦ rw used (
      ground arith,
      (slot, used),
      get_or-set_self v.fds (fd_index t fd) none none (ground (arith, w.fds_size)),
      λ j ne. get_or-set_ne v.fds (fd_index t fd) j none none (λ e. ne (sym e)),
      refl,
      refl,
    )
  ])
]

-- A descriptor of 8 or more is not refused: within the array, vfs_close of `fd` by task `t` is
-- vfs_close of `fd % 8` by task `t + fd / 8`.
pub close-other_task :
    (v : Vfs) (t fd : ℕ) → close v t (pos fd) ≡ close v (t + fd / task_fds) (pos (fd % task_fds))
unfolding close
close-other_task v t fd =
    ap
      (λ k.
        if leb (max_tasks * task_fds) k
        then fault
        else if is_some (get_or v.fds k none)
        then ok (true, record v { fds = set v.fds k none })
        else ok (false, v))
      same
  where
    same : fd_index t fd ≡ fd_index (t + fd / task_fds) (fd % task_fds)
    same = omega arith

some-none : {slot : ℕ} → ¬ (some slot ≡ none)
some-none e = ground arith

close-IsVfs-at : (v : Vfs) (k : ℕ) → IsVfs v → IsVfs (record v { fds = set v.fds k none })
close-IsVfs-at v k w = record {
  files_size = w.files_size;
  fds_size = length-set v.fds k none ∙ w.fds_size;
  taken = λ j slot e. w.taken j slot (before j slot e);
  apart = λ i j slot e e'. w.apart i j slot (before i slot e) (before j slot e');
}
  where
    before :
        (j slot : ℕ)
        → get_or (set v.fds k none) j none ≡ some slot
        → get_or v.fds j none ≡ some slot
    before j slot e = elim (Bool-cases (k == j)) [
      | inl same ↦ absurd (
          some-none (
            sym e
            ∙ ap (λ n. get_or (set v.fds k none) n none) (sym (==→eq k j same))
            ∙ get_or-set_default v.fds k none))
      | inr differ ↦ sym (get_or-set_ne v.fds k j none none (λ eq. ground arith)) ∙ e
    ]

fault-ok : {r : Bool × Vfs} → ¬ (fault ≡ ok r)
fault-ok e = cc

abbrev result_or : Bool × Vfs → Outcome (Bool × Vfs) → Bool × Vfs
result_or r fault = r
result_or r (ok r') = r'

ok_inj : {r r' : Bool × Vfs} → ok r ≡ ok r' → r ≡ r'
ok_inj {r = r} e = ap (result_or r) e

-- Within the array vfs_close frees one entry or changes nothing.
pub close_ends :
    (v v' : Vfs) (t : ℕ) (fd : ℤ) (b : Bool)
    → close v t fd ≡ ok (b, v')
    → (v' ≡ v) ⊎ ((k : ℕ) × (v' ≡ record v { fds = set v.fds k none }))
unfolding close
close_ends v v' t (negsuc n) b e = inl (sym (ap (λ r. r.1) (ok_inj e)))
close_ends v v' t (pos fd) b e = elim (Bool-cases (leb (max_tasks * task_fds) (fd_index t fd))) [
  | inl out ↦ absurd (fault-ok (rw (close, out) at e))
  | inr inside ↦ elim (Bool-cases (is_some (get_or v.fds (fd_index t fd) none))) [
    | inl used ↦ inr (fd_index t fd, sym (ap (λ r. r.1) (ok_inj (rw (close, inside, used) at e))))
    | inr free ↦ inl (sym (ap (λ r. r.1) (ok_inj (rw (close, inside, free) at e))))
  ]
]

-- Within the array vfs_close keeps the tables whole, and the table of files as it is.
pub close-IsVfs :
    (v v' : Vfs) (t : ℕ) (fd : ℤ) (b : Bool)
    → IsVfs v
    → close v t fd ≡ ok (b, v')
    → IsVfs v' × (v'.files ≡ v.files)
close-IsVfs v v' t fd b w e = elim (close_ends v v' t fd b e) [
  | inl same ↦ (subst IsVfs (sym same) w, ap (λ u. u.files) same)
  | inr (k, freed) ↦ (subst IsVfs (sym freed) (close-IsVfs-at v k w), ap (λ u. u.files) freed)
]
