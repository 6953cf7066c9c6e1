-- ===== src/Vfs/Offsets.antt =====
-- vfs_lseek, and the offset that vfs_read and vfs_write move.
use waltex.Base.{
  ltb, if◌then◌else◌, ℤ, pos, negsuc, ltb→lt, lt→ltb, Bool-cases, eq_false, ℕ, ◌+◌, ◌-◌, ◌^◌, ◌≤◌,
  ◌<◌, ◌≡◌, refl, ap, ◌∙◌, ◌≢◌, inl, inr, Bool, true, false, arith,
}
use waltex.Vfs.Calls.{set_off, to_int32, of_int32, add32, is_negative}
use waltex.Vfs.Descriptors.{file_at}
use waltex.Vfs.Seek.{seek_cur, Whence, seek_set, other_whence, seek, seek_end}
use waltex.Vfs.Types.{Vfs}

-- What vfs_lseek is to do from the position `base`: -1 and nothing moved for a position before
-- the start, and the new position otherwise. `below` is what happens before the start.
abbrev pub Moved : Vfs → ℕ → ℕ → ℤ → Bool → ℤ × Vfs → Type 0
Moved v slot base (pos k) wraps (r, v') = (r ≡ pos (base + k)) × (v' ≡ set_off v slot (base + k))
Moved v slot base (negsuc k) wraps (r, v') = elim (ltb k base) [
  | true ↦ (r ≡ pos (base - 1 - k)) × (v' ≡ set_off v slot (base - 1 - k))
  | false ↦ elim wraps [
    | false ↦ (r ≡ negsuc 0) × (v' ≡ v)
    | true ↦ (r ≡ negsuc (k - base)) × (v' ≡ set_off v slot (2 ^ 32 - 1 - (k - base)))
  ]
]

-- Where SEEK_SET, SEEK_CUR and SEEK_END count from.
abbrev pub base_of : Vfs → ℕ → ℕ → Whence → ℕ
base_of v slot size seek_set = 0
base_of v slot size seek_cur = (file_at v slot).off
base_of v slot size seek_end = size
base_of v slot size other_whence = 0

abbrev pub at_end_only : Whence → Bool
at_end_only seek_end = true
at_end_only _ = false

-- An offset in range of the position that it is counted from: the sum fits an int32_t.
abbrev pub Fits : ℕ → ℤ → Type 0
Fits base (pos k) = base + k < 2 ^ 31
Fits base (negsuc k) = (base < 2 ^ 31) × (k < 2 ^ 31)

int32-small : (x : ℕ) → x < 2 ^ 31 → to_int32 x ≡ pos x
int32-small x h = rw (lt→ltb x (2 ^ 31) h) refl

int32-large : (x : ℕ) → 2 ^ 31 ≤ x → to_int32 x ≡ negsuc (2 ^ 32 - 1 - x)
int32-large x h = rw (eq_false (ltb x (2 ^ 31)) (λ e. ground arith)) refl

add32-forward : (base k : ℕ) → base + k < 2 ^ 31 → add32 base (of_int32 (pos k)) ≡ base + k
add32-forward base k h = omega arith

add32-back :
    (base k : ℕ)
    → base < 2 ^ 31
    → k < 2 ^ 31
    → k < base
    → add32 base (of_int32 (negsuc k)) ≡ base - 1 - k
add32-back base k hb hk lt = omega arith

add32-under :
    (base k : ℕ)
    → base < 2 ^ 31
    → k < 2 ^ 31
    → base ≤ k
    → add32 base (of_int32 (negsuc k)) ≡ 2 ^ 32 - 1 - (k - base)
add32-under base k hb hk le = omega arith

-- A sum that is not negative, as seek stores and returns it.
stored :
    (v : Vfs) (slot o n : ℕ)
    → o ≡ n
    → n < 2 ^ 31
    → (to_int32 o ≡ pos n) × (set_off v slot o ≡ set_off v slot n)
stored v slot o n e h = (ap to_int32 e ∙ int32-small n h, ap (set_off v slot) e)

-- The two branches of SEEK_CUR.
cur-stored :
    (v : Vfs) (slot o n : ℕ)
    → o ≡ n
    → n < 2 ^ 31
    → let result : ℤ × Vfs =
        if is_negative (to_int32 o) then (negsuc 0, v) else (to_int32 o, set_off v slot o) in
      (result.0 ≡ pos n) × (result.1 ≡ set_off v slot n)
cur-stored v slot o n e h = rw e (rw (int32-small n h) (refl, refl))

cur-refused :
    (v : Vfs) (slot o : ℕ)
    → 2 ^ 31 ≤ o
    → let result : ℤ × Vfs =
        if is_negative (to_int32 o) then (negsuc 0, v) else (to_int32 o, set_off v slot o) in
      (result.0 ≡ negsuc 0) × (result.1 ≡ v)
cur-refused v slot o h = rw (int32-large o h) (refl, refl)

-- `switch (whence)` with one of its three cases, where the sum fits. A position at or after the
-- start is returned and becomes the offset. Before the start, SEEK_SET and SEEK_CUR answer -1 and
-- leave the offset, but SEEK_END stores the sum modulo 2^32 as the offset and returns the
-- negative number.
pub seek-Moved :
    (v : Vfs) (slot size : ℕ) (off : ℤ) (whence : Whence)
    → whence ≢ other_whence
    → Fits (base_of v slot size whence) off
    → Moved v slot
        (base_of v slot size whence)
        off
        (at_end_only whence)
        (seek v slot size off whence)
unfolding seek
seek-Moved v slot size (pos k) seek_set ne h = stored v slot _ (0 + k) (omega arith) h
seek-Moved v slot size (negsuc k) seek_set ne h =
    rw (eq_false (ltb k 0) (λ e. ground arith), Moved) (refl, refl)
seek-Moved v slot size (pos k) seek_cur ne h =
    cur-stored v slot _ _ (add32-forward (file_at v slot).off k h) h
seek-Moved v slot size (negsuc k) seek_cur ne (hb, hk) =
    let base = (file_at v slot).off in
    elim (Bool-cases (ltb k base)) [
      | inl lt ↦
          rw (lt, Moved)
            (cur-stored v slot _ _ (add32-back base k hb hk (ltb→lt k base lt)) (omega arith))
      | inr ge ↦
          rw (ge, Moved)
            (cur-refused v slot _ (omega (arith, add32-under base k hb hk (ground arith))))
    ]
seek-Moved v slot size (pos k) seek_end ne h = stored v slot _ _ (add32-forward size k h) h
seek-Moved v slot size (negsuc k) seek_end ne (hb, hk) = elim (Bool-cases (ltb k size)) [
  | inl lt ↦
      rw (lt, Moved) (stored v slot _ _ (add32-back size k hb hk (ltb→lt k size lt)) (omega arith))
  | inr ge ↦
      rw (ge, Moved)
        (let e = add32-under size k hb hk (ground arith) in
          (
            ap to_int32 e ∙ int32-large _ (omega arith) ∙ ap negsuc (omega arith),
            ap (set_off v slot) e,
          ))
]
seek-Moved v slot size off other_whence ne h = absurd (ne refl)
