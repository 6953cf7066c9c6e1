-- ===== src/Vfs/OnTop.antt =====
-- risolvi_mount of kernel/vfs.c: the inode on top of the mounts on another.
use waltex.Base.{
  ◌==◌, ==→eq, eq→==, Bool-cases, eq_false, length, get_or, ℕ, zero, suc, ◌<◌, ◌≡◌, refl, sym, ◌∙◌,
  ◌≢◌, inl, inr, not, ◌&&◌, List, [], ◌∷◌, arith,
}
use waltex.Vfs.Resolve.{risolvi_mount, mounted_on, follow_mounts}
use waltex.Vfs.Seek.{free_slot_mount}
use waltex.Vfs.Types.{Mount, max_mounts}

-- The first entry of the table whose mount point is the inode `ino` has the root `root`.
abbrev pub IsMount : List Mount → ℕ → ℕ → Type 0
IsMount ms ino root =
    (ino ≢ 0)
    × ((i : ℕ) × (i < length ms)
        × ((get_or ms i free_slot_mount).punto ≡ ino)
        × ((get_or ms i free_slot_mount).root ≡ root)
        × ((j : ℕ) → j < i → (get_or ms j free_slot_mount).punto ≢ ino))

-- The inode on top of the mounts on an inode, in at most `n` steps. An entry with a null root ends
-- the steps.
pub data OnTop (ms : List Mount) : ℕ → ℕ → ℕ → Type 0 where
  tired : {ino : ℕ} → OnTop ms 0 ino ino
  bare : {n ino : ℕ} → ((root : ℕ) → IsMount ms ino root → root ≡ 0) → OnTop ms (suc n) ino ino
  above :
      {n ino root top : ℕ}
      → IsMount ms ino root
      → root ≢ 0
      → OnTop ms n root top
      → OnTop ms (suc n) ino top

mounted_on-IsMount_sound :
    (ms : List Mount) (ino root : ℕ) → IsMount ms ino root → mounted_on ms ino ≡ root
unfolding mounted_on
mounted_on-IsMount_sound [] ino root (ne, (i, lt, here, gives, first)) = absurd (omega arith)
mounted_on-IsMount_sound (m ∷ ms) ino root (ne, (zero, lt, here, gives, first)) =
    rw (here, eq_false (ino == 0) (λ e. ne (==→eq ino 0 e)), eq→== ino ino refl) gives
mounted_on-IsMount_sound (m ∷ ms) ino root (ne, (suc i, lt, here, gives, first)) =
    let other = first 0 (omega arith) in
    let rest =
      mounted_on-IsMount_sound ms ino root
        (ne, (i, omega arith, here, gives, (λ j below. first (suc j) (omega arith)))) in
    rw (eq_false (m.punto == ino) (λ e. other (==→eq m.punto ino e))) (ground (arith, rest))

mounted_on-IsMount :
    (ms : List Mount) (ino : ℕ) → mounted_on ms ino ≢ 0 → IsMount ms ino (mounted_on ms ino)
unfolding mounted_on
mounted_on-IsMount [] ino some_root = absurd (some_root refl)
mounted_on-IsMount (m ∷ ms) ino some_root =
    elim (Bool-cases (not (m.punto == 0) && m.punto == ino)) [
      | inl here ↦ rw here (
        (λ e. ground arith),
        (0, omega arith, ground arith, refl, (λ j lt. absurd (omega arith))),
      )
      | inr other ↦
          let (ne, (i, lt, at, gives, first)) =
            mounted_on-IsMount ms ino (rw (mounted_on, other) at some_root) in
          let differs : m.punto ≢ ino = λ e. ground arith in
          rw other (ne, (suc i, omega arith, at, gives, later i m ms ino differs first))
    ]
  where
    later :
        (i : ℕ) (m : Mount) (ms : List Mount) (ino : ℕ)
        → m.punto ≢ ino
        → ((j : ℕ) → j < i → (get_or ms j free_slot_mount).punto ≢ ino)
        → (j : ℕ) → j < suc i
        → (get_or (m ∷ ms) j free_slot_mount).punto ≢ ino
    later i m ms ino differs first zero lt = differs
    later i m ms ino differs first (suc j) lt = first j (omega arith)

follow_mounts-OnTop : (n : ℕ) (ms : List Mount) (ino : ℕ) → OnTop ms n ino (follow_mounts n ms ino)
unfolding follow_mounts
follow_mounts-OnTop zero ms ino = tired
follow_mounts-OnTop (suc n) ms ino = elim (Bool-cases (mounted_on ms ino == 0)) [
  | inl none_there ↦
      rw none_there
        (bare (λ root is. sym (mounted_on-IsMount_sound ms ino root is) ∙ ==→eq _ 0 none_there))
  | inr there ↦
      let some_root : mounted_on ms ino ≢ 0 = λ e. ground arith in
      rw there (
        above (mounted_on-IsMount ms ino some_root) some_root
          (follow_mounts-OnTop n ms (mounted_on ms ino)))
]

pub risolvi_mount-OnTop :
    (ms : List Mount) (ino : ℕ) → OnTop ms max_mounts ino (risolvi_mount ms ino)
unfolding risolvi_mount
risolvi_mount-OnTop ms ino = follow_mounts-OnTop max_mounts ms ino
