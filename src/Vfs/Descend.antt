-- ===== src/Vfs/Descend.antt =====
-- vfs_resolve as a whole: which paths it takes, and that it always ends.
use waltex.Base.{
  ltb, leb, ◌==◌, if◌then◌else◌, Bool-cases, Option-cases, length, ℕ, ◌+◌, ◌≡◌, refl, ◌≢◌, inl, inr,
  Bool, true, false, ◌&&◌, List, [], ◌∷◌, arith,
}
use waltex.CString.{strlen, IsText}
use waltex.Vfs.Components.{components, descend, walk-descend, split}
use waltex.Vfs.Resolve.{missing, stuck, resolve, enter, risolvi_mount}
use waltex.Vfs.Types.{Vfs, Mount, Inode, name_max, path_max}

-- An absolute path of fewer than VFS_PATH_MAX bytes.
abbrev pub is_path : List ℕ → Bool
is_path [] = false
is_path (c ∷ p) = c == b'/' && ltb (length (c ∷ p)) path_max

pub strlen_text : (p : List ℕ) → IsText p → strlen p ≡ length p
unfolding strlen
strlen_text [] t = refl
strlen_text (c ∷ p) t = ground (arith, strlen_text p t.1, t.0)

module _ {W : Type 0} (inode : W → ℕ → Inode W) where
  -- vfs_resolve looks the components of the path up one after another from the root, each time in a
  -- directory that has a lookup, follows the mounts on what it finds, and refuses a path that is
  -- not absolute or too long before any lookup.
  pub resolve-descend :
      (v : Vfs) (path : List ℕ) (w : W)
      → IsText path
      → resolve inode v path w ≡ (
          if is_path path
          then descend inode v.mountpoints (risolvi_mount v.mountpoints v.root) (components path) w
          else (missing, w))
  unfolding resolve split
  resolve-descend v [] w t = refl
  resolve-descend v (c ∷ p) w t =
      let start = risolvi_mount v.mountpoints v.root in
      rw (strlen_text (c ∷ p) t) (elim (Bool-cases (c == b'/')) [
        | inl slash ↦ elim (Bool-cases (ltb (length (c ∷ p)) path_max)) [
          | inl short ↦
              let fits : leb path_max (length (c ∷ p)) ≡ false = ground arith in
              rw (slash, short, fits)
                (walk-descend inode v.mountpoints (length p + 1) start p w t.1 (omega arith))
          | inr long ↦
              let fits : leb path_max (length (c ∷ p)) ≡ true = ground arith in
              rw (slash, long, fits)
        ]
        | inr relative ↦ rw relative
      ])

  descend_ends :
      (ms : List Mount) (current : ℕ) (names : List (List ℕ)) (w : W)
      → (descend inode ms current names w).0 ≢ stuck
  unfolding descend
  descend_ends ms current [] w = λ e. cc
  descend_ends ms current (nome ∷ rest) w = elim (Bool-cases (ltb name_max (length nome))) [
    | inl long ↦ rw long (λ e. cc)
    | inr fits ↦ elim (Option-cases (enter inode ms current nome w).0) [
      | inl gone ↦ rw (fits, gone) (λ e. cc)
      | inr (next, got) ↦
          rw (fits, got) (descend_ends ms next rest (enter inode ms current nome w).1)
    ]
  ]

  -- The loop of vfs_resolve ends: the rounds that the model gives it are enough.
  pub resolve_ends :
      (v : Vfs) (path : List ℕ) (w : W) → IsText path → (resolve inode v path w).0 ≢ stuck
  resolve_ends v path w t = rw (resolve-descend v path w t) (elim (Bool-cases (is_path path)) [
    | inl good ↦
        rw good
          (descend_ends v.mountpoints (risolvi_mount v.mountpoints v.root) (components path) w)
    | inr bad ↦ rw bad (λ e. cc)
  ])
