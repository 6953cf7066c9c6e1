-- ===== src/Vfs/Create.antt =====
-- spezza_path, crea_ultimo and vfs_mkdir of kernel/vfs.c.
use waltex.Base.{
  ltb, leb, ◌==◌, if◌then◌else◌, is_some, take, drop, ℕ, ◌+◌, ◌-◌, Bool, false, not, ◌||◌, Option,
  none, some, List, [], ◌∷◌,
}
use waltex.CString.{strlen}
use waltex.Vfs.Resolve.{found, resolve}
use waltex.Vfs.Types.{Vfs, Inode, InodeType, inode_dir, is_dir, path_max, name_max}

-- The loop of spezza_path: the index of the last slash of the bytes left, `i` the next index.
unfoldable pub last_slash : List ℕ → ℕ → ℕ → ℕ
last_slash [] i taglio = taglio
last_slash (c ∷ p) i taglio = last_slash p (i + 1) (if c == b'/' then i else taglio)

-- spezza_path from the last slash on, which is at `taglio`.
unfoldable pub cut_at : List ℕ → ℕ → ℕ → Option (List ℕ × List ℕ)
cut_at path len taglio =
    let ultimo = take (len - taglio - 1) (drop (taglio + 1) path) in
    if len - taglio - 1 == 0 || ltb name_max (len - taglio - 1)
    then none
    else if taglio == 0
    then some (b'/' ∷ [], ultimo)
    else some (take taglio path, ultimo)

-- spezza_path: the parent and the last component, or -1.
unfoldable pub spezza_path : List ℕ → Option (List ℕ × List ℕ)
unfolding last_slash cut_at
spezza_path [] = none
spezza_path (c ∷ p) =
    let path = c ∷ p in
    let len = strlen path in
    let parts = cut_at path len (last_slash (take len path) 0 0) in
    if not (c == b'/') then none else if len == 0 || leb path_max len then none else parts

module _ {W : Type 0} (inode : W → ℕ → Inode W) where
  -- `dir->ops->create`, where both pointers are there.
  abbrev pub create_of : W → ℕ → Option (ℕ → List ℕ → InodeType → W → Option ℕ × W)
  create_of w dir = elim (inode w dir).ops [ none ↦ none | some ops ↦ ops.create ]

  -- What crea_ultimo does in the directory that it found.
  unfoldable pub create_in : ℕ → List ℕ → InodeType → W → Option ℕ × W
  create_in dir ultimo tipo w =
      if not (is_dir (inode w dir).kind)
      then (none, w)
      else elim (create_of w dir) [ none ↦ (none, w) | some create ↦ create dir ultimo tipo w ]

  -- crea_ultimo: the new inode, or -1.
  unfoldable pub crea_ultimo : Vfs → List ℕ → InodeType → W → Option ℕ × W
  unfolding create_in
  crea_ultimo v path tipo w = elim (spezza_path path) [
    | none ↦ (none, w)
    | some (genitore, ultimo) ↦
        let (dir, w') = resolve inode v genitore w in
        elim dir [ found d ↦ create_in d ultimo tipo w' | _ ↦ (none, w') ]
  ]

  -- vfs_mkdir: `true` for 0, `false` for -1.
  unfoldable pub mkdir : Vfs → List ℕ → W → Bool × W
  mkdir v path w =
      let (there, w') = resolve inode v path w in
      let (made, w'') = crea_ultimo v path inode_dir w' in
      elim there [ found d ↦ (false, w') | _ ↦ (is_some made, w'') ]
