-- ===== src/Vfs/Follow.antt =====
-- vfs_resolve against a description of its own: the names of the path, the lookups of the
-- filesystems, and the mounts on what they find.
use mathlib.Core.Option
use waltex.Base.{
  ltb, Bool-cases, none-ne-some, some_inj, length, ℕ, ◌≤◌, ◌<◌, ◌≡◌, refl, sym, ap, ◌∙◌, subst, ◌⊎◌,
  inl, inr, Bool, true, false, Option, none, some, List, [], ◌∷◌, arith,
}
use waltex.CString.{IsText}
use waltex.Vfs.Components.{components, descend}
use waltex.Vfs.Descend.{is_path, resolve-descend}
use waltex.Vfs.OnTop.{risolvi_mount-OnTop, OnTop}
use waltex.Vfs.Resolve.{missing, found, Resolved, risolvi_mount, resolve, enter}
use waltex.Vfs.Types.{Mount, Inode, InodeOps, name_max, max_mounts, is_dir, Vfs}

-- A directory whose filesystem can look names up.
abbrev pub HasLookup :
    {W : Type 0} → (W → ℕ → Inode W) → W → ℕ → (ℕ → List ℕ → W → Option ℕ × W) → Type 0
HasLookup {W} inode w current lookup =
    (is_dir (inode w current).kind ≡ true)
    × ((ops : InodeOps W) × ((inode w current).ops ≡ some ops) × (ops.lookup ≡ some lookup))

-- The names one after another from the inode `current`. The last index is the outcome.
pub data Descends {W : Type 0} (inode : W → ℕ → Inode W) (ms : List Mount)
    : ℕ → List (List ℕ) → W → Resolved × W → Type 0 where
  arrived : {current : ℕ} {w : W} → Descends inode ms current [] w (found current, w)
  too_long :
      {current : ℕ} {nome : List ℕ} {rest : List (List ℕ)} {w : W}
      → name_max < length nome
      → Descends inode ms current (nome ∷ rest) w (missing, w)
  no_lookup :
      {current : ℕ} {nome : List ℕ} {rest : List (List ℕ)} {w : W}
      → length nome ≤ name_max
      → ((lookup : ℕ → List ℕ → W → Option ℕ × W) → ¬ HasLookup inode w current lookup)
      → Descends inode ms current (nome ∷ rest) w (missing, w)
  absent :
      {current : ℕ} {nome : List ℕ} {rest : List (List ℕ)} {w w' : W}
      (lookup : ℕ → List ℕ → W → Option ℕ × W)
      → length nome ≤ name_max
      → HasLookup inode w current lookup
      → lookup current nome w ≡ (none, w')
      → Descends inode ms current (nome ∷ rest) w (missing, w')
  entered :
      {current next top : ℕ} {nome : List ℕ} {rest : List (List ℕ)} {w w' : W} {r : Resolved × W}
      (lookup : ℕ → List ℕ → W → Option ℕ × W)
      → length nome ≤ name_max
      → HasLookup inode w current lookup
      → lookup current nome w ≡ (some next, w')
      → OnTop ms max_mounts next top
      → Descends inode ms top rest w' r
      → Descends inode ms current (nome ∷ rest) w r

-- The outcome of a path: none that is not absolute or too long is looked up at all.
pub data Resolves {W : Type 0} (inode : W → ℕ → Inode W) (v : Vfs) (path : List ℕ) (w : W)
    : Resolved × W → Type 0 where
  refused : is_path path ≡ false → Resolves inode v path w (missing, w)
  walked :
      {top : ℕ} {r : Resolved × W}
      → is_path path ≡ true
      → OnTop v.mountpoints max_mounts v.root top
      → Descends inode v.mountpoints top (components path) w r
      → Resolves inode v path w r

module _ {W : Type 0} (inode : W → ℕ → Inode W) (ms : List Mount) where
  -- What is found, on top of its mounts.
  abbrev on_top : Option ℕ × W → Option ℕ × W
  on_top r = (Option.map (risolvi_mount ms) r.0, r.1)

  -- What a step of the loop comes to.
  abbrev Enters : ℕ → List ℕ → W → Type 0
  Enters current nome w =
      (((lookup : ℕ → List ℕ → W → Option ℕ × W) → ¬ HasLookup inode w current lookup)
        × (enter inode ms current nome w ≡ (none, w)))
      ⊎ ((lookup : ℕ → List ℕ → W → Option ℕ × W) × HasLookup inode w current lookup
          × (enter inode ms current nome w ≡ on_top (lookup current nome w)))

  no_dir : {b : Bool} → b ≡ false → b ≡ true → ⊥
  no_dir e f = cc

  ops_inj :
      {ops ops' : InodeOps W} {lookup : ℕ → List ℕ → W → Option ℕ × W}
      → some ops ≡ some ops'
      → ops'.lookup ≡ some lookup
      → ops.lookup ≡ some lookup
  ops_inj e f = ap (λ o. o.lookup) (some_inj e) ∙ f

  enter-cases : (current : ℕ) (nome : List ℕ) (w : W) → Enters current nome w
  unfolding enter
  enter-cases current nome w = kinds (is_dir (inode w current).kind) (inode w current).ops refl refl
    where
      looked :
          (ops : InodeOps W) (o : Option (ℕ → List ℕ → W → Option ℕ × W))
          → is_dir (inode w current).kind ≡ true
          → (inode w current).ops ≡ some ops
          → ops.lookup ≡ o
          → Enters current nome w
      looked ops none dir e f = inl (
        (λ lookup has. none-ne-some (sym f ∙ ops_inj (sym e ∙ has.1.1) has.1.2)),
        rw (dir, e, f) refl,
      )
      looked ops (some lookup) dir e f = inr (lookup, (dir, (ops, e, f)), rw (dir, e, f) refl)

      kinds :
          (b : Bool) (o : Option (InodeOps W))
          → is_dir (inode w current).kind ≡ b
          → (inode w current).ops ≡ o
          → Enters current nome w
      kinds false o dir e = inl ((λ lookup has. no_dir dir has.0), rw dir refl)
      kinds true none dir e = inl ((λ lookup has. none-ne-some (sym e ∙ has.1.1)), rw (dir, e) refl)
      kinds true (some ops) dir e = looked ops ops.lookup dir e refl

  abbrev go_on : List (List ℕ) → Option ℕ × W → Resolved × W
  go_on rest r = elim r.0 [ none ↦ (missing, r.1) | some next ↦ descend inode ms next rest r.1 ]

  descend-Descends :
      (current : ℕ) (names : List (List ℕ)) (w : W)
      → Descends inode ms current names w (descend inode ms current names w)
  unfolding descend
  descend-Descends current [] w = arrived
  descend-Descends current (nome ∷ rest) w = elim (Bool-cases (ltb name_max (length nome))) [
    | inl long ↦ rw long (too_long (ground arith))
    | inr short ↦
        let fits : length nome ≤ name_max = ground arith in
        rw short (elim (enter-cases current nome w) [
          | inl (no_dir, entered_none) ↦
              subst (λ r. Descends inode ms current (nome ∷ rest) w (go_on rest r))
                (sym entered_none) (no_lookup fits no_dir)
          | inr (lookup, has, looks) ↦
              subst (λ r. Descends inode ms current (nome ∷ rest) w (go_on rest r)) (sym looks)
                (outcome lookup (lookup current nome w) has refl fits
                  (λ top w'. descend-Descends top rest w'))
        ])
  ]
    where
      outcome :
          (lookup : ℕ → List ℕ → W → Option ℕ × W) (r : Option ℕ × W)
          → HasLookup inode w current lookup
          → lookup current nome w ≡ r
          → length nome ≤ name_max
          → ((top : ℕ) (w' : W) → Descends inode ms top rest w' (descend inode ms top rest w'))
          → Descends inode ms current (nome ∷ rest) w (go_on rest (on_top r))
      outcome lookup (none, w') has looks fits rest_descends = absent lookup fits has looks
      outcome lookup (some next, w') has looks fits rest_descends =
          entered lookup fits has looks (risolvi_mount-OnTop ms next)
            (rest_descends (risolvi_mount ms next) w')

-- vfs_resolve refuses a path that is not absolute, or too long, before any lookup. Otherwise it
-- looks the names of the path up one after another, from what is mounted on the root, each in a
-- directory that has a lookup, and goes on from the top of the mounts on what it finds, in at most
-- 4 steps. The first name that is too long or not found ends it.
pub resolve-Resolves :
    {W : Type 0} (inode : W → ℕ → Inode W) (v : Vfs) (path : List ℕ) (w : W)
    → IsText path
    → Resolves inode v path w (resolve inode v path w)
resolve-Resolves inode v path w t =
    rw (resolve-descend inode v path w t) (elim (Bool-cases (is_path path)) [
      | inl good ↦ rw good (
          walked good (risolvi_mount-OnTop v.mountpoints v.root) (
            descend-Descends inode v.mountpoints (risolvi_mount v.mountpoints v.root)
              (components path) w))
      | inr bad ↦ rw bad (refused bad)
    ])
