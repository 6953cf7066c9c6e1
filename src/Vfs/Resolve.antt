-- ===== src/Vfs/Resolve.antt =====
-- vfs_resolve, risolvi_mount, spezza_path and crea_ultimo of kernel/vfs.c.
use mathlib.Core.Option
use waltex.Base.{
  ltb, leb, ◌==◌, if◌then◌else◌, length, take, drop, ℕ, zero, suc, ◌+◌, Bool, true, not, ◌&&◌,
  Option, none, some, List, [], ◌∷◌,
}
use waltex.CString.{strchr, strlen}
use waltex.Vfs.Types.{Vfs, Mount, Inode, is_dir, path_max, name_max, max_mounts}

-- The inner loop of risolvi_mount: the root mounted on `ino`, 0 if there is none.
unfoldable pub mounted_on : List Mount → ℕ → ℕ
mounted_on [] ino = 0
mounted_on (m ∷ ms) ino =
    let rest = mounted_on ms ino in if not (m.punto == 0) && m.punto == ino then m.root else rest

-- The outer loop, with the rounds left.
unfoldable pub follow_mounts : ℕ → List Mount → ℕ → ℕ
follow_mounts zero ms ino = ino
follow_mounts (suc giri) ms ino =
    let trovato = mounted_on ms ino in
    let rest = follow_mounts giri ms trovato in if trovato == 0 then ino else rest

-- risolvi_mount
unfoldable pub risolvi_mount : List Mount → ℕ → ℕ
unfolding follow_mounts mounted_on
risolvi_mount ms ino = follow_mounts max_mounts ms ino

-- `while (*p == '/') ++p;`
unfoldable pub skip_slashes : List ℕ → List ℕ
skip_slashes [] = []
skip_slashes (c ∷ p) = let rest = skip_slashes p in if c == b'/' then rest else c ∷ p

-- `*p == '\0'`
abbrev pub at_end : List ℕ → Bool
at_end [] = true
at_end (c ∷ p) = c == 0

-- `fine = strchr(p, '/')` and the length of the component.
unfoldable pub component_length : List ℕ → ℕ
component_length p = elim (strchr p b'/') [ some n ↦ n | none ↦ strlen p ]

-- The outcome of vfs_resolve. `stuck` is for a loop that ran out of rounds.
pub data Resolved : Type 0 where
  found : ℕ → Resolved
  missing : Resolved
  stuck : Resolved

module _ {W : Type 0} (inode : W → ℕ → Inode W) where
  -- `current->ops->lookup`, where both pointers are there.
  abbrev pub lookup_of : W → ℕ → Option (ℕ → List ℕ → W → Option ℕ × W)
  lookup_of w current = elim (inode w current).ops [ none ↦ none | some ops ↦ ops.lookup ]

  -- One component: the checks on `current`, the lookup, and the mount on what it finds.
  unfoldable pub enter : List Mount → ℕ → List ℕ → W → Option ℕ × W
  enter ms current nome w =
      if not (is_dir (inode w current).kind) then (none, w) else elim (lookup_of w current) [
        | none ↦ (none, w)
        | some lookup ↦
            let (prossimo, w') = lookup current nome w in
            (Option.map (risolvi_mount ms) prossimo, w')
      ]

  -- The `for (;;)` of vfs_resolve after the slashes are skipped; `go` is the next round.
  unfoldable pub advance :
      (ℕ → List ℕ → W → Resolved × W) → List Mount → ℕ → List ℕ → W → Resolved × W
  advance go ms current p w =
      let lunghezza = component_length p in
      let step = enter ms current (take lunghezza p) w in
      if at_end p
      then (found current, w)
      else if ltb name_max lunghezza
      then (missing, w)
      else elim step.0 [ none ↦ (missing, step.1) | some next ↦ go next (drop lunghezza p) step.1 ]

  -- The `for (;;)` of vfs_resolve.
  unfoldable pub walk : ℕ → List Mount → ℕ → List ℕ → W → Resolved × W
  walk zero ms current p w = (stuck, w)
  walk (suc rounds) ms current p w = advance (walk rounds ms) ms current (skip_slashes p) w

  -- vfs_resolve. A component takes at least one byte, so one round more than bytes is enough.
  unfoldable pub resolve : Vfs → List ℕ → W → Resolved × W
  unfolding walk advance enter
  resolve v [] w = (missing, w)
  resolve v (c ∷ p) w =
      if not (c == b'/')
      then (missing, w)
      else if leb path_max (strlen (c ∷ p))
      then (missing, w)
      else walk (length p + 1) v.mountpoints (risolvi_mount v.mountpoints v.root) p w
