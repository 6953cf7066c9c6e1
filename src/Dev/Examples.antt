-- ===== src/Dev/Examples.antt =====
-- kernel/dev.c at a registry with one device.
use waltex.Base.{pos, negsuc, replicate, first_index, ℕ, ◌<◌, ◌≡◌, refl, ◌↔◌, some, List, ◌∷◌}
use waltex.CString.{strcmp, str_eq}
use waltex.Dev.{
  init, register, blank, entry_at, dev_char, Registry, get, by_id, DevEntry, lookup_index,
  is_terminated,
}
use waltex.Dev.Find.{lookup-register, by_id_iff}
use waltex.Dev.Invariant.{init-IsRegistry, extend, register-IsRegistry, IsRegistry}
use waltex.Dev.Register.{Accepts, register_iff}

abbrev started : Registry
started = record { curr = 0; entries = replicate 16 blank }

abbrev tty_name : List ℕ
tty_name = b't' ∷ b't' ∷ b'y' ∷ replicate 13 0

abbrev tty : DevEntry
tty = record { name = tty_name; kind = dev_char; major = 4; minor = 0; impl = 1 }

started-IsRegistry : IsRegistry started
unfolding init
started-IsRegistry = (init-IsRegistry started).0

tty_accepted : (register started tty).0 ≡ pos 0
unfolding register by_id is_terminated first_index str_eq strcmp
tty_accepted = refl

abbrev with_tty : Registry
with_tty = extend started tty

with_tty-IsRegistry : IsRegistry with_tty
unfolding register by_id is_terminated first_index str_eq strcmp
with_tty-IsRegistry = register-IsRegistry started tty started-IsRegistry

-- The same name or the same numbers again are refused, and so is a name without its NUL.
refusals :
    ((register with_tty (record tty { minor = 1 })).0 ≡ negsuc 0)
    × ((register with_tty (record tty { name = b'x' ∷ replicate 15 0 })).0 ≡ negsuc 0)
    × ((register started (record tty { name = replicate 16 b'x' })).0 ≡ negsuc 0)
unfolding register by_id is_terminated first_index str_eq strcmp
refusals = (refl, refl, refl)

register_iff_run : ((register started tty).0 ≡ pos 0) ↔ Accepts started tty
register_iff_run = register_iff started tty

register-IsRegistry_example : IsRegistry (register started tty).1
register-IsRegistry_example = register-IsRegistry started tty started-IsRegistry

lookup-register_run :
    let r' = (register started tty).1 in
    (get r' (lookup_index r' tty_name) ≡ some tty)
    × (by_id r' 4 0 ≡ some 0)
    × ((name : List ℕ) (i : ℕ) → lookup_index started name ≡ pos i → lookup_index r' name ≡ pos i)
lookup-register_run = lookup-register started tty started-IsRegistry tty_accepted

by_id_iff_run :
    (by_id with_tty 4 0 ≡ some 0)
    ↔ ((0 < 1) × ((entry_at with_tty 0).major ≡ 4) × ((entry_at with_tty 0).minor ≡ 0))
by_id_iff_run = by_id_iff with_tty 4 0 0 with_tty-IsRegistry
