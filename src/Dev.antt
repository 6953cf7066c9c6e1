-- ===== src/Dev.antt =====
-- kernel/dev.c, include/dev.h: the registry of devices. It keeps identity and presence, and no I/O.
pub mod Names
pub mod Register
pub mod Invariant
pub mod Find
mod Examples
use waltex.Base.{
  leb, ◌==◌, if◌then◌else◌, ℤ, pos, negsuc, is_some, get_or, set, replicate, first_index, ℕ, ◌+◌,
  Bool, true, false, not, ◌&&◌, Option, none, some, List, [], ◌∷◌,
}
use waltex.CString.{str_eq}

-- DEV_MAX
abbrev pub dev_max : ℕ
dev_max = 16

-- DEV_NAME_MAX
abbrev pub dev_name_max : ℕ
dev_name_max = 16

-- enum dev_kind; any other value of the enum is `unknown_kind`.
pub data DevKind : Type 0 where
  dev_none dev_char dev_block unknown_kind : DevKind

-- struct dev_entry. `name` is the array of bytes, and `impl` the pointer that the entry refers to
-- (0 is null).
pub record DevEntry : Type 0 where
  pub name : List ℕ
  pub kind : DevKind
  pub major : ℕ
  pub minor : ℕ
  pub impl : ℕ

abbrev pub blank : DevEntry
blank = record { name = replicate dev_name_max 0; kind = dev_none; major = 0; minor = 0; impl = 0 }

-- `curr` and `entries`
pub record Registry : Type 0 where
  pub curr : ℕ
  pub entries : List DevEntry

abbrev pub entry_at : Registry → ℕ → DevEntry
entry_at r i = get_or r.entries i blank

-- dev_init
unfoldable pub init : Registry → Registry
init r = record { curr = 0; entries = replicate dev_max blank }

abbrev pub has_id : ℕ → ℕ → DevEntry → Bool
has_id major minor e = e.major == major && e.minor == minor

-- dev_by_id, as the index of the entry it points to
unfoldable pub by_id : Registry → ℕ → ℕ → Option ℕ
by_id r major minor = first_index (λ i. has_id major minor (entry_at r i)) 0 r.curr

-- An index, or -1.
abbrev pub index_or_minus_one : Option ℕ → ℤ
index_or_minus_one none = negsuc 0
index_or_minus_one (some i) = pos i

-- dev_lookup_index
unfoldable pub lookup_index : Registry → List ℕ → ℤ
lookup_index r name =
    index_or_minus_one (first_index (λ i. str_eq (entry_at r i).name name) 0 r.curr)

-- dev_get
unfoldable pub get : Registry → ℤ → Option DevEntry
get r (pos i) = if leb r.curr i then none else some (entry_at r i)
get r (negsuc n) = none

-- dev_count
unfoldable pub count : Registry → ℕ
count r = r.curr

-- The scan of dev_register for the NUL: it looks at DEV_NAME_MAX bytes at most. `n` is how many it
-- has passed.
unfoldable pub is_terminated : List ℕ → ℕ → Bool
is_terminated [] n = true
is_terminated (c ∷ s) n =
    let rest = is_terminated s (n + 1) in
    if c == 0 then true else if leb dev_name_max (n + 1) then false else rest

abbrev pub is_device : DevKind → Bool
is_device dev_char = true
is_device dev_block = true
is_device _ = false

-- dev_register: 0 or -1, and the registry afterwards. The entry's bytes are copied.
unfoldable pub register : Registry → DevEntry → ℤ × Registry
register r e =
    if is_some (by_id r e.major e.minor)
    then (negsuc 0, r)
    else if leb dev_max r.curr
    then (negsuc 0, r)
    else if not (is_device e.kind)
    then (negsuc 0, r)
    else if not (is_terminated e.name 0)
    then (negsuc 0, r)
    else if str_eq e.name []
    then (negsuc 0, r)
    else if is_some (first_index (λ i. str_eq (entry_at r i).name e.name) 0 r.curr)
    then (negsuc 0, r)
    else (pos 0, record r { curr = r.curr + 1; entries = set r.entries r.curr e })
