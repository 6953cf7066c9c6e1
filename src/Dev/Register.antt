-- ===== src/Dev/Register.antt =====
-- dev_register: the six refusals, the invariant of the registry, and lookup after registration.
use waltex.Base.{
  leb, pos, negsuc, Bool-cases, is_some, set, first_index, first_index_none_iff, ℕ, ◌+◌, ◌<◌, ◌≡◌,
  ◌≢◌, ◌↔◌, inl, inr, true, false, List, [], arith,
}
use waltex.CString.{strlen, str_eq, text}
use waltex.CString.Laws.{str_eq_iff}
use waltex.Dev.{
  DevEntry, Registry, dev_max, dev_name_max, entry_at, by_id, is_terminated, is_device, register,
  has_id,
}
use waltex.Dev.Names.{is_terminated_iff}

-- What include/dev.h asks of an entry, in the words of the header: room, a kind, a terminated and
-- non-empty name, a new name and a new pair of numbers.
pub record Accepts (r : Registry) (e : DevEntry) : Type 0 where
  pub room : r.curr < dev_max
  pub device : is_device e.kind ≡ true
  pub terminated : strlen e.name < dev_name_max
  pub named : text e.name ≢ []
  pub new_name : (i : ℕ) → i < r.curr → text (entry_at r i).name ≢ text e.name
  pub new_id :
      (i : ℕ) → i < r.curr → ¬ (((entry_at r i).major ≡ e.major) × ((entry_at r i).minor ≡ e.minor))

-- The six tests of the code, in its order.
abbrev pub Passes : Registry → DevEntry → Type 0
Passes r e =
    (is_some (by_id r e.major e.minor) ≡ false)
    × (leb dev_max r.curr ≡ false)
    × (is_device e.kind ≡ true)
    × (is_terminated e.name 0 ≡ true)
    × (str_eq e.name [] ≡ false)
    × (is_some (first_index (λ i. str_eq (entry_at r i).name e.name) 0 r.curr) ≡ false)

pub register-Passes : (r : Registry) (e : DevEntry) → ((register r e).0 ≡ pos 0) ↔ Passes r e
unfolding register
register-Passes r e = (λ h. ground arith, λ p. ground arith)

-- A refusal is -1 and leaves the registry as it was.
pub register_refused :
    (r : Registry) (e : DevEntry) → (register r e).0 ≢ pos 0 → register r e ≡ (negsuc 0, r)
unfolding register
register_refused r e refused = ground arith

pub register_accepted :
    (r : Registry) (e : DevEntry)
    → Passes r e
    → register r e ≡ (pos 0, record r { curr = r.curr + 1; entries = set r.entries r.curr e })
unfolding register
register_accepted r e p = ground arith

-- One name is another's exactly when the texts are the same; the form that the scans need.
str_eq-false_iff : (a b : List ℕ) → (str_eq a b ≡ false) ↔ (text a ≢ text b)
str_eq-false_iff a b = (
  λ e same. cc (e, (str_eq_iff a b).1 same),
  λ ne. elim (Bool-cases (str_eq a b)) [ inl e ↦ absurd (ne ((str_eq_iff a b).0 e)) | inr e ↦ e ],
)

id_false_iff :
    (major minor : ℕ) (e : DevEntry)
    → (has_id major minor e ≡ false) ↔ (¬ ((e.major ≡ major) × (e.minor ≡ minor)))
id_false_iff major minor e = (
  λ h p. ground (arith, p.0, p.1),
  λ differ. elim (Bool-cases (has_id major minor e)) [
    | inl h ↦ absurd (differ (ground arith, ground arith))
    | inr h ↦ h
  ],
)

-- The two scans that dev_register makes, as statements about every entry.
no_id_iff :
    (r : Registry) (e : DevEntry)
    → (is_some (by_id r e.major e.minor) ≡ false) ↔ (
        (i : ℕ)
        → i < r.curr
        → ¬ (((entry_at r i).major ≡ e.major) × ((entry_at r i).minor ≡ e.minor)))
unfolding by_id
no_id_iff r e =
    let scan = first_index_none_iff (λ i. has_id e.major e.minor (entry_at r i)) r.curr in
    (
      λ h i lt. (id_false_iff e.major e.minor (entry_at r i)).0 (scan.0 h i lt),
      λ h. scan.1 (λ i lt. (id_false_iff e.major e.minor (entry_at r i)).1 (h i lt)),
    )

no_name_iff :
    (r : Registry) (name : List ℕ)
    → (is_some (first_index (λ i. str_eq (entry_at r i).name name) 0 r.curr) ≡ false)
      ↔ ((i : ℕ) → i < r.curr → text (entry_at r i).name ≢ text name)
no_name_iff r name =
    let scan = first_index_none_iff (λ i. str_eq (entry_at r i).name name) r.curr in
    (
      λ h i lt. (str_eq-false_iff (entry_at r i).name name).0 (scan.0 h i lt),
      λ h. scan.1 (λ i lt. (str_eq-false_iff (entry_at r i).name name).1 (h i lt)),
    )

-- dev_register returns 0 for exactly the entries that include/dev.h admits: there is room, the
-- kind is a character or block device, the name has its NUL among its 16 bytes and is not empty,
-- and neither the name nor the pair of numbers is taken.
pub register_iff : (r : Registry) (e : DevEntry) → ((register r e).0 ≡ pos 0) ↔ Accepts r e
unfolding text
register_iff r e = (
  λ h. accepts ((register-Passes r e).0 h),
  λ a. (register-Passes r e).1 (
    (no_id_iff r e).1 a.new_id,
    ground arith,
    a.device,
    (is_terminated_iff e.name 0 (omega arith)).1 (omega (arith, a.terminated)),
    (str_eq-false_iff e.name []).1 a.named,
    (no_name_iff r e.name).1 a.new_name,
  ),
)
  where
    accepts : Passes r e → Accepts r e
    accepts (id, room, kind, nul, named, name) = record {
      room = ground arith;
      device = kind;
      terminated = omega (arith, (is_terminated_iff e.name 0 (omega arith)).0 nul);
      named = (str_eq-false_iff e.name []).0 named;
      new_name = (no_name_iff r e.name).0 name;
      new_id = (no_id_iff r e).0 id;
    }
