-- ===== src/Dev/Invariant.antt =====
-- The invariant of the registry, and what a lookup finds after dev_register.
use mathlib.Core.Path.{subst₂}
use waltex.Base.{
  ltb, Bool-cases, length, set, length-set, get_or-set_self, get_or-set_ne, ℕ, ◌+◌, ◌≤◌, ◌<◌, ◌≡◌,
  refl, sym, ap, ◌∙◌, subst, ◌⊎◌, inl, inr, true, arith,
}
use waltex.CString.{strlen, text, is_zero}
use waltex.CString.Laws.{is_zero_eq}
use waltex.Dev.{
  Registry, init, count, DevEntry, is_device, dev_max, entry_at, dev_name_max, blank, register,
}
use waltex.Dev.Register.{
  Accepts, register_refused, register-Passes, register_iff, register_accepted,
}

-- The array is whole, every entry is one that dev_register admits, and no two share a name or a
-- pair of numbers.
pub record IsRegistry (r : Registry) : Type 0 where
  pub size : length r.entries ≡ dev_max
  pub fits : r.curr ≤ dev_max
  pub device : (i : ℕ) → i < r.curr → is_device (entry_at r i).kind ≡ true
  pub terminated : (i : ℕ) → i < r.curr → strlen (entry_at r i).name < dev_name_max
  pub one_name :
      (i j : ℕ)
      → i < r.curr
      → j < r.curr
      → text (entry_at r i).name ≡ text (entry_at r j).name
      → i ≡ j
  pub one_id :
      (i j : ℕ)
      → i < r.curr
      → j < r.curr
      → (entry_at r i).major ≡ (entry_at r j).major
      → (entry_at r i).minor ≡ (entry_at r j).minor
      → i ≡ j

-- dev_init establishes the invariant, with no device.
pub init-IsRegistry : (r : Registry) → IsRegistry (init r) × (count (init r) ≡ 0)
unfolding init count
init-IsRegistry r = (
  record {
    size = refl;
    fits = omega arith;
    device = λ i lt. absurd (omega arith);
    terminated = λ i lt. absurd (omega arith);
    one_name = λ i j lt. absurd (omega arith);
    one_id = λ i j lt. absurd (omega arith);
  },
  refl,
)

-- The registry that dev_register leaves when it accepts.
abbrev pub extend : Registry → DevEntry → Registry
extend r e = record r { curr = r.curr + 1; entries = set r.entries r.curr e }

pub entry_at_last :
    (r : Registry) (e : DevEntry)
    → IsRegistry r
    → r.curr < dev_max
    → entry_at (extend r e) r.curr ≡ e
entry_at_last r e w room = get_or-set_self r.entries r.curr e blank (omega (arith, w.size))

pub entry_at_old :
    (r : Registry) (e : DevEntry) (i : ℕ) → i < r.curr → entry_at (extend r e) i ≡ entry_at r i
entry_at_old r e i lt = get_or-set_ne r.entries r.curr i e blank (λ p. omega arith)

module _ (r : Registry) (e : DevEntry) (w : IsRegistry r) (a : Accepts r e) where
  -- An index is an old one, or the last.
  extend_cases :
      (i : ℕ)
      → i < r.curr + 1
      → ((i < r.curr) × (entry_at (extend r e) i ≡ entry_at r i))
        ⊎ ((i ≡ r.curr) × (entry_at (extend r e) i ≡ e))
  extend_cases i lt = elim (Bool-cases (ltb i r.curr)) [
    | inl h ↦ inl (ground arith, entry_at_old r e i (ground arith))
    | inr h ↦
        let last : i ≡ r.curr = ground arith in
        inr (last, ap (entry_at (extend r e)) last ∙ entry_at_last r e w a.room)
  ]

  -- A property of the old entries and of the new one holds of all.
  extend_all :
      (P : DevEntry → Type 0)
      → ((i : ℕ) → i < r.curr → P (entry_at r i))
      → P e
      → (i : ℕ) → i < r.curr + 1
      → P (entry_at (extend r e) i)
  extend_all P old new i lt = elim (extend_cases i lt) [
    | inl (h, same) ↦ subst P (sym same) (old i h)
    | inr (last, same) ↦ subst P (sym same) new
  ]

  -- A relation that tells the old entries apart, and each of them from the new one, tells all
  -- apart.
  extend_one :
      (R : DevEntry → DevEntry → Type 0)
      → ((x y : DevEntry) → R x y → R y x)
      → ((i j : ℕ) → i < r.curr → j < r.curr → R (entry_at r i) (entry_at r j) → i ≡ j)
      → ((i : ℕ) → i < r.curr → ¬ R (entry_at r i) e)
      → (i j : ℕ) → i < r.curr + 1
      → j < r.curr + 1
      → R (entry_at (extend r e) i) (entry_at (extend r e) j)
      → i ≡ j
  extend_one R flip old new i j lti ltj h = elim (extend_cases i lti) [
    | inl (lt, same) ↦ elim (extend_cases j ltj) [
      | inl (lt', same') ↦ old i j lt lt' (subst₂ R same same' h)
      | inr (last', same') ↦ absurd (new i lt (subst₂ R same same' h))
    ]
    | inr (last, same) ↦ elim (extend_cases j ltj) [
      | inl (lt', same') ↦ absurd (new j lt' (flip _ _ (subst₂ R same same' h)))
      | inr (last', same') ↦ last ∙ sym last'
    ]
  ]

  pub extend-IsRegistry : IsRegistry (extend r e)
  extend-IsRegistry = record {
    size = length-set r.entries r.curr e ∙ w.size;
    fits = omega (arith, a.room);
    device = extend_all (λ x. is_device x.kind ≡ true) w.device a.device;
    terminated = extend_all (λ x. strlen x.name < dev_name_max) w.terminated a.terminated;
    one_name = extend_one (λ x y. text x.name ≡ text y.name) (λ x y p. sym p) w.one_name a.new_name;
    one_id = λ i j lti ltj p q.
        extend_one (λ x y. (x.major ≡ y.major) × (x.minor ≡ y.minor)) (λ x y p. (sym p.0, sym p.1))
          (λ i j lt lt' p. w.one_id i j lt lt' p.0 p.1) a.new_id i j lti ltj (p, q);
  }

-- dev_register keeps the invariant: on every path, names and pairs of numbers stay unique, and
-- every name keeps its NUL.
pub register-IsRegistry : (r : Registry) (e : DevEntry) → IsRegistry r → IsRegistry (register r e).1
register-IsRegistry r e w = elim (Bool-cases (is_zero (register r e).0)) [
  | inl took ↦
      let accepted = is_zero_eq (register r e).0 took in
      subst (λ p. IsRegistry p.1) (sym (register_accepted r e ((register-Passes r e).0 accepted)))
        (extend-IsRegistry r e w ((register_iff r e).0 accepted))
  | inr refused ↦ subst (λ p. IsRegistry p.1) (sym (register_refused r e (λ p. cc (p, refused)))) w
]
