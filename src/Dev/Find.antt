-- ===== src/Dev/Find.antt =====
-- dev_lookup_index, dev_by_id and dev_get on a registry that satisfies its invariant.
use mathlib.Core.Path.{fun_ext}
use waltex.Base.{
  pos, first_index, FirstIn, first_index-FirstIn, first_index_unique, ℕ, ◌<◌, ◌≡◌, sym, ap, ◌∙◌,
  subst, ◌↔◌, Bool, Option, none, some, List, arith,
}
use waltex.CString.{strcmp, is_zero, str_eq, text}
use waltex.CString.Laws.{strcmp-text, str_eq_iff}
use waltex.Dev.{
  index_or_minus_one, Registry, get, register, by_id, lookup_index, has_id, DevEntry, entry_at,
}
use waltex.Dev.Invariant.{IsRegistry, entry_at_old, extend-IsRegistry, extend, entry_at_last}
use waltex.Dev.Register.{register-Passes, register_iff, register_accepted}

-- dev_lookup_index finds index i exactly where an entry i is registered under that name: the match
-- is exact, and the index is the registry's.
pub lookup_index_iff :
    (r : Registry) (name : List ℕ) (i : ℕ)
    → IsRegistry r
    → (lookup_index r name ≡ pos i) ↔ ((i < r.curr) × (text (entry_at r i).name ≡ text name))
unfolding lookup_index
lookup_index_iff r name i w = (
  go (first_index test 0 r.curr) (first_index-FirstIn test 0 r.curr),
  λ p. ap index_or_minus_one (
      first_index_unique test r.curr i p.0 ((str_eq_iff _ _).1 p.1)
        (λ j lt hit. w.one_name j i lt p.0 ((str_eq_iff _ _).0 hit ∙ sym p.1))),
)
  where
    test : ℕ → Bool
    test j = str_eq (entry_at r j).name name

    go :
        (o : Option ℕ)
        → FirstIn test 0 r.curr o
        → index_or_minus_one o ≡ pos i
        → (i < r.curr) × (text (entry_at r i).name ≡ text name)
    go none nowhere e = absurd (ground arith)
    go (some j) (ge, lt, hit, first) e =
        let same : j ≡ i = ground arith in
        subst (λ k. (k < r.curr) × (text (entry_at r k).name ≡ text name)) same
          (omega arith, (str_eq_iff _ _).0 hit)

-- dev_by_id finds the one entry with that pair of numbers.
pub by_id_iff :
    (r : Registry) (major minor i : ℕ)
    → IsRegistry r
    → (by_id r major minor ≡ some i)
      ↔ ((i < r.curr) × ((entry_at r i).major ≡ major) × ((entry_at r i).minor ≡ minor))
unfolding by_id
by_id_iff r major minor i w = (
  go (first_index test 0 r.curr) (first_index-FirstIn test 0 r.curr),
  λ p.
      first_index_unique test r.curr i p.0 (ground (arith, p.1, p.2))
        (λ j lt hit. w.one_id j i lt p.0 (ground (arith, p.1)) (ground (arith, p.2))),
)
  where
    test : ℕ → Bool
    test j = has_id major minor (entry_at r j)

    go :
        (o : Option ℕ)
        → FirstIn test 0 r.curr o
        → o ≡ some i
        → (i < r.curr) × ((entry_at r i).major ≡ major) × ((entry_at r i).minor ≡ minor)
    go none nowhere e = absurd (ground arith)
    go (some j) (ge, lt, hit, first) e =
        let same : j ≡ i = ground arith in
        subst (λ k. (k < r.curr) × ((entry_at r k).major ≡ major) × ((entry_at r k).minor ≡ minor))
          same (omega arith, ground arith, ground arith)

-- After a successful dev_register the entry is found by its name and by its pair of numbers, and
-- every name that was found before is found at the same index.
pub lookup-register :
    (r : Registry) (e : DevEntry)
    → IsRegistry r
    → (register r e).0 ≡ pos 0
    → let r' = (register r e).1 in
      (get r' (lookup_index r' e.name) ≡ some e)
      × (by_id r' e.major e.minor ≡ some r.curr)
      × ((name : List ℕ) (i : ℕ) → lookup_index r name ≡ pos i → lookup_index r' name ≡ pos i)
unfolding get
lookup-register r e w h =
    let a = (register_iff r e).0 h in
    let w' = extend-IsRegistry r e w a in
    let last = entry_at_last r e w a.room in
    rw (register_accepted r e ((register-Passes r e).0 h)) (
      rw
          ((lookup_index_iff (extend r e) e.name r.curr w').1
            (omega arith, ap (λ x. text x.name) last))
          (ground (arith, last)),
      (by_id_iff (extend r e) e.major e.minor r.curr w').1
          (omega arith, ap (λ x. x.major) last, ap (λ x. x.minor) last),
      λ name i old.
          let p = (lookup_index_iff r name i w).0 old in
          (lookup_index_iff (extend r e) name i w').1
            (omega (arith, p.0), ap (λ x. text x.name) (entry_at_old r e i p.0) ∙ p.1),
    )

str_eq-text : (x a b : List ℕ) → text a ≡ text b → str_eq x a ≡ str_eq x b
unfolding str_eq
str_eq-text x a b same =
    ap is_zero (strcmp-text x a ∙ (ap (λ t. strcmp (text x) t) same ∙ sym (strcmp-text x b)))

-- A search looks at the text of the name only.
pub lookup_index-text :
    (r : Registry) (a b : List ℕ) → text a ≡ text b → lookup_index r a ≡ lookup_index r b
unfolding lookup_index
lookup_index-text r a b same =
    ap (λ test. index_or_minus_one (first_index test 0 r.curr))
      (fun_ext (λ i. str_eq-text (entry_at r i).name a b same))
