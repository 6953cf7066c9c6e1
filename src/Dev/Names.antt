-- ===== src/Dev/Names.antt =====
-- The NUL scan of dev_register.
use waltex.Base.{leb, Bool-cases, ℕ, ◌+◌, ◌<◌, ◌≡◌, refl, ◌↔◌, inl, inr, true, List, [], ◌∷◌, arith}
use waltex.CString.{strlen}
use waltex.Dev.{dev_name_max, is_terminated}

-- The scan accepts exactly the names whose NUL is among the bytes that it may look at.
pub is_terminated_iff :
    (s : List ℕ) (n : ℕ)
    → n < dev_name_max
    → (is_terminated s n ≡ true) ↔ (strlen s + n < dev_name_max)
unfolding is_terminated strlen
is_terminated_iff [] n h = (λ e. omega arith, λ e. refl)
is_terminated_iff (c ∷ s) n h = elim (Bool-cases (leb dev_name_max (n + 1))) [
  | inl last ↦ ground arith
  | inr more ↦ ground (arith, is_terminated_iff s (n + 1))
]
