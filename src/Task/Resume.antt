-- ===== src/Task/Resume.antt =====
-- schedule keeps the contexts apart: a task goes on with the stack pointer that was saved for it.
use waltex.Base.{
  get_or, get_or-set_self, get_or-set_ne, ℕ, ◌≡◌, refl, sym, ap, ◌≢◌, ◌⊎◌, inl, inr, Option, none,
  some, arith,
}
use waltex.Task.{Table, next, schedule, switch_to, max_tasks, blank}
use waltex.Task.Fair.{IsTable}
use waltex.Task.Next.{Chosen, next-Chosen}

-- The stack pointer that is saved for task `p`.
abbrev pub saved : Table → ℕ → ℕ
saved t p = (get_or t.tasks p blank).esp

-- What schedule does to the saved stack pointers.
abbrev pub Switched : Table → ℕ → Table × ℕ → Type 0
Switched t e (t', loaded) =
    ((t' ≡ t) × (loaded ≡ e))
    ⊎ ((t'.current ≢ t.current)
        × (saved t' t.current ≡ e)
        × (loaded ≡ saved t t'.current)
        × ((p : ℕ) → p ≢ t.current → saved t' p ≡ saved t p))

switch_to-Switched :
    (t : Table) (e : ℕ) (o : Option ℕ)
    → IsTable t
    → Chosen t.tasks max_tasks t.current o
    → Switched t e (switch_to t e o)
unfolding switch_to
switch_to-Switched t e none w nobody = inl (refl, refl)
switch_to-Switched t e (some i) w (d, ge, lt, at, hit, first) = inr (
  λ same. absurd (omega (arith, w.current_in)),
  ap (λ x. x.esp) (get_or-set_self t.tasks t.current _ blank (omega (arith, w.size, w.current_in))),
  refl,
  λ p ne. ap (λ x. x.esp) (get_or-set_ne t.tasks t.current p _ blank (λ s. ne (sym s))),
)

-- schedule either finds nobody else and changes nothing, or moves to another task: the processor's
-- stack pointer is saved for the task that leaves, the one saved for the task that comes is loaded,
-- and no other saved one changes.
pub schedule-Switched : (t : Table) (e : ℕ) → IsTable t → Switched t e (schedule t e)
unfolding schedule
schedule-Switched t e w =
    switch_to-Switched t e (next t.tasks max_tasks t.current) w
      (next-Chosen t.tasks max_tasks t.current (omega arith))
