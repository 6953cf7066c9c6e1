-- ===== src/Task/Fair.antt =====
-- schedule: who runs next, what it saves and loads, and that no ready task waits for ever.
use waltex.Base.{
  ltb, ◌==◌, ==→eq, Bool-cases, length, get_or, set, take, length-set, ℕ, zero, suc, ◌+◌, ◌-◌, ◌%◌,
  ◌≤◌, ◌<◌, ◌≡◌, refl, ap, ◌∙◌, inl, inr, true, false, Option, none, some, List, [], ◌∷◌, arith,
}
use waltex.Task.{Task, Table, ready_at, next, schedule, max_tasks, blank, switch_to}
use waltex.Task.Next.{next-Chosen, Chosen}

pub record IsTable (t : Table) : Type 0 where
  pub size : length t.tasks ≡ max_tasks
  pub current_in : t.current < max_tasks

-- How many places round the table `j` is after the current task.
abbrev pub distance : Table → ℕ → ℕ
distance t j = (j + max_tasks - t.current) % max_tasks

-- Saving a stack pointer changes nobody's readiness.
ready-save :
    (tasks : List Task) (p i e : ℕ)
    → ready_at (set tasks p (record (get_or tasks p blank) { esp = e })) i ≡ ready_at tasks i
ready-save [] p i e = refl
ready-save (x ∷ xs) zero zero e = refl
ready-save (x ∷ xs) zero (suc i) e = refl
ready-save (x ∷ xs) (suc p) zero e = refl
ready-save (x ∷ xs) (suc p) (suc i) e = ready-save xs p i e

module _ (t : Table) (e : ℕ) (w : IsTable t) where
  chosen : Chosen t.tasks max_tasks t.current (next t.tasks max_tasks t.current)
  chosen = next-Chosen t.tasks max_tasks t.current (omega arith)

  switch_to-IsTable :
      (o : Option ℕ) → Chosen t.tasks max_tasks t.current o → IsTable (switch_to t e o).0
  unfolding switch_to
  switch_to-IsTable none nobody = w
  switch_to-IsTable (some i) (d, ge, lt, at, hit, first) = record {
    size = length-set t.tasks t.current _ ∙ w.size;
    current_in = omega arith;
  }

  pub schedule-IsTable : IsTable (schedule t e).0
  unfolding schedule
  schedule-IsTable = switch_to-IsTable (next t.tasks max_tasks t.current) chosen

  switch_to-ready :
      (o : Option ℕ) (i : ℕ) → ready_at (switch_to t e o).0.tasks i ≡ ready_at t.tasks i
  unfolding switch_to
  switch_to-ready none i = refl
  switch_to-ready (some j) i = ready-save t.tasks t.current i e

  pub schedule-ready : (i : ℕ) → ready_at (schedule t e).0.tasks i ≡ ready_at t.tasks i
  unfolding schedule
  schedule-ready i = switch_to-ready (next t.tasks max_tasks t.current) i

  -- A ready task that is not running comes nearer with every schedule.
  switch_to-nearer :
      (o : Option ℕ) (j : ℕ)
      → Chosen t.tasks max_tasks t.current o
      → j < max_tasks
      → ready_at t.tasks j ≡ true
      → 0 < distance t j
      → distance (switch_to t e o).0 j < distance t j
  unfolding switch_to
  switch_to-nearer none j nobody lt ready away =
      let here : (t.current + distance t j) % max_tasks ≡ j = omega (arith, w.current_in) in
      absurd
        (cc (nobody (distance t j) (omega arith) (omega arith), ap (ready_at t.tasks) here, ready))
  switch_to-nearer (some i) j (d, ge, lt', at, hit, first) lt ready away =
      elim (Bool-cases (ltb (distance t j) d)) [
        | inl before ↦
            let here : (t.current + distance t j) % max_tasks ≡ j = omega (arith, w.current_in) in
            absurd (
              cc (
                first (distance t j) (omega arith) (ground arith),
                ap (ready_at t.tasks) here,
                ready,
              ))
        | inr reached ↦ omega (arith, w.current_in, at, le_of_ltb reached)
      ]
    where
      le_of_ltb : ltb (distance t j) d ≡ false → d ≤ distance t j
      le_of_ltb h = ground arith

  pub schedule-nearer :
      (j : ℕ)
      → j < max_tasks
      → ready_at t.tasks j ≡ true
      → 0 < distance t j
      → distance (schedule t e).0 j < distance t j
  unfolding schedule
  schedule-nearer j = switch_to-nearer (next t.tasks max_tasks t.current) j chosen

-- A run of the scheduler: one schedule for each stack pointer in the list.
pub run : Table → List ℕ → Table
run t [] = t
run t (e ∷ es) = run (schedule t e).0 es

run-reaches :
    (m : ℕ) (t : Table) (j : ℕ) (es : List ℕ)
    → IsTable t
    → j < max_tasks
    → ready_at t.tasks j ≡ true
    → distance t j ≤ m
    → m ≤ length es
    → (k : ℕ) × (k ≤ m) × ((run t (take k es)).current ≡ j)
unfolding run
run-reaches zero t j es w lt ready near long = (0, omega arith, omega (arith, w.current_in))
run-reaches (suc m) t j [] w lt ready near long = absurd (omega arith)
run-reaches (suc m) t j (e ∷ es) w lt ready near long = elim (Bool-cases (distance t j == 0)) [
  | inl here ↦ (0, omega arith, omega (arith, w.current_in, ==→eq _ _ here))
  | inr away ↦
      let (k, le, got) =
        run-reaches m (schedule t e).0 j es (schedule-IsTable t e w) lt
          (schedule-ready t e w j ∙ ready)
          (omega (arith, schedule-nearer t e w j lt ready (ground arith))) (omega arith) in
      (suc k, omega arith, got)
]

-- Fairness: of any run of seven schedules, whatever stack pointers are saved, a ready task is the
-- current one after some number of them.
pub run_fair :
    (t : Table) (j : ℕ) (es : List ℕ)
    → IsTable t
    → j < max_tasks
    → ready_at t.tasks j ≡ true
    → length es ≡ max_tasks - 1
    → (k : ℕ) × (k ≤ max_tasks - 1) × ((run t (take k es)).current ≡ j)
run_fair t j es w lt ready seven =
    run-reaches (max_tasks - 1) t j es w lt ready (omega arith) (omega arith)
