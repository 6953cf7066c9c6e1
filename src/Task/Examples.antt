-- ===== src/Task/Examples.antt =====
-- kernel/task.c at a table with two ready tasks.
use waltex.Base.{
  length, get_or, take, replicate, get_or-replicate, first_index, ℕ, zero, suc, ◌*◌, ◌≤◌, ◌<◌, ◌≡◌,
  refl, ap, ◌∷◌, arith,
}
use waltex.Task.{next, switch_to, create, blank, task_ready, schedule, Task, task_free, Table}
use waltex.Task.Create.{Created, create-Created}
use waltex.Task.Fair.{IsTable, run, run_fair}
use waltex.Task.Next.{Chosen, next-Chosen}
use waltex.Task.Resume.{Switched, schedule-Switched}

abbrev ready_task : ℕ → Task
ready_task esp = record { esp = esp; state = task_ready; stack = replicate 1024 0 }

abbrev free_task : Task
free_task = record { esp = 0; state = task_free; stack = replicate 1024 0 }

-- Task 0 runs, and task 2 was switched away from at 500.
abbrev two : Table
two = record {
  tasks = ready_task 0 ∷ free_task ∷ ready_task 500 ∷ replicate 5 free_task;
  current = 0;
}

two-IsTable : IsTable two
two-IsTable = record { size = refl; current_in = omega arith }

switched : ((schedule two 300).0.current ≡ 2) × ((schedule two 300).1 ≡ 500)
unfolding schedule switch_to next first_index
switched = (refl, refl)

run_fair_example : (k : ℕ) × (k ≤ 7) × ((run two (take k (replicate 7 300))).current ≡ 2)
run_fair_example = run_fair two 2 (replicate 7 300) two-IsTable (omega arith) refl refl

next-Chosen_run : Chosen two.tasks 8 0 (next two.tasks 8 0)
next-Chosen_run = next-Chosen two.tasks 8 0 (omega arith)

schedule-Switched_run : Switched two 300 (schedule two 300)
schedule-Switched_run = schedule-Switched two 300 two-IsTable

stacks : (j : ℕ) → j < 8 → length (get_or two.tasks j blank).stack ≡ 1024
stacks zero lt = refl
stacks (suc zero) lt = refl
stacks (suc (suc zero)) lt = refl
stacks (suc (suc (suc j))) lt =
    ap (λ t. length t.stack) (get_or-replicate 5 j free_task blank (omega arith))

create-Created_example : Created (λ i. 4096 * i) two 12345 (create (λ i. 4096 * i) two 12345)
create-Created_example = create-Created (λ i. 4096 * i) two 12345 two-IsTable stacks
