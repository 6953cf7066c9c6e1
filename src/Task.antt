-- ===== src/Task.antt =====
-- kernel/task.c, include/task.h: the table of tasks, the round-robin choice and the context switch.
-- kernel/switch.S is the assembly that saves and loads a stack pointer.
pub mod Next
pub mod Fair
pub mod Create
pub mod Resume
mod Examples
use mathlib.Core.Option
use waltex.Base.{
  leb, if◌then◌else◌, ℤ, pos, negsuc, get_or, set, first_index, ℕ, ◌+◌, ◌-◌, ◌*◌, ◌%◌, ◌^◌, Bool,
  true, false, not, Option, none, some, List, [], ◌∷◌,
}

-- MAX_TASKS
abbrev pub max_tasks : ℕ
max_tasks = 8

-- TASK_STACK_SIZE, in 32-bit words
abbrev pub stack_words : ℕ
stack_words = 1024

-- TASK_INITIAL_EFLAGS
abbrev pub initial_eflags : ℕ
initial_eflags = 0x202

-- enum task_state
pub data TaskState : Type 0 where
  task_free task_ready : TaskState

-- struct task. The stack is read and written by words.
pub record Task : Type 0 where
  pub esp : ℕ
  pub state : TaskState
  pub stack : List ℕ

abbrev pub blank : Task
blank = record { esp = 0; state = task_free; stack = [] }

-- `tasks` and `current_task`
pub record Table : Type 0 where
  pub tasks : List Task
  pub current : ℕ

abbrev pub is_ready : TaskState → Bool
is_ready task_ready = true
is_ready task_free = false

abbrev pub ready_at : List Task → ℕ → Bool
ready_at table i = is_ready (get_or table i blank).state

-- The loop of task_init.
pub free_all : List Task → List Task
free_all [] = []
free_all (x ∷ xs) = record x { state = task_free } ∷ free_all xs

-- task_init
pub init : Table → Table
unfolding free_all
init t =
    let tasks = free_all t.tasks in
    record {
      tasks = set tasks 0 (record (get_or tasks 0 blank) { state = task_ready });
      current = 0;
    }

-- task_next: `none` is -1. The loop is over the offset `k` from the current task.
pub next : List Task → ℕ → ℕ → Option ℕ
next table n current =
    Option.map (λ k. (current + k) % n)
      (first_index (λ k. ready_at table ((current + k) % n)) 1 (n - 1))

-- The rest of schedule, given the choice. task_switch saves the stack pointer of the processor,
-- `cpu_esp`, in the old task and loads the new one's.
pub switch_to : Table → ℕ → Option ℕ → Table × ℕ
switch_to t cpu_esp none = (t, cpu_esp)
switch_to t cpu_esp (some i) = (
  record {
    tasks = set t.tasks t.current (record (get_or t.tasks t.current blank) { esp = cpu_esp });
    current = i;
  },
  (get_or t.tasks i blank).esp,
)

-- schedule: the table afterwards, and the stack pointer that the processor goes on with.
pub schedule : Table → ℕ → Table × ℕ
unfolding switch_to
schedule t cpu_esp = switch_to t cpu_esp (next t.tasks max_tasks t.current)

-- The loop of task_create: the first slot in the state TASK_FREE.
pub free_slot : List Task → Option ℕ
free_slot tasks = first_index (λ i. not (ready_at tasks i)) 0 max_tasks

-- `*--sp = v`, on the words of a stack and the index of the top one.
abbrev pub push_word : List ℕ × ℕ → ℕ → List ℕ × ℕ
push_word (stack, sp) v = (set stack (sp - 1) v, sp - 1)

-- The six stores of task_create: the entry point, eflags, and ebp, ebx, esi, edi.
pub build_frame : List ℕ → ℕ → List ℕ × ℕ
build_frame stack entry =
    push_word
      (push_word
        (push_word (push_word (push_word (push_word (stack, stack_words) entry) initial_eflags) 0)
          0)
        0)
      0

-- The slot that task_create fills. `base i` is the address of tasks[i].stack, which the linker
-- chooses.
pub new_task : (ℕ → ℕ) → List Task → ℕ → ℕ → Task
new_task base tasks slot entry =
    let (stack, sp) = build_frame (get_or tasks slot blank).stack entry in
    record { esp = (base slot + 4 * sp) % 2 ^ 32; state = task_ready; stack = stack }

-- The rest of task_create, given the slot.
pub fill_slot : (ℕ → ℕ) → Table → ℕ → Option ℕ → Option ℕ × Table
fill_slot base t entry none = (none, t)
fill_slot base t entry (some slot) =
    (some slot, record t { tasks = set t.tasks slot (new_task base t.tasks slot entry) })

-- task_create: `none` is -1.
pub create : (ℕ → ℕ) → Table → ℕ → Option ℕ × Table
unfolding fill_slot
create base t entry = fill_slot base t entry (free_slot t.tasks)

-- task_slot
unfoldable pub slot : Table → ℤ → Option Task
slot t (pos i) = if leb max_tasks i then none else some (get_or t.tasks i blank)
slot t (negsuc n) = none
