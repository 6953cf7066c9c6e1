-- ===== src/Task/Create.antt =====
-- task_create takes the first free slot and builds the stack of a task that was switched
-- away from.
use waltex.Base.{
  not-true, not-false, length, get_or, set, drop, length-set, get_or-set_self, get_or-set_ne,
  drop-set, drop-length, FirstIn, first_index-FirstIn, ℕ, zero, suc, ◌+◌, ◌-◌, ◌*◌, ◌%◌, ◌^◌, ◌≤◌,
  ◌<◌, ◌≡◌, refl, sym, ap, ◌∙◌, ◌≢◌, true, false, not, Option, none, some, List, [], ◌∷◌, arith,
}
use waltex.Task.{
  Task, Table, ready_at, max_tasks, blank, create, free_slot, build_frame, initial_eflags,
  stack_words, fill_slot, new_task,
}
use waltex.Task.Fair.{IsTable}

-- The first free slot of the table, or none free.
abbrev pub FirstFree : List Task → Option ℕ → Type 0
FirstFree tasks = FirstIn (λ i. not (ready_at tasks i)) 0 max_tasks

-- The words of a stack from the top one on.
record Top (words : List ℕ) (sp : ℕ) (above : List ℕ) : Type 0 where
  size : length words ≡ stack_words
  fits : sp ≤ stack_words
  holds : drop sp words ≡ above

Top-push :
    (words : List ℕ) (sp v : ℕ) (above : List ℕ)
    → Top words sp above
    → 0 < sp
    → Top (set words (sp - 1) v) (sp - 1) (v ∷ above)
Top-push words zero v above top some_in = absurd (omega arith)
Top-push words (suc sp) v above top some_in = record {
  size = length-set words (suc sp - 1) v ∙ top.size;
  fits = omega (arith, top.fits);
  holds =
      let same : suc sp - 1 ≡ sp = omega arith in
      rw same (drop-set words sp v (omega (arith, top.size, top.fits)) ∙ ap (λ l. v ∷ l) top.holds);
}

-- What task_switch pops from a new task: edi, esi, ebx and ebp, then eflags, then the entry point.
abbrev pub frame : ℕ → List ℕ
frame entry = 0 ∷ 0 ∷ 0 ∷ 0 ∷ initial_eflags ∷ entry ∷ []

pub build_frame-frame :
    (stack : List ℕ) (entry : ℕ)
    → length stack ≡ stack_words
    → let (words, sp) = build_frame stack entry in
      (drop sp words ≡ frame entry) × (sp ≡ stack_words - 6) × (length words ≡ stack_words)
unfolding build_frame
build_frame-frame stack entry e = (top.holds, refl, top.size)
  where
    empty : Top stack stack_words []
    empty = record {
      size = e;
      fits = omega arith;
      holds = ap (λ n. drop n stack) (sym e) ∙ drop-length stack;
    }

    two : Top (set (set stack 1023 entry) 1022 initial_eflags) 1022 (initial_eflags ∷ entry ∷ [])
    two =
        Top-push _ 1023 initial_eflags _ (Top-push stack 1024 entry [] empty (omega arith))
          (omega arith)

    top : Top (build_frame stack entry).0 1018 (frame entry)
    top =
        Top-push _ 1019 0 _
          (Top-push _ 1020 0 _
            (Top-push _ 1021 0 _ (Top-push _ 1022 0 _ two (omega arith)) (omega arith))
            (omega arith))
          (omega arith)

-- What task_create does to a table.
abbrev pub Created : (ℕ → ℕ) → Table → ℕ → Option ℕ × Table → Type 0
Created base t entry (none, t') = (t' ≡ t) × ((j : ℕ) → j < max_tasks → ready_at t.tasks j ≡ true)
Created base t entry (some k, t') =
    (k < max_tasks)
    × (ready_at t.tasks k ≡ false)
    × (ready_at t'.tasks k ≡ true)
    × (t'.current ≡ t.current)
    × (drop (stack_words - 6) (get_or t'.tasks k blank).stack ≡ frame entry)
    × ((get_or t'.tasks k blank).esp ≡ (base k + 4 * stack_words - 24) % 2 ^ 32)
    × ((j : ℕ) → j ≢ k → get_or t'.tasks j blank ≡ get_or t.tasks j blank)

fill_slot-Created :
    (base : ℕ → ℕ) (t : Table) (entry : ℕ) (o : Option ℕ)
    → IsTable t
    → ((j : ℕ) → j < max_tasks → length (get_or t.tasks j blank).stack ≡ stack_words)
    → FirstFree t.tasks o
    → Created base t entry (fill_slot base t entry o)
unfolding fill_slot new_task build_frame
fill_slot-Created base t entry none w stacks full =
    (refl, λ j lt. not-false (full j (omega arith) lt))
fill_slot-Created base t entry (some k) w stacks (ge, lt, free, before) =
    let made = build_frame-frame (get_or t.tasks k blank).stack entry (stacks k lt) in
    rw (get_or-set_self t.tasks k (new_task base t.tasks k entry) blank (omega (arith, w.size))) (
      lt,
      not-true free,
      refl,
      refl,
      made.0,
      ap (λ n. n % 2 ^ 32) (omega (arith, made.1)),
      λ j ne. get_or-set_ne t.tasks k j _ blank (λ e. ne (sym e)),
    )

-- task_create on a whole table: -1 exactly leaves the table as it is, and then every slot is taken.
-- Otherwise the slot was free and is ready, its stack pointer is 24 bytes under the top of its
-- stack and the words from there on are the frame that task_switch pops; the current task and
-- every other slot are untouched.
pub create-Created :
    (base : ℕ → ℕ) (t : Table) (entry : ℕ)
    → IsTable t
    → ((j : ℕ) → j < max_tasks → length (get_or t.tasks j blank).stack ≡ stack_words)
    → Created base t entry (create base t entry)
unfolding create free_slot
create-Created base t entry w stacks =
    fill_slot-Created base t entry (free_slot t.tasks) w stacks
      (first_index-FirstIn (λ i. not (ready_at t.tasks i)) 0 max_tasks)
