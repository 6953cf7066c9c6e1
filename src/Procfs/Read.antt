-- ===== src/Procfs/Read.antt =====
-- status_read of kernel/procfs.c gives the pieces of the text of a task.
use waltex.Base.{
  ltb, leb, ◌==◌, if◌then◌else◌, pos, ==→eq, Bool-cases, length, get_or, take, drop, length-append,
  take-length, length-drop, take-nil, drop-cons, take-all, drop-all, get_or-append_left, ℕ, zero,
  suc, ◌+◌, ◌-◌, ◌%◌, ◌^◌, ◌≤◌, ◌<◌, min, ◌≡◌, refl, sym, ap, ◌∙◌, inl, inr, true, false, some,
  List, [], ◌∷◌, ◌++◌, arith,
}
use waltex.Kprintf.Buffer.{vsnprintf-cut_to}
use waltex.Kprintf.Hex.{length-hex_text, hex_text}
use waltex.Procfs.{
  genera_status, status_max, task_attivo, task_da_status, ino_of, running_text, status_args,
  ino_status, ready_text, status_format,
}
use waltex.Procfs.Status.{copied, status_read, slice}
use waltex.Procfs.Text.{esp_line, status_text, printed-status}
use waltex.Task.{Table, max_tasks, blank}

length-status_text :
    (t : Table) (i : ℕ) → (get_or t.tasks i blank).esp < 2 ^ 32 → length (status_text t i) ≤ 49
length-status_text t i small =
    let run : List ℕ = if i == t.current then running_text else ready_text in
    let hex = hex_text (get_or t.tasks i blank).esp in
    let short = length-hex_text (get_or t.tasks i blank).esp small in
    let run_short : length run ≤ 7 = elim (Bool-cases (i == t.current)) [
      | inl now ↦ rw now (omega arith)
      | inr later ↦ rw later (omega arith)
    ] in
    omega (
      arith,
      short,
      run_short,
      length-append run (esp_line ++ (hex ++ (10 ∷ []))),
      length-append hex (10 ∷ []),
    )

copied-append :
    (l r : List ℕ) (off n : ℕ) → off + n ≤ length l → copied (l ++ r) off n ≡ take n (drop off l)
unfolding copied
copied-append l r off zero fits = refl
copied-append l r off (suc n) fits =
    let after : off + 1 ≡ suc off = omega arith in
    rw
      (
        drop-cons l off 0 (omega arith),
        get_or-append_left l r off (omega arith),
        copied-append l r (off + 1) n (omega arith),
      )
      (ap (λ k. get_or l off 0 ∷ take n (drop k l)) after)

slice-text :
    (l r : List ℕ) (off n : ℕ) → slice (some (length l, l ++ r)) off n ≡ some (take n (drop off l))
slice-text l r off n = elim (Bool-cases (leb (length l) off)) [
  | inl past ↦ rw (past, drop-all off l (ground arith)) (ap some (sym (take-nil n)))
  | inr inside ↦ rw inside (elim (Bool-cases (ltb (length l - off) n)) [
    | inl cut ↦
        rw (cut, copied-append l r off (length l - off) (ground arith))
          (ap some (
            take-all (length l - off) (drop off l) (omega (arith, length-drop off l))
            ∙ sym (take-all n (drop off l) (ground (arith, length-drop off l)))))
    | inr fits ↦ rw (fits, copied-append l r off n (ground arith)) refl
  ])
]

genera_status-text :
    (t : Table) (i : ℕ) (testo : List ℕ)
    → task_attivo t (pos i) ≡ true
    → i < max_tasks
    → (get_or t.tasks i blank).esp < 2 ^ 32
    → status_max ≤ length testo
    → genera_status t i testo status_max
      ≡ some (
        length (status_text t i),
        status_text t i ++ (0 ∷ drop (suc (length (status_text t i))) testo),
      )
unfolding genera_status
genera_status-text t i testo alive lt small room =
    let l : List ℕ = status_text t i in
    let short = length-status_text t i small in
    let whole : min (length l) (status_max - 1) ≡ length l = omega arith in
    let fits : leb status_max (length l) ≡ false = ground arith in
    rw
      (
        alive,
        vsnprintf-cut_to testo status_max status_format (status_args t i) l room
            (printed-status t i lt small) (omega arith),
        fits,
        whole,
      )
      (ap (λ k. some (length l, k ++ (0 ∷ drop (suc (length l)) testo))) (take-length l))

-- status_read on the file of a task that is not free, whose stack pointer is 32 bits wide, gives
-- the bytes of its text from `off` on, at most `n`, and none behind the end; on the file of a slot
-- that is free it gives none.
pub status_read-text :
    (t : Table) (i : ℕ) (testo : List ℕ) (off n : ℕ)
    → i < max_tasks
    → (get_or t.tasks i blank).esp < 2 ^ 32
    → status_max ≤ length testo
    → status_read t (some (ino_of (ino_status i))) testo off n
      ≡ some (if task_attivo t (pos i) then take n (drop off (status_text t i)) else [])
unfolding status_read ino_of
status_read-text t i testo off n lt small room =
    let file : task_da_status (10 + i) ≡ pos i =
      let w : (10 + i + 2 ^ 32 - 2 - max_tasks) % 2 ^ 32 ≡ i = omega arith in
      let low : ltb i (2 ^ 31) ≡ true = ground arith in rw (w, low) refl in
    rw file (elim (Bool-cases (n == 0)) [
      | inl nothing ↦
          rw (nothing, ==→eq n 0 nothing)
            (elim (Bool-cases (task_attivo t (pos i))) [
              | inl alive ↦ rw alive refl
              | inr free ↦ rw free refl
            ])
      | inr more ↦ elim (Bool-cases (task_attivo t (pos i))) [
        | inr free ↦ rw (more, free) refl
        | inl alive ↦
            rw (more, alive, genera_status-text t i testo alive lt small room)
              (slice-text (status_text t i) (0 ∷ drop (suc (length (status_text t i))) testo) off n)
      ]
    ])
