-- ===== src/Procfs/Examples.antt =====
-- kernel/procfs.c at the table of kernel/task.c with two tasks.
use waltex.Base.{
  ltb, if◌then◌else◌, pos, negsuc, take, drop, replicate, get_elem?, ℕ, ◌≡◌, refl, not, ◌&&◌, some,
  List, [], ◌∷◌, arith,
}
use waltex.Kprintf.Format.{sn_putc, kvprintf, directive, vsnprintf}
use waltex.Procfs.{
  indice_da_nome, ino_status, root_lookup, readdir_loop, indice_loop, task_attivo, ino_root, ino_of,
  ino_task, root_readdir,
}
use waltex.Procfs.Listing.{Listed, actives, root_readdir-Listed, root_lookup-listed}
use waltex.Procfs.Names.{indice_da_nome-decimal, is_empty, root_lookup-zero}
use waltex.Procfs.Read.{status_read-text}
use waltex.Procfs.Status.{status_read}
use waltex.Procfs.Text.{status_text}
use waltex.Shell.Decimal.{is_decimal, decimal}
use waltex.Task.{Table, Task, task_ready, slot, blank, max_tasks}
use waltex.Vfs.Types.{end, entry}

-- Task 0 runs, and task 3 was switched away from at 48879.
abbrev with_stack : ℕ → Task
with_stack esp = record { esp = esp; state = task_ready; stack = [] }

abbrev two_alive : Table
two_alive = record {
  tasks = with_stack 0 ∷ blank ∷ blank ∷ with_stack 48879 ∷ replicate 4 blank;
  current = 0;
}

abbrev name_buf : List ℕ
name_buf = replicate 15 170

-- "03"
abbrev long_name : List ℕ
long_name = b'0' ∷ b'3' ∷ []

second_listed :
    root_readdir two_alive (some 1) (pos 1) name_buf ≡ entry (b'3' ∷ 0 ∷ replicate 13 170) 5
unfolding root_readdir readdir_loop task_attivo ino_of vsnprintf kvprintf directive sn_putc slot
second_listed = refl

past_the_last : root_readdir two_alive (some 1) (pos 2) name_buf ≡ end
unfolding root_readdir readdir_loop task_attivo ino_of slot
past_the_last = refl

indice_da_nome-decimal_run : indice_da_nome (some long_name) ≡ (
    if not (is_empty long_name) && (is_decimal long_name && ltb (decimal 0 long_name) max_tasks)
    then pos (decimal 0 long_name)
    else negsuc 0)
indice_da_nome-decimal_run = indice_da_nome-decimal long_name (ground arith)

root_lookup-zero_example :
    root_lookup two_alive (some 1) (some (b'0' ∷ b'3' ∷ []))
    ≡ root_lookup two_alive (some 1) (some (b'3' ∷ []))
root_lookup-zero_example =
    root_lookup-zero two_alive (some 1) (b'3' ∷ []) (ground arith) (λ e. absurd (ground arith))

root_readdir-Listed_example :
    Listed two_alive name_buf
      (get_elem? (actives two_alive) 1)
      (root_readdir two_alive (some (ino_of ino_root)) (pos 1) name_buf)
root_readdir-Listed_example = root_readdir-Listed two_alive 1 name_buf (omega arith)

three_found : root_lookup two_alive (some (ino_of ino_root)) (some (b'3' ∷ [])) ≡ some (ino_task 3)
unfolding root_lookup indice_da_nome indice_loop ino_of task_attivo slot
three_found = refl

root_lookup-listed_run :
    (i : ℕ) × (idx : ℕ) × (ino_task 3 ≡ ino_task i) × (get_elem? (actives two_alive) idx ≡ some i)
root_lookup-listed_run = root_lookup-listed two_alive (b'3' ∷ []) (ino_task 3) three_found

status_read-text_example :
    status_read two_alive (some (ino_of (ino_status 3))) (replicate 128 170) 5 20
    ≡ some
        (if task_attivo two_alive (pos 3) then take 20 (drop 5 (status_text two_alive 3)) else [])
status_read-text_example =
    status_read-text two_alive 3 (replicate 128 170) 5 20 (omega arith) (omega arith) (omega arith)
