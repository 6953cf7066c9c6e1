-- ===== src/Procfs/Listing.antt =====
-- The entries of /proc in kernel/procfs.c: which tasks readdir lists, and that lookup finds them.
use waltex.Base.{
  ltb, leb, ◌==◌, ℤ, pos, negsuc, Bool-cases, none-ne-some, some_inj, length, drop, hits, get_elem?,
  hits_sound, hits_complete, ℕ, zero, suc, ◌+◌, ◌-◌, ◌*◌, ◌≤◌, ◌<◌, ◌≡◌, refl, sym, ap, ◌∙◌, subst,
  inl, inr, true, false, ◌||◌, Option, none, some, List, [], ◌∷◌, arith,
}
use waltex.Kprintf.Buffer.{printed, vsnprintf-cut_to}
use waltex.Kprintf.Format.{vsnprintf, word, directive, kvprintf}
use waltex.Procfs.{
  task_attivo, readdir_loop, ino_of, named_entry, ino_task, indice_da_nome, ino_root, root_lookup,
  indice_loop, root_readdir, found_task, ProcInode,
}
use waltex.Task.{Table, max_tasks}
use waltex.Vfs.Types.{DirEntry, entry, end, name_max}

-- The tasks that are not free.
abbrev pub actives : Table → List ℕ
actives t = hits (λ i. task_attivo t (pos i)) 0 max_tasks

-- The entry for a task, or the end.
abbrev pub entry_for : List ℕ → Option ℕ → DirEntry
entry_for name none = end
entry_for name (some i) =
    named_entry (vsnprintf name (name_max + 1) (b'%' ∷ b'd' ∷ []) (word i ∷ []))
      (ino_of (ino_task i))

readdir_loop-actives :
    (t : Table) (idx : ℕ) (name : List ℕ) (k i visti : ℕ)
    → visti ≤ idx
    → readdir_loop t idx name k i visti
      ≡ entry_for name (get_elem? (hits (λ j. task_attivo t (pos j)) i k) (idx - visti))
unfolding readdir_loop hits
readdir_loop-actives t idx name zero i visti le = refl
readdir_loop-actives t idx name (suc k) i visti le = elim (Bool-cases (task_attivo t (pos i))) [
  | inr free ↦ rw free (readdir_loop-actives t idx name k (i + 1) visti le)
  | inl alive ↦ elim (Bool-cases (visti == idx)) [
    | inl here ↦ let first : idx - visti ≡ 0 = ground arith in rw (alive, here, first) refl
    | inr later ↦
        let next_place : idx - visti ≡ suc (idx - (visti + 1)) = ground arith in
        rw (alive, later, next_place)
          (readdir_loop-actives t idx name k (i + 1) (visti + 1) (ground arith))
  ]
]

-- One digit.
digit_text :
    (i : ℕ) → i < max_tasks → printed (b'%' ∷ b'd' ∷ []) (word i ∷ []) ≡ some ((b'0' + i) ∷ [])
unfolding printed kvprintf directive
digit_text zero lt = refl
digit_text (suc zero) lt = refl
digit_text (suc (suc zero)) lt = refl
digit_text (suc (suc (suc zero))) lt = refl
digit_text (suc (suc (suc (suc zero)))) lt = refl
digit_text (suc (suc (suc (suc (suc zero))))) lt = refl
digit_text (suc (suc (suc (suc (suc (suc zero)))))) lt = refl
digit_text (suc (suc (suc (suc (suc (suc (suc zero))))))) lt = refl
digit_text (suc (suc (suc (suc (suc (suc (suc (suc i)))))))) lt = absurd (omega arith)

-- The caller's buffer with one digit and its NUL.
abbrev pub digit_name : ℕ → List ℕ → List ℕ
digit_name i name = (b'0' + i) ∷ 0 ∷ drop 2 name

named-digit :
    (i : ℕ) (name : List ℕ)
    → i < max_tasks
    → name_max < length name
    → entry_for name (some i) ≡ entry (digit_name i name) (ino_of (ino_task i))
named-digit i name lt room =
    rw
      (vsnprintf-cut_to name (name_max + 1) (b'%' ∷ b'd' ∷ []) (word i ∷ []) ((b'0' + i) ∷ [])
        (omega arith) (digit_text i lt) (omega arith))
      refl

digit-indice :
    (i : ℕ) (name : List ℕ) → i < max_tasks → indice_da_nome (some (digit_name i name)) ≡ pos i
unfolding indice_da_nome indice_loop
digit-indice i name lt =
    let first : (b'0' + i == 0) ≡ false = ground arith in
    let digit : (ltb (b'0' + i) b'0' || ltb b'9' (b'0' + i)) ≡ false = ground arith in
    let value : 0 * 10 + (b'0' + i - b'0') ≡ i = omega arith in
    let inside : leb max_tasks i ≡ false = ground arith in rw (first, digit, value, inside) refl

-- What readdir answers at a place, for the task that is listed there: its entry, whose name lookup
-- resolves to the same inode; and the end where there is none.
abbrev pub Listed : Table → List ℕ → Option ℕ → DirEntry → Type 0
Listed t name none answer = answer ≡ end
Listed t name (some i) answer =
    (answer ≡ entry (digit_name i name) (ino_of (ino_task i)))
    × (root_lookup t (some (ino_of ino_root)) (some (digit_name i name)) ≡ some (ino_task i))

entry_for-Listed :
    (t : Table) (name : List ℕ) (o : Option ℕ)
    → name_max < length name
    → ((i : ℕ) → o ≡ some i → (i < max_tasks) × (task_attivo t (pos i) ≡ true))
    → Listed t name o (entry_for name o)
unfolding root_lookup ino_of
entry_for-Listed t name none room alive = refl
entry_for-Listed t name (some i) room alive =
    let (lt, on) = alive i refl in
    (named-digit i name lt room, rw (digit-indice i name lt, on) refl)

-- root_readdir of /proc, into a buffer of at least 15 bytes, lists the tasks that are not free in
-- the order of their slots and then the end, and root_lookup resolves each name that it gives to
-- the inode of that task, with the number that readdir gave.
pub root_readdir-Listed :
    (t : Table) (idx : ℕ) (name : List ℕ)
    → name_max < length name
    → Listed t name
        (get_elem? (actives t) idx)
        (root_readdir t (some (ino_of ino_root)) (pos idx) name)
unfolding root_readdir ino_of
root_readdir-Listed t idx name room =
    subst (Listed t name (get_elem? (actives t) idx))
      (sym (
        readdir_loop-actives t idx name max_tasks 0 0 (omega arith)
        ∙ ap (λ k. entry_for name (get_elem? (actives t) k)) (omega arith)))
      (entry_for-Listed t name (get_elem? (actives t) idx) room
        (λ i e. hits_sound (λ j. task_attivo t (pos j)) 0 max_tasks idx i e))

alive-lt : (t : Table) (i : ℕ) → task_attivo t (pos i) ≡ true → i < max_tasks
unfolding task_attivo
alive-lt t i on = ground arith

found_task-alive :
    (t : Table) (z : ℤ) (p : ProcInode)
    → found_task t z ≡ some p
    → (i : ℕ) × (p ≡ ino_task i) × (i < max_tasks) × (task_attivo t (pos i) ≡ true)
found_task-alive t (negsuc n) p e = absurd (ground arith)
found_task-alive t (pos i) p e = elim (Bool-cases (task_attivo t (pos i))) [
  | inr free ↦ absurd (none-ne-some (rw free at e))
  | inl on ↦ (i, sym (some_inj (rw on at e)), alive-lt t i on, on)
]

-- Every name that root_lookup resolves is that of a task which readdir lists.
pub root_lookup-listed :
    (t : Table) (s : List ℕ) (p : ProcInode)
    → root_lookup t (some (ino_of ino_root)) (some s) ≡ some p
    → (i : ℕ) × (idx : ℕ) × (p ≡ ino_task i) × (get_elem? (actives t) idx ≡ some i)
unfolding root_lookup ino_of
root_lookup-listed t s p e =
    let (i, same, lt, on) = found_task-alive t (indice_da_nome (some s)) p e in
    let (idx, at) =
      hits_complete (λ j. task_attivo t (pos j)) 0 max_tasks i (omega arith) (omega arith) on in
    (i, idx, same, at)
