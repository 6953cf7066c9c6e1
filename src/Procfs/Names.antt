-- ===== src/Procfs/Names.antt =====
-- indice_da_nome of kernel/procfs.c: which names are indices, and which of them name one task.
use waltex.Base.{
  ltb, leb, ◌==◌, if◌then◌else◌, pos, negsuc, lt→ltb, ==→eq, Bool-cases, eq_false, ℕ, ◌+◌, ◌-◌, ◌*◌,
  ◌<◌, ◌≡◌, refl, ap, ◌≢◌, inl, inr, Bool, true, false, not, ◌&&◌, ◌||◌, Option, none, some, List,
  [], ◌∷◌, arith,
}
use waltex.CString.{IsText, text}
use waltex.Procfs.{indice_loop, indice_da_nome, root_lookup, ino_of, ino_root, found_task}
use waltex.Shell.Decimal.{decimal, is_decimal, is_digit, decimal-ge}
use waltex.Task.{Table, max_tasks}

indice_loop-decimal :
    (v : ℕ) (s : List ℕ)
    → IsText s
    → v < max_tasks
    → indice_loop v s
      ≡ (if is_decimal s && ltb (decimal v s) max_tasks then pos (decimal v s) else negsuc 0)
unfolding indice_loop decimal is_decimal
indice_loop-decimal v [] t small = rw (lt→ltb v max_tasks small) refl
indice_loop-decimal v (c ∷ s) t small =
    rw (eq_false (c == 0) (λ e. t.0 (==→eq c 0 e))) (elim (Bool-cases (is_digit c)) [
      | inr other ↦
          let outside : (ltb c b'0' || ltb b'9' c) ≡ true = ground arith in rw (other, outside) refl
      | inl digit ↦
          let inside : (ltb c b'0' || ltb b'9' c) ≡ false = ground arith in
          elim (Bool-cases (leb max_tasks (v * 10 + (c - b'0')))) [
            | inl big ↦
                let over : ltb (decimal (v * 10 + (c - b'0')) s) max_tasks ≡ false =
                  eq_false _ (λ e. ground (arith, decimal-ge (v * 10 + (c - b'0')) s)) in
                elim (Bool-cases (is_decimal s)) [
                  | inl all ↦ rw (digit, inside, big, all, over) refl
                  | inr some_not ↦ rw (digit, inside, big, some_not) refl
                ]
            | inr fits ↦
                rw (digit, inside, fits)
                  (indice_loop-decimal (v * 10 + (c - b'0')) s t.1 (ground arith))
          ]
    ])

abbrev pub is_empty : List ℕ → Bool
is_empty [] = true
is_empty (c ∷ s) = false

-- indice_da_nome answers the value of a decimal numeral that is not empty where it is the index of
-- a slot of the table, and -1 for every other text.
pub indice_da_nome-decimal :
    (s : List ℕ)
    → IsText s
    → indice_da_nome (some s) ≡ (
        if not (is_empty s) && (is_decimal s && ltb (decimal 0 s) max_tasks)
        then pos (decimal 0 s)
        else negsuc 0)
unfolding indice_da_nome
indice_da_nome-decimal [] t = refl
indice_da_nome-decimal (c ∷ s) t =
    rw (eq_false (c == 0) (λ e. t.0 (==→eq c 0 e))) (indice_loop-decimal 0 (c ∷ s) t (omega arith))

indice_da_nome-zero :
    (s : List ℕ) → IsText s → s ≢ [] → indice_da_nome (some (b'0' ∷ s)) ≡ indice_da_nome (some s)
unfolding indice_da_nome indice_loop
indice_da_nome-zero [] text nonempty = absurd (nonempty refl)
indice_da_nome-zero (c ∷ s) text nonempty = rw (eq_false (c == 0) (λ e. text.0 (==→eq c 0 e))) refl

-- A zero in front of a name that is not empty names the same task of /proc, or none either.
pub root_lookup-zero :
    (t : Table) (dir : Option ℕ) (s : List ℕ)
    → IsText s
    → s ≢ []
    → root_lookup t dir (some (b'0' ∷ s)) ≡ root_lookup t dir (some s)
unfolding root_lookup
root_lookup-zero t none s text nonempty = refl
root_lookup-zero t (some ino) s text nonempty =
    ap (λ i. if not (ino == ino_of ino_root) then none else found_task t i)
      (indice_da_nome-zero s text nonempty)
