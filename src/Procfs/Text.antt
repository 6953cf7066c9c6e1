-- ===== src/Procfs/Text.antt =====
-- The text of /proc/<N>/status in kernel/procfs.c, and the pieces of it that status_read gives.

use waltex.Base.{
  ◌==◌, if◌then◌else◌, Bool-cases, get_or, ℕ, zero, suc, ◌+◌, ◌^◌, ◌<◌, ◌≡◌, refl, sym, ◌∙◌, inl,
  inr, some, List, [], ◌∷◌, ◌++◌, append_assoc, append-nil, arith,
}
use waltex.Kprintf.{put_uint}
use waltex.Kprintf.Buffer.{keep_all, printed}
use waltex.Kprintf.Format.{kvprintf, directive}
use waltex.Kprintf.Hex.{hex_text, put_uint-hex}
use waltex.Kprintf.Print.{feed}
use waltex.Procfs.{running_text, status_format, ready_text, status_args}
use waltex.Task.{Table, max_tasks, blank}

-- The lines of the text, around the index, the state and the stack pointer.
abbrev pub pid_line : List ℕ
pid_line = b'P' ∷ b'i' ∷ b'd' ∷ b':' ∷ b' ' ∷ b' ' ∷ b' ' ∷ b' ' ∷ []

abbrev pub state_line : List ℕ
state_line = 10 ∷ b'S' ∷ b't' ∷ b'a' ∷ b't' ∷ b'e' ∷ b':' ∷ b' ' ∷ b' ' ∷ b'R' ∷ b' ' ∷ b'(' ∷ []

abbrev pub esp_line : List ℕ
esp_line = b')' ∷ 10 ∷ b'E' ∷ b's' ∷ b'p' ∷ b':' ∷ b' ' ∷ b' ' ∷ b' ' ∷ b' ' ∷ b'0' ∷ b'x' ∷ []

-- The text for a task below 8.
abbrev pub status_text : Table → ℕ → List ℕ
status_text t i =
    pid_line
    ++ (((b'0' + i) ∷ state_line)
        ++ ((if i == t.current then running_text else ready_text)
            ++ (esp_line ++ (hex_text (get_or t.tasks i blank).esp ++ (10 ∷ [])))))

feed-keep_all_lem : (l s : List ℕ) → feed keep_all l s ≡ s ++ l
unfolding feed
feed-keep_all_lem [] s = sym (append-nil s)
feed-keep_all_lem (c ∷ l) s = feed-keep_all_lem l (s ++ (c ∷ [])) ∙ append_assoc s (c ∷ []) l

digit_lem :
    (i : ℕ) → i < max_tasks → (s : List ℕ) → put_uint keep_all i 10 s ≡ s ++ ((b'0' + i) ∷ [])
unfolding put_uint
digit_lem zero lt s = refl
digit_lem (suc zero) lt s = refl
digit_lem (suc (suc zero)) lt s = refl
digit_lem (suc (suc (suc zero))) lt s = refl
digit_lem (suc (suc (suc (suc zero)))) lt s = refl
digit_lem (suc (suc (suc (suc (suc zero))))) lt s = refl
digit_lem (suc (suc (suc (suc (suc (suc zero)))))) lt s = refl
digit_lem (suc (suc (suc (suc (suc (suc (suc zero))))))) lt s = refl
digit_lem (suc (suc (suc (suc (suc (suc (suc (suc i)))))))) lt s = absurd (omega arith)

hex_lem : (v : ℕ) → v < 2 ^ 32 → (s : List ℕ) → put_uint keep_all v 16 s ≡ s ++ hex_text v
hex_lem v small s = put_uint-hex keep_all v s small ∙ feed-keep_all_lem (hex_text v) s

pub printed-status :
    (t : Table) (i : ℕ)
    → i < max_tasks
    → (get_or t.tasks i blank).esp < 2 ^ 32
    → printed status_format (status_args t i) ≡ some (status_text t i)
unfolding printed kvprintf directive
printed-status t i lt word_esp =
    let front : List ℕ = pid_line ++ ((b'0' + i) ∷ state_line) in
    let esp = (get_or t.tasks i blank).esp in
    rw (digit_lem i lt pid_line) (elim (Bool-cases (i == t.current)) [
      | inl now ↦ rw (now, hex_lem esp word_esp (front ++ (running_text ++ esp_line))) refl
      | inr later ↦ rw (later, hex_lem esp word_esp (front ++ (ready_text ++ esp_line))) refl
    ])
