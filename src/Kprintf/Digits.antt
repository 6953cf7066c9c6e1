-- ===== src/Kprintf/Digits.antt =====
-- The digits that put_uint writes.
use waltex.Base.{
  ◌==◌, if◌then◌else◌, Bool-cases, length, get_or, set, replicate, length-set, get_or-set_self,
  get_or-set_ne, get_or-replicate_default, ℕ, zero, suc, ◌+◌, ◌-◌, ◌/◌, ◌%◌, ◌≤◌, ◌<◌, ◌≡◌, refl,
  ap, ◌∙◌, inl, inr, List, [], ◌∷◌, arith,
}
use waltex.Kprintf.{digit_loop, digit_char}

-- The digits of a number in front of a text.
unfoldable pub numeral : ℕ → ℕ → ℕ → List ℕ → List ℕ
numeral zero base v acc = acc
numeral (suc k) base v acc =
    let rest = numeral k base (v / base) (digit_char (v % base) ∷ acc) in
    if v == 0 then acc else rest

-- An array of put_uint that holds a text backwards, and NULs after it.
abbrev pub Backwards : List ℕ → List ℕ → Type 0
Backwards str l =
    (length str ≡ 34)
    × (((j : ℕ) → j < length l → get_or str (length l - 1 - j) 0 ≡ get_or l j 0)
        × ((j : ℕ) → length l ≤ j → get_or str j 0 ≡ 0))

text_at-push :
    (str l : List ℕ) (c : ℕ)
    → Backwards str l
    → length l < 34
    → (j : ℕ) → j < suc (length l)
    → get_or (set str (length l) c) (suc (length l) - 1 - j) 0 ≡ get_or (c ∷ l) j 0
text_at-push str l c b room zero inside =
    ap (λ i. get_or (set str (length l) c) i 0) (omega arith)
    ∙ get_or-set_self str (length l) c 0 (rw b.0 room)
text_at-push str l c b room (suc j) inside =
    ap (λ i. get_or (set str (length l) c) i 0) (omega arith)
    ∙ get_or-set_ne str (length l) (length l - 1 - j) c 0 (λ e. omega arith)
    ∙ b.1.0 j (omega arith)

pub Backwards-push :
    (str l : List ℕ) (c : ℕ)
    → Backwards str l
    → length l < 34
    → Backwards (set str (length l) c) (c ∷ l)
Backwards-push str l c b room = (
  length-set str (length l) c ∙ b.0,
  (
    text_at-push str l c b room,
    λ j beyond. get_or-set_ne str (length l) j c 0 (λ e. omega arith) ∙ b.1.1 j (omega arith),
  ),
)

-- The array at the start of put_uint.
pub Backwards-nil : Backwards (replicate 34 0) []
Backwards-nil =
    (refl, ((λ j inside. absurd (omega arith)), λ j beyond. get_or-replicate_default 34 j 0))

pub digit_loop-numeral :
    (k : ℕ) (str l : List ℕ) (v base : ℕ)
    → Backwards str l
    → k + length l ≤ 32
    → ((digit_loop k str (length l) v base).1 ≡ length (numeral k base v l))
      × Backwards (digit_loop k str (length l) v base).0 (numeral k base v l)
unfolding digit_loop numeral
digit_loop-numeral zero str l v base b room = (refl, b)
digit_loop-numeral (suc k) str l v base b room = elim (Bool-cases (v == 0)) [
  | inl done ↦ rw done (refl, b)
  | inr more ↦
      let next : length l + 1 ≡ suc (length l) = omega arith in
      rw (more, next)
        (digit_loop-numeral k (set str (length l) (digit_char (v % base)))
          (digit_char (v % base) ∷ l) (v / base) base
          (Backwards-push str l (digit_char (v % base)) b (omega arith)) (omega arith))
]
