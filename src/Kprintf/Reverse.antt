-- ===== src/Kprintf/Reverse.antt =====
-- reverse of kernel/kprintf.c turns the first bytes of an array around.
use waltex.Base.{
  ltb, leb, ◌==◌, if◌then◌else◌, Bool-cases, length, get_or, set, length-set, get_or-set_self,
  get_or-set_ne, ℕ, zero, suc, ◌+◌, ◌-◌, ◌≤◌, ◌<◌, ◌≡◌, ap, ◌∙◌, ◌≢◌, inl, inr, ◌&&◌, List, arith,
}
use waltex.Kprintf.{reverse_loop, reverse}

-- Where index `j` comes from when `a` to `b` are turned around.
abbrev pub mirror : ℕ → ℕ → ℕ → ℕ
mirror a b j = if leb a j && leb j b then a + b - j else j

abbrev swapped : List ℕ → ℕ → ℕ → List ℕ
swapped str a b = set (set str a (get_or str b 0)) b (get_or str a 0)

get_or-swapped_first :
    (str : List ℕ) (a b : ℕ)
    → a < b
    → b < length str
    → get_or (swapped str a b) a 0 ≡ get_or str b 0
get_or-swapped_first str a b lt inside =
    get_or-set_ne (set str a (get_or str b 0)) b a (get_or str a 0) 0 (λ e. omega arith)
    ∙ get_or-set_self str a (get_or str b 0) 0 (omega arith)

get_or-swapped_last :
    (str : List ℕ) (a b : ℕ) → b < length str → get_or (swapped str a b) b 0 ≡ get_or str a 0
get_or-swapped_last str a b inside =
    get_or-set_self (set str a (get_or str b 0)) b (get_or str a 0) 0
      (rw (length-set str a (get_or str b 0)) inside)

get_or-swapped_other :
    (str : List ℕ) (a b j : ℕ) → a ≢ j → b ≢ j → get_or (swapped str a b) j 0 ≡ get_or str j 0
get_or-swapped_other str a b j not_a not_b =
    get_or-set_ne (set str a (get_or str b 0)) b j (get_or str a 0) 0 not_b
    ∙ get_or-set_ne str a j (get_or str b 0) 0 not_a

get_or-swapped-mirror :
    (str : List ℕ) (a b j : ℕ)
    → a < b
    → b < length str
    → get_or (swapped str a b) (mirror (a + 1) (b - 1) j) 0 ≡ get_or str (mirror a b j) 0
get_or-swapped-mirror str a b j lt inside = elim (Bool-cases (j == a)) [
  | inl first ↦
      let here : mirror (a + 1) (b - 1) j ≡ a = ground arith in
      let there : mirror a b j ≡ b = ground arith in
      rw (here, there) (get_or-swapped_first str a b lt inside)
  | inr not_first ↦ elim (Bool-cases (j == b)) [
    | inl last ↦
        let here : mirror (a + 1) (b - 1) j ≡ b = ground arith in
        let there : mirror a b j ≡ a = ground arith in
        rw (here, there) (get_or-swapped_last str a b inside)
    | inr not_last ↦
        let same : mirror (a + 1) (b - 1) j ≡ mirror a b j = ground arith in
        rw same
          (get_or-swapped_other str a b (mirror a b j) (λ e. ground arith) (λ e. ground arith))
  ]
]

length-swapped : (str : List ℕ) (a b : ℕ) → length (swapped str a b) ≡ length str
length-swapped str a b =
    length-set (set str a (get_or str b 0)) b (get_or str a 0) ∙ length-set str a (get_or str b 0)

get_or-reverse_loop :
    (k : ℕ) (str : List ℕ) (a b j : ℕ)
    → b < length str
    → b ≤ a + k
    → get_or (reverse_loop k str a b) j 0 ≡ get_or str (mirror a b j) 0
unfolding reverse_loop
get_or-reverse_loop zero str a b j inside enough = ap (λ i. get_or str i 0) (ground arith)
get_or-reverse_loop (suc k) str a b j inside enough = elim (Bool-cases (ltb a b)) [
  | inr done ↦ rw done (ap (λ i. get_or str i 0) (ground arith))
  | inl more ↦
      let lt : a < b = ground arith in
      rw more (
        get_or-reverse_loop k (swapped str a b) (a + 1) (b - 1) j
          (rw (length-swapped str a b) (omega arith)) (omega arith)
        ∙ get_or-swapped-mirror str a b j lt inside)
]

-- The first `n` bytes come out in the opposite order, and the others stay.
pub get_or-reverse :
    (str : List ℕ) (n j : ℕ)
    → n ≤ length str
    → 0 < n
    → get_or (reverse str n) j 0 ≡ get_or str (if ltb j n then n - 1 - j else j) 0
unfolding reverse
get_or-reverse str n j fits positive =
    get_or-reverse_loop n str 0 (n - 1) j (omega arith) (omega arith)
    ∙ ap (λ i. get_or str i 0) (ground arith)
