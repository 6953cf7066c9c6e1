-- ===== src/Kprintf/Print.antt =====
-- put_uint of kernel/kprintf.c gives its sink the digits that it has written, the first one first.
use waltex.Base.{
  ltb, ◌==◌, if◌then◌else◌, ==→eq, Bool-cases, eq_false, length, get_or, set, length-set,
  get_or-set_ne, get_or-set_default, ℕ, zero, suc, ◌+◌, ◌-◌, ◌≤◌, ◌<◌, ◌≡◌, refl, sym, ap, ◌∙◌, inl,
  inr, Bool, true, false, List, [], ◌∷◌, arith,
}
use waltex.CString.{IsText}
use waltex.Kprintf.{reverse, print_loop, put_digits}
use waltex.Kprintf.Digits.{Backwards, Backwards-push}
use waltex.Kprintf.Reverse.{get_or-reverse}

get_or-beyond : (l : List ℕ) (j : ℕ) → length l ≤ j → get_or l j 0 ≡ 0
get_or-beyond [] j h = refl
get_or-beyond (c ∷ l) zero h = absurd (omega arith)
get_or-beyond (c ∷ l) (suc j) h = get_or-beyond l j (omega arith)

Backwards-nul : (str l : List ℕ) → Backwards str l → Backwards (set str (length l) 0) l
Backwards-nul str l b = (
  length-set str (length l) 0 ∙ b.0,
  (
    (λ j inside.
        get_or-set_ne str (length l) (length l - 1 - j) 0 0 (λ e. omega arith) ∙ b.1.0 j inside),
    λ j beyond. elim (Bool-cases (length l == j)) [
      | inl here ↦ rw (sym (==→eq (length l) j here)) (get_or-set_default str (length l) 0)
      | inr there ↦ get_or-set_ne str (length l) j 0 0 (λ e. ground arith) ∙ b.1.1 j beyond
    ],
  ),
)

get_or-reversed :
    (str l : List ℕ) (j : ℕ)
    → Backwards str l
    → 0 < length l
    → length l ≤ 33
    → get_or (reverse str (length l)) j 0 ≡ get_or l j 0
get_or-reversed str l j b nonempty fits =
    get_or-reverse str (length l) j (rw b.0 (omega arith)) nonempty
    ∙ elim (Bool-cases (ltb j (length l))) [
      | inl inside ↦ rw inside (b.1.0 j (ground arith))
      | inr beyond ↦ rw beyond (b.1.1 j (ground arith) ∙ sym (get_or-beyond l j (ground arith)))
    ]

-- The digits with their sign.
abbrev pub signed : Bool → List ℕ → List ℕ
signed negative l = if negative then b'-' ∷ l else l

module _ {S : Type 0} (put : S → ℕ → S) where
  -- A text, character by character.
  unfoldable pub feed : List ℕ → S → S
  feed [] s = s
  feed (c ∷ l) s = feed l (put s c)

  print_loop-feed :
      (k : ℕ) (str l : List ℕ) (i : ℕ) (s : S)
      → length l ≤ k
      → IsText l
      → ((j : ℕ) → get_or str (i + j) 0 ≡ get_or l j 0)
      → print_loop put k str i s ≡ feed l s
  unfolding print_loop feed
  print_loop-feed zero str [] i s fits t same = refl
  print_loop-feed zero str (c ∷ l) i s fits t same = absurd (omega arith)
  print_loop-feed (suc k) str [] i s fits t same =
      let end : get_or str i 0 ≡ 0 = ap (λ n. get_or str n 0) (omega arith) ∙ same 0 in rw end refl
  print_loop-feed (suc k) str (c ∷ l) i s fits t same =
      let first : get_or str i 0 ≡ c = ap (λ n. get_or str n 0) (omega arith) ∙ same 0 in
      rw (first, eq_false (c == 0) (λ e. t.0 (==→eq c 0 e)))
        (print_loop-feed k str l (i + 1) (put s c) (omega arith) t.1
          (λ j. ap (λ n. get_or str n 0) (omega arith) ∙ same (suc j)))

  print-feed :
      (str l : List ℕ) (s : S)
      → Backwards str l
      → IsText l
      → 0 < length l
      → length l ≤ 32
      → print_loop put 32 (reverse (set str (length l) 0) (length l)) 0 s ≡ feed l s
  print-feed str l s b t nonempty fits =
      print_loop-feed 32 (reverse (set str (length l) 0) (length l)) l 0 s fits t (λ j.
        ap (λ n. get_or (reverse (set str (length l) 0) (length l)) n 0) (omega arith)
        ∙ get_or-reversed (set str (length l) 0) l j (Backwards-nul str l b) nonempty (omega arith))

  pub put_digits-feed :
      (negative : Bool) (str l : List ℕ) (s : S)
      → Backwards str l
      → IsText l
      → 0 < length l
      → length l ≤ (if negative then 31 else 32)
      → put_digits put negative str (length l) s ≡ feed (signed negative l) s
  unfolding put_digits
  put_digits-feed false str l s b t nonempty fits = print-feed str l s b t nonempty fits
  put_digits-feed true str l s b t nonempty fits =
      let next : length l + 1 ≡ suc (length l) = omega arith in
      rw next (
        print-feed (set str (length l) b'-') (b'-' ∷ l) s
          (Backwards-push str l b'-' b (omega arith)) ((λ e. absurd (omega arith)), t) (omega arith)
          (omega arith))
