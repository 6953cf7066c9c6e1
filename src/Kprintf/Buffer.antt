-- ===== src/Kprintf/Buffer.antt =====
-- vsnprintf of kernel/kprintf.c: the text that it leaves in the buffer, and the count.
use waltex.Base.{
  ltb, ◌==◌, if◌then◌else◌, Bool-cases, length, get_or, set, take, drop, length-set, length-take,
  take-append-drop, drop-cons, ℕ, zero, suc, ◌+◌, ◌-◌, ◌%◌, ◌^◌, ◌≤◌, ◌<◌, min, ◌≡◌, refl, sym, ap,
  ap₂, ◌∙◌, inl, inr, Option, none, some, List, [], ◌∷◌, ◌++◌, append_assoc, arith,
}
use waltex.Kprintf.Format.{kvprintf, SnBuf, Arg, sn_putc, vsnprintf, terminate}
use waltex.Kprintf.Print.{feed}
use waltex.Kprintf.Related.{kvprintf-R, BothOr}

-- The sink that keeps everything.
abbrev pub keep_all : List ℕ → ℕ → List ℕ
keep_all l c = l ++ (c ∷ [])

-- What a format prints.
unfoldable pub printed : List ℕ → List Arg → Option (List ℕ)
printed fmt args = kvprintf keep_all fmt args []

feed-keep_all :
    {S : Type 0} (put : S → ℕ → S) (l : List ℕ) (c : ℕ) (s : S)
    → feed put (l ++ (c ∷ [])) s ≡ put (feed put l s) c
unfolding feed
feed-keep_all put [] c s = refl
feed-keep_all put (x ∷ l) c s = feed-keep_all put l c (put s x)

-- A state after the characters of a text.
abbrev pub after_text : {S : Type 0} → (S → ℕ → S) → S → Option (List ℕ) → Option S
after_text put s none = none
after_text put s (some l) = some (feed put l s)

BothOr-after_text :
    {S : Type 0} (put : S → ℕ → S) (s : S) (o : Option S) (o' : Option (List ℕ))
    → BothOr (λ x l. x ≡ feed put l s) o o'
    → o ≡ after_text put s o'
BothOr-after_text put s none none both = refl
BothOr-after_text put s none (some l) both = absurd both
BothOr-after_text put s (some x) none both = absurd both
BothOr-after_text put s (some x) (some l) both = ap some both

-- kvprintf gives every sink the same characters in the same order.
pub kvprintf-printed :
    {S : Type 0} (put : S → ℕ → S) (fmt : List ℕ) (args : List Arg) (s : S)
    → kvprintf put fmt args s ≡ after_text put s (printed fmt args)
unfolding printed feed
kvprintf-printed put fmt args s =
    BothOr-after_text put s (kvprintf put fmt args s) (kvprintf keep_all fmt args []) (
      kvprintf-R put keep_all (λ x l. x ≡ feed put l s)
        (λ x l c e. ap (λ y. put y c) e ∙ sym (feed-keep_all put l c s)) fmt args s [] refl)

-- A buffer after the characters of a text: those that fit in front of its last byte.
abbrev pub filled : SnBuf → List ℕ → SnBuf
filled b l =
    let m = min (length l) (b.left - 1) in
    record {
      buf = take b.p b.buf ++ (take m l ++ drop (b.p + m) b.buf);
      p = b.p + m;
      left = b.left - m;
      n = (b.n + length l) % 2 ^ 32;
    }

SnBuf-eq : {b b' : SnBuf} → b.buf ≡ b'.buf → b.p ≡ b'.p → b.left ≡ b'.left → b.n ≡ b'.n → b ≡ b'
SnBuf-eq e f g h = λ i. record { buf = e i; p = f i; left = g i; n = h i }

take-set :
    (xs : List ℕ) (i v : ℕ) → i < length xs → take (i + 1) (set xs i v) ≡ take i xs ++ (v ∷ [])
take-set [] i v lt = absurd (omega arith)
take-set (x ∷ xs) zero v lt = refl
take-set (x ∷ xs) (suc i) v lt =
    let e : suc i + 1 ≡ suc (i + 1) = omega arith in
    rw e (ap (λ l. x ∷ l) (take-set xs i v (omega arith)))

drop-set_after : (xs : List ℕ) (i k v : ℕ) → i < k → drop k (set xs i v) ≡ drop k xs
drop-set_after [] i k v lt = refl
drop-set_after (x ∷ xs) zero (suc k) v lt = refl
drop-set_after (x ∷ xs) (suc i) (suc k) v lt = drop-set_after xs i k v (omega arith)
drop-set_after (x ∷ xs) i zero v lt = absurd (omega arith)

-- Where no more fits, only the count moves.
full-filled :
    (l : List ℕ) (b : SnBuf)
    → min (length l) (b.left - 1) ≡ 0
    → record b { n = (b.n + length l) % 2 ^ 32 } ≡ filled b l
full-filled l b none_fits = rw none_fits (
    SnBuf-eq
      (sym (ap (λ k. take b.p b.buf ++ drop k b.buf) (omega arith) ∙ take-append-drop b.p b.buf))
      (omega arith) (omega arith) refl)

filled-set :
    (c : ℕ) (l : List ℕ) (b : SnBuf)
    → 1 < b.left
    → b.p < length b.buf
    → filled
        (record { buf = set b.buf b.p c; p = b.p + 1; left = b.left - 1; n = (b.n + 1) % 2 ^ 32 })
        l
      ≡ filled b (c ∷ l)
filled-set c l b room inside =
    let step : min (suc (length l)) (b.left - 1) ≡ suc (min (length l) (b.left - 1 - 1)) =
      omega arith in
    let place : b.p + suc (min (length l) (b.left - 1 - 1))
        ≡ b.p + 1 + min (length l) (b.left - 1 - 1) =
      omega arith in
    rw step (
      SnBuf-eq
        (ap₂ (λ x y. x ++ (take (min (length l) (b.left - 1 - 1)) l ++ y))
            (take-set b.buf b.p c inside)
            (drop-set_after b.buf b.p (b.p + 1 + min (length l) (b.left - 1 - 1)) c (omega arith)
              ∙ ap (λ k. drop k b.buf) (sym place))
          ∙ append_assoc (take b.p b.buf) (c ∷ []) (
              take (min (length l) (b.left - 1 - 1)) l
              ++ drop (b.p + suc (min (length l) (b.left - 1 - 1))) b.buf))
        (sym place) (omega arith) (omega arith))

feed-sn_putc :
    (l : List ℕ) (b : SnBuf)
    → b.p + b.left ≤ length b.buf
    → b.n < 2 ^ 32
    → feed sn_putc l b ≡ filled b l
unfolding feed sn_putc
feed-sn_putc [] b fits small =
    SnBuf-eq refl refl refl (omega arith) ∙ full-filled [] b (omega arith)
feed-sn_putc (c ∷ l) b fits small = elim (Bool-cases (ltb 1 b.left)) [
  | inr full ↦ rw full (
      feed-sn_putc l (record b { n = (b.n + 1) % 2 ^ 32 }) fits (omega arith)
      ∙ (sym (full-filled l (record b { n = (b.n + 1) % 2 ^ 32 }) (ground arith))
          ∙ (SnBuf-eq refl refl refl (omega arith) ∙ full-filled (c ∷ l) b (ground arith))))
  | inl room ↦ rw room (
      feed-sn_putc l
        (record { buf = set b.buf b.p c; p = b.p + 1; left = b.left - 1; n = (b.n + 1) % 2 ^ 32 })
        (ground (arith, length-set b.buf b.p c)) (omega arith)
      ∙ filled-set c l b (ground arith) (ground arith))
]

-- What vsnprintf leaves: the text cut to `size - 1` bytes, its NUL, and the rest of the buffer as it
-- was; with size 0 nothing. It returns the length of the whole text.
abbrev pub cut_to : ℕ → List ℕ → List ℕ → List ℕ
cut_to size l buf =
    let m = min (length l) (size - 1) in
    if size == 0 then buf else take m l ++ (0 ∷ drop (suc m) buf)

set-append : (xs ys : List ℕ) (y v : ℕ) → set (xs ++ (y ∷ ys)) (length xs) v ≡ xs ++ (v ∷ ys)
set-append [] ys y v = refl
set-append (x ∷ xs) ys y v = ap (λ l. x ∷ l) (set-append xs ys y v)

terminate-filled :
    (buf : List ℕ) (size : ℕ) (l : List ℕ)
    → size ≤ length buf
    → length l < 2 ^ 32
    → terminate size (some (filled (record { buf = buf; p = 0; left = size; n = 0 }) l))
      ≡ some (length l, cut_to size l buf)
terminate-filled buf size l room small =
    let m : ℕ = min (length l) (size - 1) in
    let count : (0 + length l) % 2 ^ 32 ≡ length l = omega arith in
    let place : 0 + m ≡ m = omega arith in
    rw (count, place)
      (elim (Bool-cases (size == 0)) [
        | inl null ↦ let none_fits : m ≡ 0 = ground arith in rw (null, none_fits) refl
        | inr some_fits ↦
            let size' : length (take m l) ≡ m = omega (arith, length-take m l) in
            rw some_fits (
              ap (λ t. some (length l, t))
                (ap (λ d. set (take m l ++ d) m 0) (drop-cons buf m 0 (ground arith))
                  ∙ ap (λ k. set (take m l ++ (get_or buf m 0 ∷ drop (suc m) buf)) k 0) (sym size')
                  ∙ set-append (take m l) (drop (suc m) buf) (get_or buf m 0) 0))
      ])

-- vsnprintf into a buffer of at least `size` bytes leaves the printed text cut to `size - 1` bytes
-- with its NUL and nothing changed behind it, or with size 0 nothing changed at all; it returns the
-- length of the whole text, which is below 2^32.
pub vsnprintf-cut_to :
    (buf : List ℕ) (size : ℕ) (fmt : List ℕ) (args : List Arg) (l : List ℕ)
    → size ≤ length buf
    → printed fmt args ≡ some l
    → length l < 2 ^ 32
    → vsnprintf buf size fmt args ≡ some (length l, cut_to size l buf)
unfolding vsnprintf
vsnprintf-cut_to buf size fmt args l room prints small =
    rw
      (
        kvprintf-printed sn_putc fmt args (record { buf = buf; p = 0; left = size; n = 0 }),
        prints,
        feed-sn_putc l (record { buf = buf; p = 0; left = size; n = 0 }) (omega arith)
            (omega arith),
      )
      (terminate-filled buf size l room small)
