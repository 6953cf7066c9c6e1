-- ===== src/Keyboard/Typed.antt =====
-- What the keyboard interrupt of kernel/keyboard.c and the reads of /dev/kbd make of a sequence of
-- bytes from the controller.
use waltex.Base.{
  ltb, ◌==◌, if◌then◌else◌, Bool-cases, none-ne-some, some_inj, length, take, drop,
  take-length-append, take-all, ℕ, zero, suc, ◌%◌, ◌≤◌, ◌<◌, ◌≡◌, refl, sym, ap, ap₂, ◌∙◌, inl, inr,
  Bool, true, false, ◌||◌, Option, none, some, List, [], ◌∷◌, ◌++◌, append_assoc, append-nil, arith,
}
use waltex.Keyboard.{Keyboard, scancode_to_char, handler, getchar, kbd_read_loop, put}
use waltex.Keyboard.Tables.{scancode_to_char-lt}
use waltex.Ring.{Ring, pop}
use waltex.Ring.Queue.{
  count, length-bytes_from, IsRing, contents, enqueue, dequeue, push_refines, pop_refines,
  push-IsRing, pop-IsRing,
}

-- The characters that the bytes stand for, after a prefix or not, and after a shift or not.
unfoldable pub typed : Bool → Bool → List ℕ → List ℕ
typed skip shift [] = []
typed true shift (byte ∷ bytes) = typed false shift bytes
typed false shift (byte ∷ bytes) =
    let prefixed = typed true shift bytes in
    let shifted = typed false true bytes in
    let rest = typed false false bytes in
    if byte == 0xe0
    then prefixed
    else if byte == 0x2a || byte == 0x36
    then shifted
    else elim (scancode_to_char byte shift) [ none ↦ rest | some c ↦ c ∷ rest ]

-- The interrupts of a sequence of bytes.
unfoldable pub handle_all : Keyboard → List ℕ → Keyboard
handle_all k [] = k
handle_all k (byte ∷ bytes) = handle_all (handler k byte) bytes

-- A queue of at most 127 characters, and one more that it takes or refuses.
enqueue-take :
    (q : List ℕ) (c : ℕ) (t : List ℕ)
    → length q ≤ 127
    → take 127 ((enqueue q c).1 ++ t) ≡ take 127 (q ++ (c ∷ t))
enqueue-take q c t le = elim (Bool-cases (ltb (length q) 127)) [
  | inl room ↦ rw (room, append_assoc q (c ∷ []) t) refl
  | inr full ↦
      let whole : length q ≡ 127 = ground arith in
      let same : (t' : List ℕ) → take 127 (q ++ t') ≡ q =
        λ t'. ap (λ n. take n (q ++ t')) (sym whole) ∙ take-length-append q t' in
      rw full (same t ∙ sym (same (c ∷ t)))
]

length-contents : (r : Ring) → IsRing r → length (contents r) ≤ 127
length-contents r w = omega (arith, length-bytes_from r.buf r.tail (count r))

put-contents :
    (r : Ring) (o : Option ℕ)
    → IsRing r
    → ((c : ℕ) → o ≡ some c → c < 128)
    → IsRing (put r o)
      × ((t : List ℕ)
          → take 127 (contents (put r o) ++ t)
            ≡ take 127 (contents r ++ elim o as (λ x. List ℕ) [ none ↦ t | some c ↦ c ∷ t ]))
put-contents r none w small = (w, λ t. refl)
put-contents r (some c) w small =
    let lt = small c refl in
    let byte : c % 256 ≡ c = omega arith in
    rw (put, byte)
      (
        push-IsRing c w,
        λ t.
            ap (λ p. take 127 (p.1 ++ t)) (push_refines c w)
            ∙ enqueue-take (contents r) c t (length-contents r w),
      )

-- One interrupt.
handler-step :
    (r : Ring) (skip shift : Bool) (byte : ℕ)
    → IsRing r
    → let k' = handler (record { ring = r; skip_next = skip; shift_pressed = shift }) byte in
      IsRing k'.ring
      × ((bytes : List ℕ)
          → take 127 (contents k'.ring ++ typed k'.skip_next k'.shift_pressed bytes)
            ≡ take 127 (contents r ++ typed skip shift (byte ∷ bytes)))
unfolding handler typed
handler-step r true shift byte w = (w, λ bytes. refl)
handler-step r false shift byte w = elim (Bool-cases (byte == 0xe0)) [
  | inl prefix ↦ rw prefix (w, λ bytes. refl)
  | inr plain ↦ elim (Bool-cases (byte == 0x2a || byte == 0x36)) [
    | inl shifts ↦ rw (plain, shifts) (w, λ bytes. refl)
    | inr key ↦
        let (w', same) =
          put-contents r (scancode_to_char byte shift) w
            (λ c e. scancode_to_char-lt byte shift c e) in
        rw (plain, key) (w', λ bytes. same (typed false false bytes))
  ]
]

-- After the interrupts of a sequence of bytes the ring holds, behind what it held, the characters
-- that the bytes stand for, and of all these the first 127.
pub handle_all-typed :
    (k : Keyboard) (bytes : List ℕ)
    → IsRing k.ring
    → IsRing (handle_all k bytes).ring
      × (contents (handle_all k bytes).ring
          ≡ take 127 (contents k.ring ++ typed k.skip_next k.shift_pressed bytes))
unfolding handle_all typed
handle_all-typed k [] w = (
  w,
  sym (
      ap (take 127) (append-nil (contents k.ring))
      ∙ take-all 127 (contents k.ring) (length-contents k.ring w)),
)
handle_all-typed k (byte ∷ bytes) w =
    let (w', one) = handler-step k.ring k.skip_next k.shift_pressed byte w in
    let (w'', rest) = handle_all-typed (handler k byte) bytes w' in (w'', rest ∙ one bytes)

-- One round of the loop, for what ring_pop gives.
read-step :
    (o : Option ℕ) (q : List ℕ) (k : Keyboard) (n : ℕ) (rest : List ℕ × Keyboard)
    → (o, contents k.ring) ≡ dequeue q
    → IsRing k.ring
    → rest.0 ≡ take n (contents k.ring)
    → contents rest.1.ring ≡ drop n (contents k.ring)
    → IsRing rest.1.ring
    → let answer = elim o as (λ x. List ℕ × Keyboard) [
      | none ↦ ([], k)
      | some c ↦ (c ∷ rest.0, rest.1)
    ] in
      (answer.0 ≡ take (suc n) q) × (contents answer.1.ring ≡ drop (suc n) q) × IsRing answer.1.ring
read-step none [] k n rest e w taken left w' = (refl, ap (λ p. p.1) e, w)
read-step none (x ∷ q) k n rest e w taken left w' = absurd (none-ne-some (ap (λ p. p.0) e))
read-step (some c) [] k n rest e w taken left w' = absurd (none-ne-some (sym (ap (λ p. p.0) e)))
read-step (some c) (x ∷ q) k n rest e w taken left w' =
    let same = some_inj (ap (λ p. p.0) e) in
    let tail = ap (λ p. p.1) e in
    (ap₂ ◌∷◌ same (taken ∙ ap (take n) tail), left ∙ ap (drop n) tail, w')

-- kbd_read_loop gives the oldest characters, as many as asked where there are so many.
pub kbd_read_loop-contents :
    (k : Keyboard) (n : ℕ)
    → IsRing k.ring
    → ((kbd_read_loop k n).0 ≡ take n (contents k.ring))
      × (contents (kbd_read_loop k n).1.ring ≡ drop n (contents k.ring))
      × IsRing (kbd_read_loop k n).1.ring
unfolding kbd_read_loop getchar
kbd_read_loop-contents k zero w = (refl, refl, w)
kbd_read_loop-contents k (suc n) w =
    let (taken, left, w') = kbd_read_loop-contents (getchar k).1 n (pop-IsRing w) in
    read-step (pop k.ring).0 (contents k.ring) (getchar k).1 n (kbd_read_loop (getchar k).1 n)
      (pop_refines w) (pop-IsRing w) taken left w'

-- After the interrupts of a sequence of bytes, a read of /dev/kbd gives the oldest of the first 127
-- characters that were waiting or that the bytes stand for, at most as many as asked.
pub kbd_read_loop-typed :
    (k : Keyboard) (bytes : List ℕ) (n : ℕ)
    → IsRing k.ring
    → (kbd_read_loop (handle_all k bytes) n).0
      ≡ take n (take 127 (contents k.ring ++ typed k.skip_next k.shift_pressed bytes))
kbd_read_loop-typed k bytes n w =
    let (w', same) = handle_all-typed k bytes w in
    (kbd_read_loop-contents (handle_all k bytes) n w').0 ∙ ap (take n) same
