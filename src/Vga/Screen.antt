-- ===== src/Vga/Screen.antt =====
-- The screen of kernel/vga.c: the cursor stays inside, and what a byte changes.
use waltex.Base.{
  ltb, leb, ◌==◌, if◌then◌else◌, ==→eq, Bool-cases, length, get_or, drop, replicate, length-append,
  length-set, length-replicate, get_or-set_self, get_or-set_ne, get_or-replicate, length-drop,
  get_or-append_left, get_or-append_right, get_or-drop, ℕ, zero, suc, ◌+◌, ◌-◌, ◌*◌, ◌/◌, ◌%◌, ◌≤◌,
  ◌<◌, bit_or, ◌≡◌, refl, ap, ◌∙◌, subst, inl, inr, Bool, true, false, ◌&&◌, List, [], ◌∷◌, ◌++◌,
  arith,
}
use waltex.CString.Fill.{length-memset16}
use waltex.Ports.{Ports}
use waltex.Vga.{dev_write, vga_putc, clear, put_char, scroll, place, Vga, vga_cols, vga_rows, cell}
use waltex.Vga.Rows.{moved_up-blank}

-- The memory is whole, and the cursor is on a cell.
pub record IsVga (v : Vga) : Type 0 where
  pub size : length v.cells ≡ vga_cols * vga_rows
  pub inside : v.cursor < vga_cols * vga_rows

place-size : (v : Vga) (c : ℕ) → IsVga v → length (place v c).cells ≡ vga_cols * vga_rows
unfolding place
place-size v c w = ground (arith, w.size, length-set v.cells v.cursor (cell v.color c))

place-cursor : (v : Vga) (c : ℕ) → IsVga v → (place v c).cursor ≤ vga_cols * vga_rows
unfolding place
place-cursor v c w = ground (arith, w.inside)

-- The memory that vga_putc leaves, by rows.
abbrev pub up_or_same : Vga → List ℕ
up_or_same v =
    if leb (vga_cols * vga_rows) v.cursor
    then drop vga_cols v.cells ++ replicate vga_cols (cell v.color b' ')
    else v.cells

scroll-screen :
    (v : Vga)
    → length v.cells ≡ vga_cols * vga_rows
    → IsVga (scroll v) × ((scroll v).cells ≡ up_or_same v)
unfolding scroll
scroll-screen v size = elim (Bool-cases (leb (vga_cols * vga_rows) v.cursor)) [
  | inr inside ↦ rw inside (record { size = size; inside = ground arith }, refl)
  | inl bottom ↦
      let blank = cell v.color b' ' in
      let up = moved_up-blank 1920 80 v.cells blank (omega arith) in
      let whole : length (drop 80 v.cells ++ replicate 80 blank) ≡ 2000 = omega (
        arith,
        length-append (drop 80 v.cells) (replicate 80 blank),
        length-drop 80 v.cells,
        length-replicate 80 blank,
      ) in
      rw bottom (record { size = ap length up ∙ whole; inside = omega arith }, up)
]

-- A byte that vga_putc shows: from 32 to 127, since a `char` is signed.
abbrev pub printable : ℕ → Bool
printable c = leb 32 c && ltb c 128

-- Cell `i` of the screen after the byte `c`, before any scroll.
abbrev pub written : Vga → ℕ → ℕ → ℕ
written v c i =
    if printable c && i == v.cursor then bit_or (v.color * 256) c else get_or v.cells i 0

-- Where the byte `c` puts the cursor, before any scroll: behind a byte that is shown, at the start of
-- the next row for a newline, back by one for a backspace except at the first cell.
abbrev pub moved_to : Vga → ℕ → ℕ
moved_to v c =
    if printable c
    then v.cursor + 1
    else if c == 10
    then (v.cursor / 80 + 1) * 80
    else if c == 8
    then v.cursor - 1
    else v.cursor

-- The screen after the byte: whole, the colour as it was, and moved up by a row with a blank one
-- behind where the cursor would have left the last row.
pub record Shows (v : Vga) (c : ℕ) (v' : Vga) : Type 0 where
  pub whole : IsVga v'
  pub color : v'.color ≡ v.color
  pub cursor : v'.cursor ≡ (if ltb (moved_to v c) 2000 then moved_to v c else 1920)
  pub cells :
      (i : ℕ)
      → i < 2000
      → get_or v'.cells i 0 ≡ (
          if ltb (moved_to v c) 2000
          then written v c i
          else if ltb i 1920
          then written v c (i + 80)
          else bit_or (v.color * 256) b' ')

place-cell : (v : Vga) (c i : ℕ) → IsVga v → get_or (place v c).cells i 0 ≡ written v c i
unfolding place
place-cell v c i w = elim (Bool-cases (leb 32 c && ltb c 128)) [
  | inl shown ↦ rw shown (elim (Bool-cases (i == v.cursor)) [
    | inl here ↦
        rw (here, ==→eq i v.cursor here)
          (get_or-set_self v.cells v.cursor (bit_or (v.color * 256) c) 0
            (omega (arith, w.size, w.inside)))
    | inr there ↦
        rw there (get_or-set_ne v.cells v.cursor i (bit_or (v.color * 256) c) 0 (λ e. ground arith))
  ])
  | inr control ↦ rw control (same (c == 10) (c == 8 && ltb 0 v.cursor))
]
  where
    same :
        (newline back : Bool)
        → get_or
            (if newline
              then record v { cursor = v.cursor + (vga_cols - v.cursor % vga_cols) }
              else if back
              then record v { cursor = v.cursor - 1 }
              else v).cells
            i
            0
          ≡ get_or v.cells i 0
    same true back = refl
    same false true = refl
    same false false = refl

place-moved_to : (v : Vga) (c : ℕ) → (place v c).cursor ≡ moved_to v c
unfolding place
place-moved_to v c = ground arith

place-color : (v : Vga) (c : ℕ) → (place v c).color ≡ v.color
unfolding place
place-color v c = ground arith

-- The cursor and the colour after the end of the critical section.
scroll_rest :
    (v : Vga)
    → ((scroll v).color ≡ v.color)
      × ((scroll v).cursor ≡ (if ltb v.cursor 2000 then v.cursor else 1920))
unfolding scroll
scroll_rest v = ground arith

up_or_same-cell :
    (v : Vga) (i : ℕ)
    → length v.cells ≡ vga_cols * vga_rows
    → i < 2000
    → get_or (up_or_same v) i 0 ≡ (
        if ltb v.cursor 2000
        then get_or v.cells i 0
        else if ltb i 1920
        then get_or v.cells (i + 80) 0
        else cell v.color b' ')
up_or_same-cell v i size lt = elim (Bool-cases (ltb v.cursor 2000)) [
  | inl inside ↦
      let same : leb (vga_cols * vga_rows) v.cursor ≡ false = ground arith in rw (inside, same) refl
  | inr bottom ↦
      let up : leb (vga_cols * vga_rows) v.cursor ≡ true = ground arith in
      let blank = replicate 80 (cell v.color b' ') in
      let rest : length (drop 80 v.cells) ≡ 1920 = omega (arith, length-drop 80 v.cells) in
      rw (bottom, up)
        (elim (Bool-cases (ltb i 1920)) [
          | inl above ↦ rw above (
              get_or-append_left (drop 80 v.cells) blank i (ground (arith, rest))
              ∙ (get_or-drop 80 v.cells i ∙ ap (λ k. get_or v.cells k 0) (omega arith)))
          | inr last ↦ rw last (
              get_or-append_right (drop 80 v.cells) blank i (ground (arith, rest))
              ∙ get_or-replicate 80 (i - length (drop 80 v.cells)) (cell v.color b' ') 0
                  (ground (arith, rest)))
        ])
]

-- vga_putc shows a byte from 32 to 127 at the cursor in the current colour, takes a newline and a
-- backspace as moves of the cursor, and ignores every other byte. The cursor stays on the screen:
-- where it would leave the last row, every row moves up and the last one is blank.
pub put_char-Shows : (v : Vga) (c : ℕ) → IsVga v → Shows v c (put_char v c)
unfolding put_char
put_char-Shows v c w =
    let placed = place v c in
    let moved = place-moved_to v c in
    let screen = scroll-screen placed (place-size v c w) in
    record {
      whole = screen.0;
      color = (scroll_rest placed).0 ∙ place-color v c;
      cursor =
          subst (λ k. (scroll placed).cursor ≡ (if ltb k 2000 then k else 1920)) moved
            ((scroll_rest placed).1);
      cells = λ i lt.
          ap (λ l. get_or l i 0) screen.1
          ∙ (up_or_same-cell placed i (place-size v c w) lt
              ∙ rw (moved, place-cell v c i w, place-cell v c (i + 80) w, place-color v c) refl);
    }

-- vga_clear
pub clear-IsVga : (v : Vga) → length v.cells ≡ vga_cols * vga_rows → IsVga (clear v)
unfolding clear
clear-IsVga v size = record {
  size = length-memset16 v.cells (cell v.color 32) 2000 ∙ size;
  inside = omega arith;
}

module _ {W : Type 0} (ports : Ports W) where
  -- Whatever bytes are written to the console, the memory of the screen stays whole and the cursor
  -- on a cell of it, so that no write is outside.
  pub dev_write-IsVga :
      (s : Vga × W) (buf : List ℕ) (n : ℕ) → IsVga s.0 → IsVga (dev_write ports s buf n).0
  unfolding dev_write vga_putc
  dev_write-IsVga s buf zero w = w
  dev_write-IsVga s [] (suc n) w = w
  dev_write-IsVga s (c ∷ buf) (suc n) w =
      dev_write-IsVga (vga_putc ports s c) buf n (put_char-Shows s.0 c w).whole
