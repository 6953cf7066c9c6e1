-- ===== src/Vga.antt =====
-- kernel/vga.c, include/vga.h: the screen in text mode. The memory of the screen is a list of 2000
-- cells, and the copies count cells where the code counts bytes.
pub mod Screen
pub mod Rows
mod Examples
use waltex.Base.{
  ltb, leb, ◌==◌, if◌then◌else◌, set, take, drop, ℕ, zero, suc, ◌+◌, ◌-◌, ◌*◌, ◌/◌, ◌%◌, ◌^◌,
  bit_and, bit_or, ◌&&◌, List, [], ◌∷◌, ◌++◌,
}
use waltex.CString.{memcpy, memset16}
use waltex.Ports.{Ports}

-- VGA_COLS, VGA_ROWS
abbrev pub vga_cols : ℕ
vga_cols = 80

abbrev pub vga_rows : ℕ
vga_rows = 25

-- The memory at VGA_MEM, `cursor` and `color`
pub record Vga : Type 0 where
  pub cells : List ℕ
  pub cursor : ℕ
  pub color : ℕ

-- `(color << 8) | c`
abbrev pub cell : ℕ → ℕ → ℕ
cell color c = bit_or (color * 2 ^ 8) c

-- The state in vga_clear before the cursor is shown.
unfoldable pub clear : Vga → Vga
clear v = record v {
  cells = memset16 v.cells (cell v.color b' ') (vga_cols * vga_rows);
  cursor = 0;
}

-- vga_set_color
unfoldable pub set_color : ℕ → ℕ → Vga → Vga
set_color fg bg v = record v { color = bit_or (bit_and fg 0x0f) (bit_and bg 0x07 * 2 ^ 4) }

-- The three branches of vga_putc. A `char` is signed, so a byte from 128 on is below 32.
unfoldable pub place : Vga → ℕ → Vga
place v c =
    if leb 32 c && ltb c 128
    then record v { cells = set v.cells v.cursor (cell v.color c); cursor = v.cursor + 1 }
    else if c == 10
    then record v { cursor = v.cursor + (vga_cols - v.cursor % vga_cols) }
    else if c == 8 && ltb 0 v.cursor
    then record v { cursor = v.cursor - 1 }
    else v

-- The copy of `n` cells that moves the screen up by a row of `cols`, and the blanks behind them. The
-- copy goes down in memory, so that it reads each cell before it is overwritten.
unfoldable pub moved_up : ℕ → ℕ → List ℕ → ℕ → List ℕ
moved_up n cols cells blank =
    let moved = memcpy cells (drop cols cells) n in
    take n moved ++ memset16 (drop n moved) blank cols

-- The end of the critical section.
unfoldable pub scroll : Vga → Vga
unfolding moved_up
scroll v =
    if leb (vga_cols * vga_rows) v.cursor
    then record v {
      cells = moved_up ((vga_rows - 1) * vga_cols) vga_cols v.cells (cell v.color b' ');
      cursor = (vga_rows - 1) * vga_cols;
    }
    else v

-- vga_putc between irq_save and irq_restore
unfoldable pub put_char : Vga → ℕ → Vga
unfolding place scroll
put_char v c = scroll (place v c)

module _ {W : Type 0} (ports : Ports W) where
  -- set_cursor. VGA_CURSOR_INDEX is 0x3d4, VGA_CURSOR_DATA is 0x3d5.
  unfoldable pub set_cursor : ℕ → W → W
  set_cursor cursor w =
      let w = ports.outb 0x3d4 0x0f w in
      let w = ports.outb 0x3d5 (cursor % 2 ^ 8) w in
      let w = ports.outb 0x3d4 0x0e w in ports.outb 0x3d5 (cursor / 2 ^ 8 % 2 ^ 8) w

  -- vga_clear, vga_putc
  unfoldable pub vga_clear : Vga × W → Vga × W
  unfolding set_cursor clear
  vga_clear (v, w) = (clear v, set_cursor 0 w)

  unfoldable pub vga_putc : Vga × W → ℕ → Vga × W
  unfolding set_cursor put_char
  vga_putc (v, w) c = (put_char v c, set_cursor (put_char v c).cursor w)

  -- vga_dev_write on the `n` bytes of `buf`: it returns `n`.
  unfoldable pub dev_write : Vga × W → List ℕ → ℕ → Vga × W
  unfolding vga_putc
  dev_write s buf zero = s
  dev_write s [] (suc n) = s
  dev_write s (c ∷ buf) (suc n) = dev_write (vga_putc s c) buf n
