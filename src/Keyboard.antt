-- ===== src/Keyboard.antt =====
-- kernel/keyboard.c, include/keyboard.h: the keyboard interrupt, its tables, and the reads of /dev/kbd.
pub mod Tables
pub mod Typed
mod Examples
use waltex.Base.{
  ◌==◌, if◌then◌else◌, get_or, ℕ, zero, suc, ◌%◌, bit_and, Bool, true, false, not, ◌||◌, Option,
  none, some, List, [], ◌∷◌,
}
use waltex.Ring.{Ring, push, pop}

-- KBD_DATA, KBD_BREAK_BIT, KBD_SC_LSHIFT, KBD_SC_RSHIFT, KBD_SC_EXTENDED
abbrev pub kbd_data : ℕ
kbd_data = 0x60

abbrev pub sc_lshift : ℕ
sc_lshift = 0x2a

abbrev pub sc_rshift : ℕ
sc_rshift = 0x36

abbrev pub sc_extended : ℕ
sc_extended = 0xe0

-- scancode_to_ascii_normal
abbrev pub ascii_normal : List ℕ
ascii_normal =
    0 ∷ 27 ∷ 49 ∷ 50 ∷ 51 ∷ 52 ∷ 53 ∷ 54 ∷ 55 ∷ 56 ∷ 57 ∷ 48 ∷ 45 ∷ 61 ∷ 8 ∷ 9 ∷ 113 ∷ 119 ∷ 101
    ∷ 114 ∷ 116 ∷ 121 ∷ 117 ∷ 105 ∷ 111 ∷ 112 ∷ 91 ∷ 93 ∷ 10 ∷ 0 ∷ 97 ∷ 115 ∷ 100 ∷ 102 ∷ 103 ∷ 104
    ∷ 106 ∷ 107 ∷ 108 ∷ 59 ∷ 39 ∷ 96 ∷ 0 ∷ 92 ∷ 122 ∷ 120 ∷ 99 ∷ 118 ∷ 98 ∷ 110 ∷ 109 ∷ 44 ∷ 46 ∷ 47
    ∷ 0 ∷ 42 ∷ 0 ∷ 32 ∷ 0 ∷ 0 ∷ 0 ∷ 0 ∷ 0 ∷ 0 ∷ 0 ∷ 0 ∷ 0 ∷ 0 ∷ 0 ∷ 0 ∷ 0 ∷ 55 ∷ 56 ∷ 57 ∷ 45 ∷ 52
    ∷ 53 ∷ 54 ∷ 43 ∷ 49 ∷ 50 ∷ 51 ∷ 48 ∷ 46 ∷ 0 ∷ 0 ∷ 0 ∷ 0 ∷ 0 ∷ 0 ∷ 0 ∷ 0 ∷ 0 ∷ 0 ∷ 0 ∷ 0 ∷ 0 ∷ 0
    ∷ 0 ∷ 0 ∷ 0 ∷ 0 ∷ 0 ∷ 0 ∷ 0 ∷ 0 ∷ 0 ∷ 0 ∷ 0 ∷ 0 ∷ 0 ∷ 0 ∷ 0 ∷ 0 ∷ 0 ∷ 0 ∷ 0 ∷ 0 ∷ 0 ∷ 0 ∷ 0 ∷ 0
    ∷ 0 ∷ 0 ∷ 0 ∷ 0 ∷ 0 ∷ 0 ∷ []

-- scancode_to_ascii_shift
abbrev pub ascii_shift : List ℕ
ascii_shift =
    0 ∷ 27 ∷ 33 ∷ 64 ∷ 35 ∷ 36 ∷ 37 ∷ 94 ∷ 38 ∷ 42 ∷ 40 ∷ 41 ∷ 95 ∷ 43 ∷ 8 ∷ 9 ∷ 81 ∷ 87 ∷ 69 ∷ 82
    ∷ 84 ∷ 89 ∷ 85 ∷ 73 ∷ 79 ∷ 80 ∷ 123 ∷ 125 ∷ 10 ∷ 0 ∷ 65 ∷ 83 ∷ 68 ∷ 70 ∷ 71 ∷ 72 ∷ 74 ∷ 75 ∷ 76
    ∷ 58 ∷ 34 ∷ 126 ∷ 0 ∷ 124 ∷ 90 ∷ 88 ∷ 67 ∷ 86 ∷ 66 ∷ 78 ∷ 77 ∷ 60 ∷ 62 ∷ 63 ∷ 0 ∷ 42 ∷ 0 ∷ 32
    ∷ 0 ∷ 0 ∷ 0 ∷ 0 ∷ 0 ∷ 0 ∷ 0 ∷ 0 ∷ 0 ∷ 0 ∷ 0 ∷ 0 ∷ 0 ∷ 55 ∷ 56 ∷ 57 ∷ 45 ∷ 52 ∷ 53 ∷ 54 ∷ 43 ∷ 49
    ∷ 50 ∷ 51 ∷ 48 ∷ 46 ∷ 0 ∷ 0 ∷ 0 ∷ 0 ∷ 0 ∷ 0 ∷ 0 ∷ 0 ∷ 0 ∷ 0 ∷ 0 ∷ 0 ∷ 0 ∷ 0 ∷ 0 ∷ 0 ∷ 0 ∷ 0 ∷ 0
    ∷ 0 ∷ 0 ∷ 0 ∷ 0 ∷ 0 ∷ 0 ∷ 0 ∷ 0 ∷ 0 ∷ 0 ∷ 0 ∷ 0 ∷ 0 ∷ 0 ∷ 0 ∷ 0 ∷ 0 ∷ 0 ∷ 0 ∷ 0 ∷ 0 ∷ 0 ∷ 0 ∷ 0
    ∷ 0 ∷ []

-- The end of scancode_to_char: 0 is no character.
abbrev pub char_or_none : ℕ → Option ℕ
char_or_none c = if c == 0 then none else some c

-- scancode_to_char on a byte; `none` is -1. KBD_BREAK_BIT is bit 7.
unfoldable pub scancode_to_char : ℕ → Bool → Option ℕ
scancode_to_char scancode shift =
    if not (bit_and scancode 0x80 == 0)
    then none
    else if shift
    then char_or_none (get_or ascii_shift scancode 0)
    else char_or_none (get_or ascii_normal scancode 0)

-- `r`, `skip_next` and `shift_pressed`
pub record Keyboard : Type 0 where
  pub ring : Ring
  pub skip_next : Bool
  pub shift_pressed : Bool

-- `if (scancode >= 0) ring_push(&r, scancode);`: a character that the full ring refuses is lost.
abbrev pub put : Ring → Option ℕ → Ring
put r none = r
put r (some c) = (push r (c % 256)).1

-- keyboard_handler, for the byte that inb(KBD_DATA) gives
unfoldable pub handler : Keyboard → ℕ → Keyboard
handler k byte =
    if k.skip_next
    then record k { skip_next = false }
    else if byte == sc_extended
    then record k { skip_next = true }
    else if byte == sc_lshift || byte == sc_rshift
    then record k { shift_pressed = true }
    else record k {
      ring = put k.ring (scancode_to_char byte k.shift_pressed);
      shift_pressed = false;
    }

-- keyboard_getchar; `none` is -1.
unfoldable pub getchar : Keyboard → Option ℕ × Keyboard
getchar k = let (c, r) = pop k.ring in (c, record k { ring = r })

-- The loop of kbd_dev_read, for `suc n` bytes at most.
unfoldable pub kbd_read_loop : Keyboard → ℕ → List ℕ × Keyboard
unfolding getchar
kbd_read_loop k zero = ([], k)
kbd_read_loop k (suc n) =
    let rest = kbd_read_loop (getchar k).1 n in
    elim (getchar k).0 [ none ↦ ([], (getchar k).1) | some c ↦ (c ∷ rest.0, rest.1) ]

-- keyboard_init, as far as it touches the keyboard's own state.
unfoldable pub init : Keyboard → Keyboard
init k = record k { ring = waltex.Ring.init k.ring }
