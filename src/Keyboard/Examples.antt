-- ===== src/Keyboard/Examples.antt =====
-- kernel/keyboard.c on a few keys.
use waltex.Base.{take, replicate, ℕ, ◌≡◌, refl, true, false, List, [], ◌∷◌, ◌++◌, arith}
use waltex.Keyboard.{Keyboard, scancode_to_char, handler, getchar, kbd_read_loop}
use waltex.Keyboard.Tables.{scancode_to_char-shift, key_fits}
use waltex.Keyboard.Typed.{typed, handle_all, kbd_read_loop-typed}
use waltex.Ring.{push, pop}
use waltex.Ring.Queue.{IsRing, contents}

abbrev quiet : Keyboard
quiet = record {
  ring = record { buf = replicate 128 0; head = 126; tail = 126 };
  skip_next = false;
  shift_pressed = false;
}

quiet-IsRing : IsRing quiet.ring
quiet-IsRing = record { size = refl; head_in = omega arith; tail_in = omega arith }

-- Shift down, a down, a up, shift up, b down, an arrow, b up.
abbrev keys : List ℕ
keys = 0x2a ∷ 0x1e ∷ 0x9e ∷ 0xaa ∷ 0x30 ∷ 0xe0 ∷ 0x48 ∷ 0xb0 ∷ []

both_keys : (kbd_read_loop (handle_all quiet keys) 5).0 ≡ b'A' ∷ b'b' ∷ []
unfolding kbd_read_loop handle_all handler getchar scancode_to_char push pop
both_keys = refl

-- Shift is held down over two letters, and only the first is a capital.
held_shift : (kbd_read_loop (handle_all quiet (0x2a ∷ 0x1e ∷ 0x1e ∷ [])) 5).0 ≡ b'A' ∷ b'a' ∷ []
unfolding kbd_read_loop handle_all handler getchar scancode_to_char push pop
held_shift = refl

kbd_read_loop-typed_example :
    (kbd_read_loop (handle_all quiet keys) 1).0
    ≡ take 1 (take 127 (contents quiet.ring ++ typed false false keys))
kbd_read_loop-typed_example = kbd_read_loop-typed quiet keys 1 quiet-IsRing

scancode_to_char-shift_run :
    key_fits (scancode_to_char 0x1e false) (scancode_to_char 0x1e true) ≡ true
scancode_to_char-shift_run = scancode_to_char-shift 0x1e
