-- ===== src/Vga/Examples.antt =====
-- kernel/vga.c at the end of the last row.
use waltex.Base.{get_or, replicate, length-replicate, ℕ, ◌+◌, ◌≡◌, refl, [], ◌∷◌, arith}
use waltex.CString.{memcpy, memset16}
use waltex.Ports.{Ports}
use waltex.Vga.{Vga, put_char, place, dev_write}
use waltex.Vga.Screen.{IsVga, put_char-Shows, Shows, dev_write-IsVga}

abbrev full : Vga
full = record { cells = replicate 2000 0x0741; cursor = 1999; color = 7 }

full-IsVga : IsVga full
full-IsVga = record { size = length-replicate {A = ℕ} 2000 0x0741; inside = omega arith }

put_char-Shows_example : Shows full b'B' (put_char full b'B')
put_char-Shows_example = put_char-Shows full b'B' full-IsVga

-- Two cells of the screen afterwards: the character that moved up, and the blank behind it.
moved_and_blank :
    (get_or (put_char full b'B').cells 1919 0 ≡ 0x0742)
    × (get_or (put_char full b'B').cells 1920 0 ≡ 0x0720)
    × ((put_char full b'B').cursor ≡ 1920)
unfolding put_char place waltex.CString.memcpy waltex.CString.memset16
moved_and_blank = (refl, refl, refl)

abbrev no_chips : Ports ℕ
no_chips = record {
  inb = λ port w. (0xff, w);
  outb = λ port v w. w + 1;
  insw = λ port count w. ([], w);
  outsw = λ port bytes w. w;
}

dev_write-IsVga_example : IsVga (dev_write no_chips (full, 0) (b'a' ∷ 10 ∷ 8 ∷ b'b' ∷ 200 ∷ []) 5).0
dev_write-IsVga_example =
    dev_write-IsVga no_chips (full, 0) (b'a' ∷ 10 ∷ 8 ∷ b'b' ∷ 200 ∷ []) 5 full-IsVga
