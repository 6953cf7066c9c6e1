-- ===== src/LineEdit/Examples.antt =====
-- kernel/lineedit.c at an editor that has read one character.
use waltex.Base.{replicate, ℕ, ◌≡◌, refl, ◌↔◌, true, [], ◌∷◌}
use waltex.LineEdit.{init, read_line, putc, LineEdit}
use waltex.LineEdit.Refine.{IsLine, putc-typed, typed, line, init-IsLine}

abbrev started : LineEdit
started = record { buf = replicate 128 0; len = 0; echo = true }

started-IsLine : IsLine started
unfolding init
started-IsLine = (init-IsLine true).0

-- A backspace takes back the last character, and the newline ends the line.
typing :
    read_line started (b'l' ∷ b'x' ∷ 8 ∷ b's' ∷ b'\n' ∷ b'p' ∷ [])
    ≡ (record started { buf = b'l' ∷ b's' ∷ replicate 126 0; len = 2 }, true, b'p' ∷ [])
unfolding read_line putc
typing = refl

putc-typed_example :
    let o = putc started b'l' in
    (line o.editor ≡ typed (line started) b'l')
    × ((o.done ≡ true) ↔ ◌≡◌ {A = ℕ} b'l' b'\n')
    × IsLine o.editor
putc-typed_example = putc-typed started b'l' started-IsLine
