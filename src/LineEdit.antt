-- ===== src/LineEdit.antt =====
-- kernel/lineedit.c, include/lineedit.h: the line editor of the shell, one character at a time.
pub mod Buffer
pub mod Refine
mod Examples
use waltex.Base.{
  ltb, leb, ◌==◌, if◌then◌else◌, set, replicate, ℕ, ◌+◌, ◌-◌, ◌%◌, Bool, true, false, ◌&&◌, List,
  [], ◌∷◌, ◌++◌,
}

-- LINE_MAX, the NUL included
abbrev pub line_max : ℕ
line_max = 128

-- struct lineedit. `echo` tells whether the sink is not null; what it is given is a result.
pub record LineEdit : Type 0 where
  pub buf : List ℕ
  pub len : ℕ
  pub echo : Bool

-- What a call does: the editor after it, the characters given to the sink, and the result.
pub record Outcome : Type 0 where
  pub editor : LineEdit
  pub echoed : List ℕ
  pub done : Bool

-- lineedit_init: the loop writes every byte of the array.
pub init : Bool → LineEdit
init echo = record { buf = replicate line_max 0; len = 0; echo = echo }

-- lineedit_reset
pub reset : LineEdit → LineEdit
reset le = record le { buf = replicate line_max 0; len = 0 }

-- `if (le->echo) le->echo(...)`
abbrev pub to_sink : LineEdit → List ℕ → List ℕ
to_sink le cs = if le.echo then cs else []

-- `uint8_t ll = le->len`
abbrev pub length_byte : LineEdit → ℕ
length_byte le = le.len % 256

-- The first `if` of lineedit_putc: backspace, a printable character, or neither. A byte from 128 on
-- is a negative char, so not `>= 32`.
pub edit : LineEdit → ℕ → LineEdit × List ℕ
edit le c =
    let ll = length_byte le in
    if c == 8
    then (if ltb 0 ll
        then (
          record le { buf = set le.buf (ll - 1) 0; len = le.len - 1 },
          to_sink le (8 ∷ 32 ∷ 8 ∷ []),
        )
        else (le, []))
    else if leb 32 c && ltb c 128
    then (if ltb (ll + 1) line_max
        then (
          record le { buf = set (set le.buf ll c) (ll + 1) 0; len = le.len + 1 },
          to_sink le (c ∷ []),
        )
        else (le, []))
    else (le, [])

-- `ll-1 >= LINE_MAX`, on ints
abbrev pub overlong : ℕ → Bool
overlong ll = leb (line_max + 1) ll

-- lineedit_putc. Its last two tests look at `c` and at the length before the call.
pub putc : LineEdit → ℕ → Outcome
unfolding edit
putc le c =
    let (le', echoed) = edit le c in
    record {
      editor = le';
      echoed = if c == b'\n' then echoed ++ to_sink le (b'\n' ∷ []) else echoed;
      done = if overlong (length_byte le) then true else c == b'\n';
    }

-- The characters of a line, typed one after another: the loop of a caller that stops at a complete
-- line. The rest of the input is left.
pub read_line : LineEdit → List ℕ → LineEdit × Bool × List ℕ
read_line le [] = (le, false, [])
read_line le (c ∷ cs) =
    let o = putc le c in
    let rest = read_line o.editor cs in if o.done then (o.editor, true, cs) else rest
