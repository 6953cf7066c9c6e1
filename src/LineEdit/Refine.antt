-- ===== src/LineEdit/Refine.antt =====
-- lineedit.c against a line of text: the buffer always holds the line that was typed.
use waltex.Base.{
  ltb, leb, ◌==◌, if◌then◌else◌, Bool-cases, length, set, take, length-append, length-set,
  length-take, ℕ, ◌+◌, ◌-◌, ◌%◌, ◌<◌, ◌≡◌, refl, sym, ap, ◌∙◌, ◌≢◌, ◌↔◌, inl, inr, Bool, true, ◌&&◌,
  List, [], ◌∷◌, ◌++◌, arith,
}
use waltex.CString.{strlen, text}
use waltex.CString.Laws.{strlen-eq-length}
use waltex.LineEdit.{LineEdit, init, reset, edit, putc, line_max}
use waltex.LineEdit.Buffer.{strlen-replicate, text-replicate, text-set_nul, text-set_snoc}

-- The typed line.
abbrev pub line : LineEdit → List ℕ
line le = text le.buf

-- The array is whole, `len` is the length of the text in it, and the NUL fits.
pub record IsLine (le : LineEdit) : Type 0 where
  pub size : length le.buf ≡ line_max
  pub counted : le.len ≡ strlen le.buf
  pub fits : le.len < line_max

-- What one character does to a line, by the four cases of the header.
abbrev pub typed : List ℕ → ℕ → List ℕ
typed l c =
    if c == 8
    then take (length l - 1) l
    else if leb 32 c && ltb c 128 && ltb (length l + 1) line_max
    then l ++ (c ∷ [])
    else l

pub init-IsLine : (echo : Bool) → IsLine (init echo) × (line (init echo) ≡ [])
unfolding init
init-IsLine echo = (
  record { size = refl; counted = sym (strlen-replicate line_max); fits = omega arith },
  text-replicate line_max,
)

reset-IsLine : (le : LineEdit) → IsLine (reset le) × (line (reset le) ≡ [])
unfolding reset
reset-IsLine le = (
  record { size = refl; counted = sym (strlen-replicate line_max); fits = omega arith },
  text-replicate line_max,
)

module _ (le : LineEdit) (w : IsLine le) where
  length-line : le.len ≡ length (line le)
  length-line = w.counted ∙ strlen-eq-length le.buf

  -- Backspace on a line that is not empty.
  abbrev erased : LineEdit
  erased = record le { buf = set le.buf (le.len - 1) 0; len = le.len - 1 }

  line-erased : 0 < le.len → line erased ≡ take (length (line le) - 1) (line le)
  line-erased some_in =
      text-set_nul le.buf (le.len - 1) (omega (arith, w.counted)) (omega (arith, w.size, w.fits))
      ∙ ap (λ n. take (n - 1) (line le)) length-line

  erased-IsLine : 0 < le.len → IsLine erased
  erased-IsLine some_in = record {
    size = length-set le.buf (le.len - 1) 0 ∙ w.size;
    counted = omega (
      arith,
      strlen-eq-length erased.buf,
      ap length (line-erased some_in),
      length-take (length (line le) - 1) (line le),
      length-line,
    );
    fits = omega (arith, w.fits);
  }

  -- A printable character on a line with room.
  abbrev grown : ℕ → LineEdit
  grown c = record le { buf = set (set le.buf le.len c) (le.len + 1) 0; len = le.len + 1 }

  line-grown : (c : ℕ) → le.len + 1 < line_max → c ≢ 0 → line (grown c) ≡ line le ++ (c ∷ [])
  line-grown c room ne = text-set_snoc le.buf le.len c w.counted (omega (arith, w.size)) ne

  grown-IsLine : (c : ℕ) → le.len + 1 < line_max → c ≢ 0 → IsLine (grown c)
  grown-IsLine c room ne = record {
    size = length-set (set le.buf le.len c) (le.len + 1) 0 ∙ (length-set le.buf le.len c ∙ w.size);
    counted = omega (
      arith,
      strlen-eq-length (grown c).buf,
      ap length (line-grown c room ne),
      length-append (line le) (c ∷ []),
      length-line,
    );
    fits = room;
  }

  line_empty : le.len ≡ 0 → line le ≡ take (length (line le) - 1) (line le)
  line_empty e = go (line le) (length-line ∙ refl)
    where
      go : (l : List ℕ) → le.len ≡ length l → l ≡ take (length l - 1) l
      go [] p = refl
      go (x ∷ l) p = absurd (omega arith)

-- The character goes to the line as `typed` says, and the editor stays well formed.
pub edit-typed :
    (le : LineEdit) (c : ℕ)
    → IsLine le
    → (line (edit le c).0 ≡ typed (line le) c) × IsLine (edit le c).0
unfolding edit
edit-typed le c w =
    let same : le.len % 256 ≡ le.len = omega (arith, w.fits) in
    rw same (elim (Bool-cases (c == 8)) [
      | inl back ↦ rw back (elim (Bool-cases (ltb 0 le.len)) [
        | inl some_in ↦
            rw some_in (line-erased le w (ground arith), erased-IsLine le w (ground arith))
        | inr none_in ↦ rw none_in (line_empty le w (ground arith), w)
      ])
      | inr other ↦
          rw (other, ← length-line le w)
            (elim (Bool-cases (leb 32 c && ltb c 128)) [
              | inl printable ↦ rw printable (elim (Bool-cases (ltb (le.len + 1) line_max)) [
                | inl room ↦ rw room (
                  line-grown le w c (ground arith) (ground arith),
                  grown-IsLine le w c (ground arith) (ground arith),
                )
                | inr full ↦ rw full (refl, w)
              ])
              | inr control ↦ rw control (refl, w)
            ])
    ])

-- lineedit_putc on a well-formed editor: the line changes by the four cases, the call completes the
-- line exactly on a newline, and the editor stays well formed: no write leaves the array.
pub putc-typed :
    (le : LineEdit) (c : ℕ)
    → IsLine le
    → let o = putc le c in
      (line o.editor ≡ typed (line le) c) × ((o.done ≡ true) ↔ (c ≡ b'\n')) × IsLine o.editor
unfolding putc
putc-typed le c w = let kept = edit-typed le c w in (kept.0, ground arith, kept.1)
