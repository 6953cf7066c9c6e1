-- ===== src/Vga/Rows.antt =====
-- The copy of kernel/vga.c that moves the screen up by a row.
use waltex.Base.{
  length, take, drop, replicate, length-drop, take-length-append, drop-length-append, take-all,
  drop-all, ℕ, ◌+◌, ◌≡◌, sym, ap, ◌∙◌, List, ◌++◌, append-nil, arith,
}
use waltex.CString.{memcpy}
use waltex.CString.Fill.{memcpy_lem, memset16_lem}
use waltex.Vga.{moved_up}

take-append-here : (n : ℕ) (xs ys : List ℕ) → length xs ≡ n → take n (xs ++ ys) ≡ xs
take-append-here n xs ys e = ap (λ k. take k (xs ++ ys)) (sym e) ∙ take-length-append xs ys

drop-append-here : (n : ℕ) (xs ys : List ℕ) → length xs ≡ n → drop n (xs ++ ys) ≡ ys
drop-append-here n xs ys e = ap (λ k. drop k (xs ++ ys)) (sym e) ∙ drop-length-append xs ys

pub moved_up-blank :
    (n cols : ℕ) (cells : List ℕ) (blank : ℕ)
    → length cells ≡ cols + n
    → moved_up n cols cells blank ≡ drop cols cells ++ replicate cols blank
unfolding moved_up
moved_up-blank n cols cells blank size =
    let rest = drop cols cells in
    let enough : length rest ≡ n = omega (arith, length-drop cols cells) in
    let copied : memcpy cells rest n ≡ rest ++ drop n cells =
      memcpy_lem cells rest n (omega arith) (omega arith)
      ∙ ap (λ l. l ++ drop n cells) (take-all n rest (omega arith)) in
    let left : length (drop n cells) ≡ cols = omega (arith, length-drop n cells) in
    rw
      (
        copied,
        take-append-here n rest (drop n cells) enough,
        drop-append-here n rest (drop n cells) enough,
        memset16_lem (drop n cells) blank cols (omega arith),
        drop-all cols (drop n cells) (omega arith),
      )
      (ap (λ l. rest ++ l) (append-nil (replicate cols blank)))
