-- ===== src/Pic/Lines.antt =====
-- pic_mask of kernel/pic.c on the sixteen lines.
use waltex.Base.{
  ◌==◌, if◌then◌else◌, ==→eq, eq→==, Bool-cases, eq_false, ℕ, ◌<◌, ◌≡◌, sym, ap, ◌∙◌, ◌≢◌, ◌⊎◌, inl,
  inr, Bool, true, false, not, arith,
}
use waltex.Bits.{is_clear, set_bit-Changes, clear_bit-Changes}
use waltex.Pic.{mask, data_port, line_bit, new_mask}
use waltex.Ports.{Ports}

-- What the controllers document: the data port of a chip that is initialised reads as its mask, and
-- a byte that is written to it becomes its mask. `mask_of w` is the mask behind a port.
pub record KeepsMasks {W : Type 0} (ports : Ports W) (mask_of : W → ℕ → ℕ) : Type 0 where
  pub byte : (w : W) (port : ℕ) → mask_of w port < 256
  pub read : (w : W) (irq : ℕ) → (ports.inb (data_port irq) w).0 ≡ mask_of w (data_port irq)
  pub undisturbed :
      (w : W) (irq port : ℕ) → mask_of (ports.inb (data_port irq) w).1 port ≡ mask_of w port
  pub written :
      (w : W) (irq v : ℕ) → v < 256 → mask_of (ports.outb (data_port irq) v w) (data_port irq) ≡ v
  pub other :
      (w : W) (irq port v : ℕ)
      → data_port irq ≢ port
      → mask_of (ports.outb (data_port irq) v w) port ≡ mask_of w port

module _ {W : Type 0} (ports : Ports W) (mask_of : W → ℕ → ℕ) where
  -- A line is on where its bit is clear.
  abbrev pub is_enabled : W → ℕ → Bool
  is_enabled w irq = is_clear (mask_of w (data_port irq)) (line_bit irq)

  new_mask-line :
      (masked : Bool) (x k j : ℕ)
      → k < 8
      → j < 8
      → x < 256
      → (new_mask masked x k < 256)
        × (((k ≡ j) × (is_clear (new_mask masked x k) j ≡ not masked))
            ⊎ ((k ≢ j) × (is_clear (new_mask masked x k) j ≡ is_clear x j)))
  new_mask-line true x k j hk hj hx = set_bit-Changes x k j hk hj hx
  new_mask-line false x k j hk hj hx = clear_bit-Changes x k j hk hj hx

  line_bit-lt : (irq : ℕ) → irq < 16 → line_bit irq < 8
  line_bit-lt irq lt = ground arith

  same_line :
      (irq line : ℕ)
      → data_port irq ≡ data_port line
      → line_bit irq ≡ line_bit line
      → irq < 16
      → line < 16
      → irq ≡ line
  same_line irq line port bit hi hl = ground arith

  -- The byte behind the port after pic_mask.
  mask-byte :
      (w : W) (irq : ℕ) (masked : Bool)
      → KeepsMasks ports mask_of
      → irq < 16
      → mask_of (mask ports irq masked w) (data_port irq)
        ≡ new_mask masked (mask_of w (data_port irq)) (line_bit irq)
  unfolding mask
  mask-byte w irq masked keeps hi =
      let small =
        (new_mask-line masked (mask_of w (data_port irq)) (line_bit irq) 0 (line_bit-lt irq hi)
          (omega arith) (keeps.byte w (data_port irq))).0 in
      rw (mask, keeps.read w irq)
        (keeps.written (ports.inb (data_port irq) w).1 irq
          (new_mask masked (mask_of w (data_port irq)) (line_bit irq)) small)

  -- pic_mask turns its line off or on, and leaves the other fifteen as they are.
  pub mask-Line :
      (w : W) (irq line : ℕ) (masked : Bool)
      → KeepsMasks ports mask_of
      → irq < 16
      → line < 16
      → is_enabled (mask ports irq masked w) line
        ≡ (if irq == line then not masked else is_enabled w line)
  unfolding mask
  mask-Line w irq line masked keeps hi hl = elim (Bool-cases (data_port irq == data_port line)) [
    | inr chips ↦
        let port : data_port irq ≢ data_port line = λ e. ground arith in
        let differ : (irq == line) ≡ false =
          eq_false (irq == line) (λ e. port (ap data_port (==→eq irq line e))) in
        rw differ (
          ap (λ x. is_clear x (line_bit line))
            (keeps.other (ports.inb (data_port irq) w).1 irq (data_port line)
                (new_mask masked (ports.inb (data_port irq) w).0 (line_bit irq)) port
              ∙ keeps.undisturbed w irq (data_port line)))
    | inl chip ↦
        let port : data_port irq ≡ data_port line = ==→eq (data_port irq) (data_port line) chip in
        let byte =
          ap (mask_of (mask ports irq masked w)) (sym port)
          ∙ (mask-byte w irq masked keeps hi
              ∙ ap (λ q. new_mask masked (mask_of w q) (line_bit irq)) port) in
        let x = mask_of w (data_port line) in
        ap (λ y. is_clear y (line_bit line)) byte
        ∙ elim (new_mask-line masked x (line_bit irq) (line_bit line) (line_bit-lt irq hi)
            (line_bit-lt line hl) (keeps.byte w (data_port line))).1 [
              | inl (same, now) ↦ rw (eq→== irq line (same_line irq line port same hi hl)) now
              | inr (differ, now) ↦
                  let lines : (irq == line) ≡ false =
                    eq_false (irq == line) (λ e. differ (ap line_bit (==→eq irq line e))) in
                  rw lines now
            ]
  ]
