-- ===== src/Pic/Examples.antt =====
-- kernel/pic.c on two mask registers.
use waltex.Base.{
  ltb, ◌==◌, if◌then◌else◌, ==→eq, Bool-cases, eq_false, ℕ, ◌%◌, ◌≡◌, refl, sym, inl, inr, false,
  not, [], arith,
}
use waltex.Pic.{slave_data, mask, master_data}
use waltex.Pic.Lines.{KeepsMasks, mask-Line, is_enabled}
use waltex.Ports.{Ports}

-- The masks of the master and of the slave.
abbrev masks_of : ℕ × ℕ → ℕ → ℕ
masks_of (master, slave) port =
    (if port == master_data then master else if port == slave_data then slave else 0) % 256

abbrev write_mask : ℕ → ℕ → ℕ × ℕ → ℕ × ℕ
write_mask port v (master, slave) = if port == master_data then (v, slave) else (master, v)

abbrev chips : Ports (ℕ × ℕ)
chips = record {
  inb = λ port w. (masks_of w port, w);
  outb = write_mask;
  insw = λ port count w. ([], w);
  outsw = λ port bytes w. w;
}

chips-KeepsMasks : KeepsMasks chips masks_of
chips-KeepsMasks = record {
  byte = λ w port. omega arith;
  read = λ w irq. refl;
  undisturbed = λ w irq port. refl;
  written = λ w irq v lt. elim (Bool-cases (ltb irq 8)) [
    | inl low ↦ rw low (omega arith)
    | inr high ↦ rw high (omega arith)
  ];
  other = λ w irq port v differ. elim (Bool-cases (ltb irq 8)) [
    | inl low ↦
        let away : (port == master_data) ≡ false =
          eq_false (port == master_data) (λ e. differ (rw low (sym (==→eq port master_data e)))) in
        rw (low, away) refl
    | inr high ↦
        let away : (port == slave_data) ≡ false =
          eq_false (port == slave_data) (λ e. differ (rw high (sym (==→eq port slave_data e)))) in
        rw (high, away) refl
  ];
}

-- The keyboard's line is turned on, and the timer's stays off.
mask_keyboard : mask chips 1 false (0xfb, 0xff) ≡ (0xf9, 0xff)
unfolding mask
mask_keyboard = refl

mask-Line_example :
    is_enabled chips masks_of (mask chips 1 false (0xfb, 0xff)) 9
    ≡ (if 1 == 9 then not false else is_enabled chips masks_of (0xfb, 0xff) 9)
mask-Line_example =
    mask-Line chips masks_of (0xfb, 0xff) 1 9 false chips-KeepsMasks (omega arith) (omega arith)
