-- ===== src/Timer.antt =====
-- kernel/timer.c, include/timer.h: the divisor of the timer chip, and the interrupt that takes the
-- processor away from a task.
pub mod Divisor
mod Examples
use waltex.Base.{ltb, leb, if◌then◌else◌, ℕ, ◌+◌, ◌/◌, ◌%◌, ◌^◌, bit_and, false}
use waltex.Pic.{mask}
use waltex.Ports.{Ports}
use waltex.Task.{Table, schedule}

-- PIT_BASE_FREQ, PIT_DIVISOR_MAX, PIT_HZ_MIN
abbrev pub pit_base_freq : ℕ
pit_base_freq = 1193182

abbrev pub pit_divisor_max : ℕ
pit_divisor_max = 65535

abbrev pub pit_hz_min : ℕ
pit_hz_min = 19

-- pit_divisor, on a uint32_t
unfoldable pub pit_divisor : ℕ → ℕ
pit_divisor hz =
    if ltb hz pit_hz_min
    then pit_divisor_max
    else if leb pit_base_freq hz
    then 1
    else pit_base_freq / hz % 2 ^ 16

-- timer_handler: the ticks, the table of tasks, and the stack pointer of the processor.
unfoldable pub handler : ℕ → Table → ℕ → ℕ × (Table × ℕ)
handler ticks t cpu_esp = ((ticks + 1) % 2 ^ 32, schedule t cpu_esp)

module _ {W : Type 0} (ports : Ports W) where
  -- What timer_init writes to the chips. PIT_CMD is 0x43, PIT_MODE3_CH0 is 0x36, PIT_CH0_DATA is
  -- 0x40.
  unfoldable pub init : ℕ → W → W
  init hz w =
      let divisor = pit_divisor hz in
      let w = ports.outb 0x43 0x36 w in
      let w = ports.outb 0x40 (bit_and divisor 0x00ff) w in
      let w = ports.outb 0x40 (bit_and divisor 0xff00 / 2 ^ 8) w in mask ports 0 false w
