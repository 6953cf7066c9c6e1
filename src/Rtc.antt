-- ===== src/Rtc.antt =====
-- kernel/rtc.c, include/rtc.h: the clock of the CMOS. The loop of rtc_seconds_raw has no bound in the
-- source: `fuel` is the rounds that it is given, and `none` is that it is still running.
pub mod Stuck
pub mod Polls
mod Examples
use waltex.Base.{
  ◌==◌, if◌then◌else◌, ℕ, zero, suc, bit_and, Bool, true, false, not, Option, none, some,
}
use waltex.Ports.{Ports}

-- RTC_MAX_POLLS
abbrev pub rtc_max_polls : ℕ
rtc_max_polls = 8000000

module _ {W : Type 0} (ports : Ports W) where
  -- cmos_read. CMOS_INDEX is 0x70, CMOS_DATA is 0x71.
  unfoldable pub cmos_read : ℕ → W → ℕ × W
  cmos_read reg w = ports.inb 0x71 (ports.outb 0x70 reg w)

  -- update_in_progress. RTC_REG_STATUS_A is 0x0a, RTC_STATUS_A_UIP is 0x80.
  unfoldable pub update_in_progress : W → Bool × W
  unfolding cmos_read
  update_in_progress w = let (status, w') = cmos_read 0x0a w in (not (bit_and status 0x80 == 0), w')

  -- rtc_seconds_raw. RTC_REG_SECONDS is 0.
  unfoldable pub seconds_raw : ℕ → W → Option (ℕ × W)
  unfolding update_in_progress
  seconds_raw zero w = none
  seconds_raw (suc fuel) w =
      let (busy, w') = update_in_progress w in
      let again = seconds_raw fuel w' in if busy then again else some (cmos_read 0x00 w')

  -- The loop of rtc_wait_second_change, with `polls` reads left: whether the second changed.
  unfoldable pub poll_loop : ℕ → ℕ → ℕ → W → Option (Bool × W)
  unfolding seconds_raw
  poll_loop fuel start zero w = some (false, w)
  poll_loop fuel start (suc polls) w = elim (seconds_raw fuel w) [
    | none ↦ none
    | some (second, w') ↦
        let rest = poll_loop fuel start polls w' in
        if not (second == start) then some (true, w') else rest
  ]

  -- rtc_wait_second_change
  unfoldable pub wait_second_change : ℕ → W → Option (Bool × W)
  unfolding poll_loop
  wait_second_change fuel w = elim (seconds_raw fuel w) [
    | none ↦ none
    | some (start, w') ↦ poll_loop fuel start rtc_max_polls w'
  ]
