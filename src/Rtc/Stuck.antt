-- ===== src/Rtc/Stuck.antt =====
-- kernel/rtc.c on a clock that does not answer.
use waltex.Base.{ℕ, zero, suc, ◌≡◌, refl, none}
use waltex.Ports.{Ports}
use waltex.Rtc.{seconds_raw, wait_second_change, update_in_progress, cmos_read}

module _ {W : Type 0} (ports : Ports W)
    (floating : (port : ℕ) (w : W) → (ports.inb port w).0 ≡ 0xff) where
  seconds_raw-stuck : (fuel : ℕ) (w : W) → seconds_raw ports fuel w ≡ none
  unfolding seconds_raw update_in_progress cmos_read
  seconds_raw-stuck zero w = refl
  seconds_raw-stuck (suc fuel) w =
      rw (floating 0x71 (ports.outb 0x70 0x0a w))
        (seconds_raw-stuck fuel (ports.inb 0x71 (ports.outb 0x70 0x0a w)).1)

  -- Where no chip answers and every port reads 0xff, rtc_wait_second_change never returns: however
  -- many rounds it is given, it is still in the loop that waits for the update to end.
  pub wait_second_change-stuck : (fuel : ℕ) (w : W) → wait_second_change ports fuel w ≡ none
  unfolding wait_second_change
  wait_second_change-stuck fuel w = rw (wait_second_change, seconds_raw-stuck fuel w) refl
