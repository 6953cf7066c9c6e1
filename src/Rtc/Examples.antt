-- ===== src/Rtc/Examples.antt =====
-- kernel/rtc.c on no clock, and on one that counts.
use waltex.Base.{
  ◌==◌, if◌then◌else◌, ℕ, ◌+◌, ◌-◌, ◌%◌, ◌<◌, ◌≡◌, refl, Bool, true, false, not, none, some, [],
  arith,
}
use waltex.Ports.{Ports}
use waltex.Rtc.{rtc_max_polls, wait_second_change, update_in_progress, seconds_raw, cmos_read}
use waltex.Rtc.Polls.{wait_second_change-Watched, Watched, settled, EndsUpdates}
use waltex.Rtc.Stuck.{wait_second_change-stuck}

abbrev no_chips : Ports ℕ
no_chips = record {
  inb = λ port w. (0xff, w);
  outb = λ port v w. w;
  insw = λ port count w. ([], w);
  outsw = λ port bytes w. w;
}

wait_second_change-stuck_example : wait_second_change no_chips 1000000 0 ≡ none
wait_second_change-stuck_example = wait_second_change-stuck no_chips (λ port w. refl) 1000000 0

-- The register that is chosen, and a clock in which every read of the seconds is a second later, and
-- an update never takes place.
abbrev clock_read : ℕ → ℕ × ℕ → ℕ × (ℕ × ℕ)
clock_read port (reg, seconds) =
    if reg == 0x0a then (0, (reg, seconds)) else (seconds % 60, (reg, seconds + 1))

abbrev clock : Ports (ℕ × ℕ)
clock = record {
  inb = clock_read;
  outb = λ port v w. (v, w.1);
  insw = λ port count w. ([], w);
  outsw = λ port bytes w. w;
}

changes_soon : wait_second_change clock 1 (0, 58) ≡ some (true, (0, 60))
unfolding wait_second_change seconds_raw update_in_progress cmos_read
changes_soon = refl

-- A clock that is updated before each of its seconds: one read of the status finds that in progress.
abbrev busy_read : ℕ → ℕ × (Bool × ℕ) → ℕ × (ℕ × (Bool × ℕ))
busy_read port (reg, (busy, seconds)) =
    if reg == 0x0a
    then (if busy then 0x80 else 0, (reg, (false, seconds)))
    else (seconds % 60, (reg, (true, seconds + 1)))

abbrev busy_clock : Ports (ℕ × (Bool × ℕ))
busy_clock = record {
  inb = busy_read;
  outb = λ port v w. (v, w.1);
  insw = λ port count w. ([], w);
  outsw = λ port bytes w. w;
}

abbrev busy_left : ℕ × (Bool × ℕ) → ℕ
busy_left (reg, (busy, seconds)) = if busy then 1 else 0

busy_clock-EndsUpdates : EndsUpdates busy_clock busy_left 2
unfolding update_in_progress cmos_read
busy_clock-EndsUpdates = record { short = short; status = status; shorter = shorter }
  where
    short : (w : ℕ × (Bool × ℕ)) → busy_left w < 2
    short (reg, (true, seconds)) = omega arith
    short (reg, (false, seconds)) = omega arith

    status : (w : ℕ × (Bool × ℕ)) → (update_in_progress busy_clock w).0 ≡ not (busy_left w == 0)
    status (reg, (true, seconds)) = refl
    status (reg, (false, seconds)) = refl

    shorter : (w : ℕ × (Bool × ℕ)) → busy_left (update_in_progress busy_clock w).1 ≡ busy_left w - 1
    shorter (reg, (true, seconds)) = refl
    shorter (reg, (false, seconds)) = refl

wait_second_change-Watched_example :
    (r : Bool × (ℕ × (Bool × ℕ))) × (wait_second_change busy_clock 2 (0, (true, 58)) ≡ some r)
    × Watched busy_clock busy_left
        (settled busy_clock busy_left (0, (true, 58))).0
        rtc_max_polls
        (settled busy_clock busy_left (0, (true, 58))).1
        r
wait_second_change-Watched_example =
    wait_second_change-Watched busy_clock busy_left 2 busy_clock-EndsUpdates (0, (true, 58))
