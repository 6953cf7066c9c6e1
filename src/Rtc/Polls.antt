-- ===== src/Rtc/Polls.antt =====
-- kernel/rtc.c on a clock whose updates end.
use waltex.Base.{
  ◌==◌, ==→eq, Bool-cases, ℕ, zero, suc, ◌+◌, ◌-◌, ◌<◌, ◌≡◌, refl, ◌≢◌, inl, inr, Bool, true, false,
  not, some, arith,
}
use waltex.Ports.{Ports}
use waltex.Rtc.{
  seconds_raw, wait_second_change, update_in_progress, poll_loop, rtc_max_polls, cmos_read,
}

-- What the clock documents: an update lasts for fewer than `bound` reads of the status. `left w` is
-- how many more of them will find it in progress.
pub record EndsUpdates {W : Type 0} (ports : Ports W) (left : W → ℕ) (bound : ℕ) : Type 0 where
  pub short : (w : W) → left w < bound
  pub status : (w : W) → (update_in_progress ports w).0 ≡ not (left w == 0)
  pub shorter : (w : W) → left (update_in_progress ports w).1 ≡ left w - 1

module _ {W : Type 0} (ports : Ports W) (left : W → ℕ) where
  -- The clock after `n` reads of the status.
  pub polled : ℕ → W → W
  polled zero w = w
  polled (suc n) w = polled n (update_in_progress ports w).1

  -- A read of the seconds once the update that is in progress has ended.
  abbrev pub settled : W → ℕ × W
  settled w = cmos_read ports 0 (polled (left w + 1) w)

  -- The clock after `n` such reads, and what the next one gives.
  pub after : ℕ → W → W
  after zero w = w
  after (suc n) w = after n (settled w).1

  abbrev pub second : ℕ → W → ℕ
  second n w = (settled (after n w)).0

  -- What `n` reads that are compared with `start` come to: the clock after all of them where none
  -- differs, or after the first one that does.
  abbrev pub Watched : ℕ → ℕ → W → Bool × W → Type 0
  Watched start n w (false, w') = ((j : ℕ) → j < n → second j w ≡ start) × (w' ≡ after n w)
  Watched start n w (true, w') =
      (k : ℕ) × (k < n)
      × ((j : ℕ) → j < k → second j w ≡ start)
      × (second k w ≢ start)
      × (w' ≡ after (suc k) w)

  Watched-more :
      (start n : ℕ) (w : W) (r : Bool × W)
      → second 0 w ≡ start
      → Watched start n (settled w).1 r
      → Watched start (suc n) w r
  unfolding after
  Watched-more start n w (false, w') same (all, last) = (each, last)
    where
      each : (j : ℕ) → j < suc n → second j w ≡ start
      each zero lt = same
      each (suc j) lt = all j (omega arith)
  Watched-more start n w (true, w') same (k, lt, before, differs, last) =
      (suc k, omega arith, each, differs, last)
    where
      each : (j : ℕ) → j < suc k → second j w ≡ start
      each zero lt = same
      each (suc j) lt = before j (omega arith)

  module _ (bound : ℕ) (ends : EndsUpdates ports left bound) where
    seconds_raw-settled :
        (fuel : ℕ) (w : W) → left w < fuel → seconds_raw ports fuel w ≡ some (settled w)
    unfolding seconds_raw polled
    seconds_raw-settled zero w lt = absurd (omega arith)
    seconds_raw-settled (suc fuel) w lt = elim (Bool-cases (left w == 0)) [
      | inl over ↦
          let none_left : left w + 1 ≡ 1 = ground arith in rw (ends.status w, over, none_left) refl
      | inr busy ↦
          let w' = (update_in_progress ports w).1 in
          let less : left w' + 1 ≡ left w = ground (arith, ends.shorter w) in
          let one_more : left w + 1 ≡ suc (left w' + 1) = omega arith in
          rw (ends.status w, busy, one_more) (seconds_raw-settled fuel w' (omega arith))
    ]

    poll_loop-Watched :
        (start n : ℕ) (w : W)
        → (r : Bool × W) × (poll_loop ports bound start n w ≡ some r) × Watched start n w r
    unfolding poll_loop after
    poll_loop-Watched start zero w = ((false, w), refl, ((λ j lt. absurd (omega arith)), refl))
    poll_loop-Watched start (suc n) w = elim (Bool-cases ((settled w).0 == start)) [
      | inl same ↦
          let (r, e, watched) = poll_loop-Watched start n (settled w).1 in
          (
            r,
            rw (poll_loop, seconds_raw-settled bound w (ends.short w), same) e,
            Watched-more start n w r (==→eq (settled w).0 start same) watched,
          )
      | inr differ ↦ (
        (true, (settled w).1),
        rw (poll_loop, seconds_raw-settled bound w (ends.short w), differ) refl,
        (0, omega arith, (λ j lt. absurd (omega arith)), (λ e. ground arith), refl),
      )
    ]

    -- Where every update of the clock ends within `bound` reads of the status, `bound` rounds of
    -- the loop in rtc_seconds_raw are enough for rtc_wait_second_change to answer. It compares the
    -- seconds, read each time after the update, with the first one: it answers 1 after the first
    -- of 8000000 reads that differs, and 0 after all of them where none does.
    pub wait_second_change-Watched :
        (w : W)
        → (r : Bool × W) × (wait_second_change ports bound w ≡ some r)
          × Watched (settled w).0 rtc_max_polls (settled w).1 r
    unfolding wait_second_change
    wait_second_change-Watched w =
        let (r, e, watched) = poll_loop-Watched (settled w).0 rtc_max_polls (settled w).1 in
        (r, rw (wait_second_change, seconds_raw-settled bound w (ends.short w)) e, watched)
