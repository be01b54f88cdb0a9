-- ===== src/Scheduler/Grid.antt =====
-- The deadline grid of `src/timing/fixed_rate_scheduler.cpp`.
use flight_telemetry.Prelude.{
  ℕ, ◌+◌, ◌-◌, ◌*◌, ◌/◌, ◌^◌, ◌≡◌, ◌≤◌, ◌<◌, ◌⊎◌, inl, inr, refl, true, Bool-cases, leb, ltb,
  ltb→lt, arith,
}
use native.Mathlib.Nat.{div-add-mod', mod-lt}
use flight_telemetry.Scheduler.{
  FixedRateScheduler, CycleTiming, wait_for_next_cycle, timed_cycle, missed_by, wrap,
}

-- What one wait promises of a scheduler whose next deadline is `deadline`.
pub record OnGrid (deadline period now : ℕ) (t : CycleTiming) (s : FixedRateScheduler)
    : Type 0 where
  pub grid : t.scheduled_ns ≡ deadline + t.missed_cycles * period
  pub next : s.next_deadline_ns ≡ t.scheduled_ns + period
  pub caught_up : now < t.scheduled_ns + period
  pub no_early_skip : (t.missed_cycles ≡ 0) ⊎ (t.scheduled_ns ≤ now)

-- The quotient and what it leaves.
quotient : (d p : ℕ) → 0 < p → (d / p * p ≤ d) × (d < d / p * p + p)
quotient d p z =
    let split = div-add-mod' d p in
    let small = mod-lt d z in (omega (arith, split, small), omega (arith, split, small))

missed-quotient :
    (now : ℕ) (s : FixedRateScheduler)
    → 0 < s.period_ns
    → s.next_deadline_ns + s.period_ns ≤ now
    → now < 2 ^ 64
    → missed_by now s ≡ (now - s.next_deadline_ns) / s.period_ns
unfolding missed_by
missed-quotient now s z late small =
    let apart : wrap (now + 2 ^ 64 - s.next_deadline_ns) ≡ now - s.next_deadline_ns = omega arith in
    let tested : leb (wrap (s.next_deadline_ns + s.period_ns)) now ≡ true = ground arith in
    rw (tested, apart) refl

missed_late :
    (now : ℕ) (s : FixedRateScheduler)
    → 0 < s.period_ns
    → s.next_deadline_ns + s.period_ns ≤ now
    → now < 2 ^ 64
    → let m = missed_by now s in
      (s.next_deadline_ns + m * s.period_ns ≤ now)
      × (now < s.next_deadline_ns + m * s.period_ns + s.period_ns)
missed_late now s z late small =
    let (below, above) = quotient (now - s.next_deadline_ns) s.period_ns z in
    rw (missed-quotient now s z late small) (omega (arith, below), omega (arith, above))

missed_on_time :
    (now : ℕ) (s : FixedRateScheduler)
    → now < s.next_deadline_ns + s.period_ns
    → s.next_deadline_ns + s.period_ns < 2 ^ 64
    → missed_by now s ≡ 0
unfolding missed_by
missed_on_time now s h small = ground arith

-- A wait from a deadline that is still to come, or less than a period ago.
on_time :
    (now actual : ℕ) (s : FixedRateScheduler)
    → now < s.next_deadline_ns + s.period_ns
    → s.next_deadline_ns + s.period_ns < 2 ^ 64
    → let (t, s') = timed_cycle now actual s in OnGrid s.next_deadline_ns s.period_ns now t s'
unfolding timed_cycle
on_time now actual s h small =
    let none_missed = missed_on_time now s h small in
    rw none_missed (record {
      grid = omega arith;
      next = omega arith;
      caught_up = omega (arith, h);
      no_early_skip = inl refl;
    })

-- A wait from a deadline a period or more ago.
overrun :
    (now actual : ℕ) (s : FixedRateScheduler)
    → 0 < s.period_ns
    → s.next_deadline_ns + s.period_ns ≤ now
    → now + s.period_ns < 2 ^ 64
    → let (t, s') = timed_cycle now actual s in OnGrid s.next_deadline_ns s.period_ns now t s'
unfolding timed_cycle
overrun now actual s z late small =
    let (below, above) = missed_late now s z late (omega (arith, small)) in
    let m = missed_by now s in
    let deadline : wrap (s.next_deadline_ns + wrap (m * s.period_ns))
        ≡ s.next_deadline_ns + m * s.period_ns =
      omega (arith, below, small) in
    record {
      grid = deadline;
      next = omega (arith, below, small, deadline);
      caught_up = omega (arith, above, deadline);
      no_early_skip = inr (omega (arith, below, deadline));
    }

-- A started scheduler with a period that is not zero stays on its grid, while its numbers stay below 2^64:
-- a wait is for the next deadline moved on by the whole periods missed, the deadline after it is one
-- period on, that one is still to come, and periods are skipped only up to a deadline already passed.
pub wait_for_next_cycle-OnGrid :
    (start_ns now actual : ℕ) (s : FixedRateScheduler)
    → s.started ≡ true
    → 0 < s.period_ns
    → s.next_deadline_ns + s.period_ns < 2 ^ 64
    → now + s.period_ns < 2 ^ 64
    → let (t, s') = wait_for_next_cycle start_ns now actual s in
      OnGrid s.next_deadline_ns s.period_ns now t s'
unfolding wait_for_next_cycle
wait_for_next_cycle-OnGrid start_ns now actual s e z small_deadline small_now =
    simp (e) (elim (Bool-cases (ltb now (s.next_deadline_ns + s.period_ns))) [
      | inl h ↦ on_time now actual s (ltb→lt _ _ h) small_deadline
      | inr h ↦ overrun now actual s z (ground arith) small_now
    ])
