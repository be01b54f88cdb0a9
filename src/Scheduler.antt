-- ===== src/Scheduler.antt =====
-- `src/timing/fixed_rate_scheduler.cpp` and `src/timing/fixed_rate_scheduler.h`. What the clock answers is
-- an argument: `now_ns` on entry and after the sleep. The numbers of 64 bits wrap.
pub mod Grid
use flight_telemetry.Prelude.{
  ℕ, ◌+◌, ◌-◌, ◌*◌, ◌/◌, ◌%◌, ◌^◌, Bool, true, false, ltb, leb, if◌then◌else◌, ℤ, pos, negsuc,
}

abbrev pub wrap : ℕ → ℕ
wrap x = x % 2 ^ 64

-- The difference of two `uint64_t` as an `int64_t`; the source subtracts the casts, which is the same
-- number where it does not overflow.
abbrev pub signed_difference : ℕ → ℕ → ℤ
signed_difference a b =
    let d = wrap (a + 2 ^ 64 - b) in if ltb d (2 ^ 63) then pos d else negsuc (2 ^ 64 - 1 - d)

pub record CycleTiming : Type 0 where
  pub cycle : ℕ
  pub scheduled_ns : ℕ
  pub actual_ns : ℕ
  pub jitter_ns : ℤ
  pub missed_cycles : ℕ

pub record FixedRateScheduler : Type 0 where
  pub period_ns : ℕ
  pub next_deadline_ns : ℕ
  pub cycle : ℕ
  pub started : Bool

unfoldable pub scheduler_init : ℕ → FixedRateScheduler
scheduler_init period_ns = record {
  period_ns = period_ns;
  next_deadline_ns = 0;
  cycle = 0;
  started = false;
}

unfoldable pub start : ℕ → FixedRateScheduler → FixedRateScheduler
start now_ns s = record s { next_deadline_ns = wrap (now_ns + s.period_ns); started = true }

-- The whole periods that have passed since the deadline, if it is a period or more ago. A period of zero,
-- by which the source would divide, gives none.
unfoldable pub missed_by : ℕ → FixedRateScheduler → ℕ
missed_by now_ns s =
    if leb (wrap (s.next_deadline_ns + s.period_ns)) now_ns
    then wrap (now_ns + 2 ^ 64 - s.next_deadline_ns) / s.period_ns
    else 0

unfoldable pub timed_cycle : ℕ → ℕ → FixedRateScheduler → CycleTiming × FixedRateScheduler
timed_cycle now_ns actual_ns s =
    let missed = missed_by now_ns s in
    let deadline = wrap (s.next_deadline_ns + wrap (missed * s.period_ns)) in
    (
      record {
        cycle = s.cycle;
        scheduled_ns = deadline;
        actual_ns = actual_ns;
        jitter_ns = signed_difference actual_ns deadline;
        missed_cycles = missed;
      },
      record s { next_deadline_ns = wrap (deadline + s.period_ns); cycle = wrap (s.cycle + 1) },
    )

-- `start_ns` is what the clock answers in `start`, if that is called.
unfoldable pub wait_for_next_cycle :
    ℕ → ℕ → ℕ → FixedRateScheduler → CycleTiming × FixedRateScheduler
wait_for_next_cycle start_ns now_ns actual_ns s =
    timed_cycle now_ns actual_ns (if s.started then s else start start_ns s)
