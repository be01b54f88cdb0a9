-- ===== src/Examples/Timing.antt =====
-- A run of `src/timing/fixed_rate_scheduler.cpp`.
use flight_telemetry.Prelude.{true, refl, arith}
use flight_telemetry.Scheduler.{FixedRateScheduler, wait_for_next_cycle}
use flight_telemetry.Scheduler.Grid.{OnGrid, wait_for_next_cycle-OnGrid}

-- 10 Hz, with the next deadline at one second.
abbrev ten_hertz : FixedRateScheduler
ten_hertz = record {
  period_ns = 100_000_000;
  next_deadline_ns = 1_000_000_000;
  cycle = 9;
  started = true;
}

-- Two periods and a half late.
wait_for_next_cycle-OnGrid_example :
    let (t, s') = wait_for_next_cycle 0 1_250_000_000 1_250_000_100 ten_hertz in
    OnGrid 1_000_000_000 100_000_000 1_250_000_000 t s'
wait_for_next_cycle-OnGrid_example =
    wait_for_next_cycle-OnGrid 0 1_250_000_000 1_250_000_100 ten_hertz refl (omega arith)
      (omega arith) (omega arith)
