-- ===== src/FaultSource/Held.antt =====
-- A failed or held channel of `src/drivers/fault_injecting_source.cpp` over a sequence of frames.
use flight_telemetry.Prelude.{◌≡◌, true, ◌||◌}
use flight_telemetry.Float.{Float}
use flight_telemetry.Double.{DoubleOps}
use flight_telemetry.Event.{Channel}
use flight_telemetry.FaultSource.{FaultInjectingSource}
use flight_telemetry.FaultSource.Channels.{AreQuiet}
use flight_telemetry.FaultSource.Judged.{fails, holds_values, Judged}

module _ (ops : DoubleOps) where
  -- A channel that fails or is held, and no mode of a field.
  abbrev pub IsStuck : Channel → FaultInjectingSource → Type 0
  IsStuck c s = (fails c s || holds_values c s ≡ true) × AreQuiet s × (s.have_last_good ≡ true)
