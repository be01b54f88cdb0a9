-- ===== src/Examples/Processing.antt =====
-- Runs of `src/processing/processor.cpp`.
use flight_telemetry.Prelude.{◌≡◌, refl, false, ◌∷◌}
use flight_telemetry.Frame.{TelemetryFrame, has_flag, degraded}
use flight_telemetry.Processor.{
  process, processor_init, default_tuning, advance, TelemetryProcessor,
}
use flight_telemetry.Processor.Restart.{process-new_vehicle}
use flight_telemetry.Event.{imu}
use flight_telemetry.Processor.Freshness.{with_reading, advance-stale}
use flight_telemetry.Processor.Verdicts.{
  advance_all, altitude_verdict, estimate_verdict, tilt_verdict, process-verdicts,
}
use flight_telemetry.Examples.Data.{small_ops, reading, readings}

-- A processor two frames into another vehicle's flight.
busy : TelemetryProcessor
busy = advance_all small_ops (processor_init default_tuning 500) readings

abbrev first_frame : TelemetryFrame
first_frame = record (reading 300) { flags = 1 }

process-new_vehicle_example :
    process small_ops busy first_frame
    ≡ process small_ops (processor_init busy.tuning busy.imu_timeout_ms) first_frame
unfolding has_flag
process-new_vehicle_example = process-new_vehicle small_ops busy first_frame refl

-- Nothing fresh and nothing NOMINAL.
abbrev stale : TelemetryFrame
stale = record (reading 300) { baro_read_ok = false; imu_status = degraded; gps_read_ok = false }

advance-stale_example :
    advance small_ops busy (with_reading imu first_frame stale) ≡ advance small_ops busy stale
advance-stale_example = advance-stale small_ops imu busy first_frame stale refl

process-verdicts_example :
    let out =
      (process small_ops
        (advance_all small_ops (processor_init default_tuning 500) readings)
        stale).0 in
    (out.baro_altitude_validity ≡ altitude_verdict (stale ∷ readings) stale)
    × (out.fused_altitude_validity ≡ estimate_verdict (stale ∷ readings) stale)
    × (out.vertical_speed_validity ≡ estimate_verdict (stale ∷ readings) stale)
    × (out.pitch_validity ≡ tilt_verdict small_ops 500 (stale ∷ readings) stale)
    × (out.roll_validity ≡ tilt_verdict small_ops 500 (stale ∷ readings) stale)
process-verdicts_example = process-verdicts small_ops default_tuning 500 readings stale
