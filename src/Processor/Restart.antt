-- ===== src/Processor/Restart.antt =====
-- The restart on a new vehicle in `src/processing/processor.cpp`.
use flight_telemetry.Prelude.{
  ℕ, ◌≡◌, refl, true, arith, none, inl, inr, Bool-cases, Option-cases, ◌∙◌, ap,
}
use flight_telemetry.Float.{FloatOps}
use flight_telemetry.Frame.{TelemetryFrame, has_flag, new_vehicle}
use flight_telemetry.Processor.{
  TelemetryProcessor, processor_init, begin_frame, take_baro, take_imu, take_altitude, advance,
  process, predicted, measured, imu_interval, baro_fresh, imu_fresh,
}

-- Nothing but the previous timestamp, the tuning and the timeout is left of the state.
begin_frame-new :
    (p : TelemetryProcessor) (raw : TelemetryFrame)
    → has_flag raw new_vehicle ≡ true
    → begin_frame p raw ≡ record (processor_init p.tuning p.imu_timeout_ms) {
      previous_timestamp_ms = p.previous_timestamp_ms;
    }
unfolding begin_frame processor_init
begin_frame-new p raw e = rw e refl

abbrev at_time : ℕ → TelemetryProcessor → TelemetryProcessor
at_time t p = record p { previous_timestamp_ms = t }

module _ (ops : FloatOps) where
  take_baro-at_time :
      (t : ℕ) (p : TelemetryProcessor) (raw : TelemetryFrame)
      → take_baro ops (at_time t p) raw ≡ at_time t (take_baro ops p raw)
  unfolding take_baro
  take_baro-at_time t p raw = elim (Bool-cases (baro_fresh raw)) [
    | inl e ↦ rw e refl
    | inr e ↦ rw e refl
  ]

  take_imu-at_time :
      (t : ℕ) (p : TelemetryProcessor) (raw : TelemetryFrame)
      → take_imu ops (at_time t p) raw ≡ at_time t (take_imu ops p raw)
  unfolding take_imu imu_interval
  take_imu-at_time t p raw = elim (Bool-cases (imu_fresh raw)) [
    | inl e ↦ rw e refl
    | inr e ↦ rw e refl
  ]

  -- Without a filter the previous timestamp is not read.
  predicted-at_time :
      (t : ℕ) (p : TelemetryProcessor) (raw : TelemetryFrame)
      → p.altitude_filter ≡ none
      → predicted ops (at_time t p) raw ≡ predicted ops p raw
  unfolding predicted
  predicted-at_time t p raw e = ground arith

  take_altitude-at_time :
      (t u : ℕ) (p : TelemetryProcessor) (raw : TelemetryFrame)
      → p.altitude_filter ≡ none
      → at_time u (take_altitude ops (at_time t p) raw) ≡ at_time u (take_altitude ops p raw)
  unfolding take_altitude measured
  take_altitude-at_time t u p raw e =
      rw (predicted-at_time t p raw e, take_altitude)
        (elim (Option-cases (predicted ops p raw)) [
          | inl f ↦ rw (f, take_altitude) refl
          | inr (k, f) ↦ rw (f, take_altitude) refl
        ])

  take_baro-filter :
      (p : TelemetryProcessor) (raw : TelemetryFrame)
      → (take_baro ops p raw).altitude_filter ≡ p.altitude_filter
  unfolding take_baro
  take_baro-filter p raw = ground arith

  take_imu-filter :
      (p : TelemetryProcessor) (raw : TelemetryFrame)
      → (take_imu ops p raw).altitude_filter ≡ p.altitude_filter
  unfolding take_imu
  take_imu-filter p raw = ground arith

  -- `process` after `begin_frame`.
  steps : TelemetryFrame → TelemetryProcessor → TelemetryProcessor
  steps raw p =
      at_time raw.timestamp_ms (take_altitude ops (take_imu ops (take_baro ops p raw) raw) raw)

  steps-at_time :
      (t : ℕ) (p : TelemetryProcessor) (raw : TelemetryFrame)
      → p.altitude_filter ≡ none
      → steps raw (at_time t p) ≡ steps raw p
  unfolding steps
  steps-at_time t p raw e =
      rw (take_baro-at_time t p raw, take_imu-at_time t (take_baro ops p raw) raw)
        (take_altitude-at_time t raw.timestamp_ms (take_imu ops (take_baro ops p raw) raw) raw
          (take_imu-filter _ raw ∙ take_baro-filter p raw ∙ e))

  advance-steps :
      (p : TelemetryProcessor) (raw : TelemetryFrame)
      → advance ops p raw ≡ steps raw (begin_frame p raw)
  unfolding advance steps
  advance-steps p raw = refl

  advance-new :
      (p : TelemetryProcessor) (raw : TelemetryFrame)
      → has_flag raw new_vehicle ≡ true
      → advance ops p raw ≡ steps raw (processor_init p.tuning p.imu_timeout_ms)
  unfolding processor_init
  advance-new p raw e =
      advance-steps p raw
      ∙ ap (steps raw) (begin_frame-new p raw e)
      ∙ steps-at_time p.previous_timestamp_ms (processor_init p.tuning p.imu_timeout_ms) raw refl

  -- A frame flagged as a new vehicle's first leaves the same output and the same state whatever came
  -- before it: those of a processor just built with the same tuning and timeout.
  pub process-new_vehicle :
      (p : TelemetryProcessor) (raw : TelemetryFrame)
      → has_flag raw new_vehicle ≡ true
      → process ops p raw ≡ process ops (processor_init p.tuning p.imu_timeout_ms) raw
  unfolding process processor_init
  process-new_vehicle p raw e =
      rw (advance-new p raw e, advance-new (processor_init p.tuning p.imu_timeout_ms) raw e) refl
