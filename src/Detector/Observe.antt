-- ===== src/Detector/Observe.antt =====
-- The observations of `src/processing/fault_detector.cpp`: one channel on one frame.
use flight_telemetry.Prelude.{
  ℕ, Bool, true, false, ◌||◌, Option, none, some, List, [], ◌∷◌, if◌then◌else◌,
}
use flight_telemetry.Float.{Float, Double, FloatOps, float_lt, float_le}
use flight_telemetry.Frame.{TelemetryFrame}
use flight_telemetry.Event.{comm_timeout, stuck, out_of_range}
use flight_telemetry.Detector.State.{
  FaultDetectorConfig, StuckTracker, push, ChannelState, comm_timed_out, Observation, no_fault,
  fault, first_non_finite, Trackers, FaultDetector,
}

-- `Mpu6050::kAccelPositiveRailMps2` and `kAccelNegativeRailMps2`: 32767 and -32768 counts over 16384,
-- times 9.81, in the float arithmetic of the build.
module _ (ops : FloatOps) where
  open ops use {div, mul, widen, narrow}

  abbrev pub accel_positive_rail : Float
  accel_positive_rail = mul (div 0x46ff_fe00 0x4680_0000) 0x411c_f5c3

  abbrev pub accel_negative_rail : Float
  accel_negative_rail = mul (div 0xc700_0000 0x4680_0000) 0x411c_f5c3

  abbrev pub at_a_rail : Float → Bool
  at_a_rail a = float_le accel_positive_rail a || float_le a accel_negative_rail

  unfoldable pub first_saturated : List Float → Option Float
  first_saturated [] = none
  first_saturated (a ∷ as') = if at_a_rail a then some a else first_saturated as'

  -- A fresh barometer reading: finite, then in range, then not stuck.
  unfoldable pub judge_baro :
      FaultDetectorConfig → StuckTracker → TelemetryFrame → Observation × StuckTracker
  judge_baro c tracker raw =
      let (is_stuck, tracker') = push tracker raw.pressure_hpa c.stuck_count in
      elim (first_non_finite (widen raw.pressure_hpa ∷ widen raw.temperature_c ∷ [])) [
        | some bad ↦ (fault true out_of_range (narrow bad), tracker)
        | none ↦
            if float_lt raw.pressure_hpa c.pressure_min_hpa
              || float_lt c.pressure_max_hpa raw.pressure_hpa
            then (fault true out_of_range raw.pressure_hpa, tracker)
            else if float_lt raw.temperature_c c.temperature_min_c
                || float_lt c.temperature_max_c raw.temperature_c
            then (fault true out_of_range raw.temperature_c, tracker)
            else if is_stuck
            then (fault true stuck raw.pressure_hpa, tracker')
            else (no_fault true, tracker')
      ]

  -- The six pushes, all made on every frame, and the first axis to trip.
  unfoldable pub push_axes : ℕ → Trackers → TelemetryFrame → Option Float × Trackers
  push_axes n t raw =
      let (stuck_ax, ax) = push t.ax raw.accel_x n in
      let (stuck_ay, ay) = push t.ay raw.accel_y n in
      let (stuck_az, az) = push t.az raw.accel_z n in
      let (stuck_gx, gx) = push t.gx raw.gyro_x n in
      let (stuck_gy, gy) = push t.gy raw.gyro_y n in
      let (stuck_gz, gz) = push t.gz raw.gyro_z n in
      (
        if stuck_ax
            then some raw.accel_x
            else if stuck_ay
            then some raw.accel_y
            else if stuck_az
            then some raw.accel_z
            else if stuck_gx
            then some raw.gyro_x
            else if stuck_gy
            then some raw.gyro_y
            else if stuck_gz
            then some raw.gyro_z
            else none,
        record { ax = ax; ay = ay; az = az; gx = gx; gy = gy; gz = gz },
      )

  abbrev pub imu_doubles : TelemetryFrame → List Double
  imu_doubles raw =
      widen raw.accel_x
      ∷ widen raw.accel_y
      ∷ widen raw.accel_z
      ∷ widen raw.gyro_x
      ∷ widen raw.gyro_y
      ∷ widen raw.gyro_z
      ∷ []

  abbrev pub stuck_axis : Option Float → Observation
  stuck_axis none = no_fault true
  stuck_axis (some value) = fault true stuck value

  unfoldable pub judge_imu :
      FaultDetectorConfig → Trackers → TelemetryFrame → Observation × Trackers
  judge_imu c axes raw = elim (first_non_finite (imu_doubles raw)) [
    | some bad ↦ (fault true out_of_range (narrow bad), axes)
    | none ↦ elim (first_saturated (raw.accel_x ∷ raw.accel_y ∷ raw.accel_z ∷ [])) [
      | some a ↦ (fault true out_of_range a, axes)
      | none ↦
          let (tripped, axes') = push_axes c.stuck_count axes raw in (stuck_axis tripped, axes')
    ]
  ]

  abbrev pub gps_doubles : TelemetryFrame → List Double
  gps_doubles raw =
      raw.latitude
      ∷ raw.longitude
      ∷ widen raw.gps_altitude_m
      ∷ widen raw.ground_speed_mps
      ∷ widen raw.course_deg
      ∷ []

  unfoldable pub judge_gps : TelemetryFrame → Observation
  judge_gps raw = elim (first_non_finite (gps_doubles raw)) [
    | some bad ↦ fault true out_of_range (narrow bad)
    | none ↦ no_fault true
  ]

  -- Each channel first asks for the timeout, then judges a fresh reading only.
  unfoldable pub observe_baro :
      FaultDetector → TelemetryFrame → ℕ → Observation × ChannelState × StuckTracker
  observe_baro d raw now_ms =
      let (timed_out, elapsed, state) =
        comm_timed_out d.baro_channel raw.baro_read_ok now_ms d.config.i2c_timeout_ms in
      let (obs, tracker) = judge_baro d.config d.baro_pressure raw in
      if timed_out
      then (fault raw.baro_read_ok comm_timeout elapsed, state, d.baro_pressure)
      else if raw.baro_read_ok
      then (obs, state, tracker)
      else (no_fault false, state, d.baro_pressure)

  unfoldable pub observe_imu :
      FaultDetector → TelemetryFrame → ℕ → Observation × ChannelState × Trackers
  observe_imu d raw now_ms =
      let (timed_out, elapsed, state) =
        comm_timed_out d.imu_channel raw.imu_read_ok now_ms d.config.i2c_timeout_ms in
      let (obs, axes) = judge_imu d.config d.imu_axes raw in
      if timed_out
      then (fault raw.imu_read_ok comm_timeout elapsed, state, d.imu_axes)
      else if raw.imu_read_ok
      then (obs, state, axes)
      else (no_fault false, state, d.imu_axes)

  unfoldable pub observe_gps : FaultDetector → TelemetryFrame → ℕ → Observation × ChannelState
  observe_gps d raw now_ms =
      let (timed_out, elapsed, state) =
        comm_timed_out d.gps_channel raw.gps_read_ok now_ms d.config.uart_timeout_ms in
      if timed_out
      then (fault raw.gps_read_ok comm_timeout elapsed, state)
      else if raw.gps_read_ok
      then (judge_gps raw, state)
      else (no_fault false, state)
