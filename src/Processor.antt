-- ===== src/Processor.antt =====
-- `src/processing/processor.cpp` and `src/processing/processor.h`: one lane of the pipeline. `process` is
-- the composition of its steps, in the source's order; each computed field is read off the state after
-- them, which no later step changes.
pub mod Seeding
pub mod Verdicts
pub mod Freshness
pub mod Restart
use flight_telemetry.Prelude.{
  ℕ, Bool, true, false, not, ◌&&◌, ◌||◌, Option, none, some, ltb, if◌then◌else◌,
}
use flight_telemetry.Float.{Float, FloatOps, of_uint}
use flight_telemetry.Frame.{
  TelemetryFrame, Validity, nominal, no_computed_data, failure_warning, normal, status_eq,
  new_vehicle, has_flag,
}
use flight_telemetry.Detector.State.{elapsed_ms}
use flight_telemetry.Kalman
use flight_telemetry.Kalman.{KalmanFilter1D, kalman_filter}
use flight_telemetry.Attitude
use flight_telemetry.Attitude.{ComplementaryFilter, complementary_filter, ImuSample}
use flight_telemetry.Altitude.{pressure_to_altitude}

pub record ProcessorConfig : Type 0 where
  pub baro_measurement_variance_m2 : Float
  pub gps_measurement_variance_m2 : Float
  pub initial_velocity_variance : Float
  pub accel_noise_variance : Float
  pub complementary_alpha : Float
  pub sea_level_pressure_hpa : Float

-- The defaults, as floats.
abbrev pub default_tuning : ProcessorConfig
default_tuning = record {
  baro_measurement_variance_m2 = 0x3d61_b08a;
  gps_measurement_variance_m2 = 0x41c8_0000;
  initial_velocity_variance = 0x3dcc_cccd;
  accel_noise_variance = 0x3f80_0000;
  complementary_alpha = 0x3f7a_e148;
  sea_level_pressure_hpa = 0x447d_5000;
}

pub record TelemetryProcessor : Type 0 where
  pub tuning : ProcessorConfig
  pub altitude_filter : Option KalmanFilter1D
  pub attitude_filter : ComplementaryFilter
  pub previous_timestamp_ms : ℕ
  pub imu_last_fresh_ms : Option ℕ
  pub imu_timeout_ms : ℕ
  pub baro_ever_fresh : Bool
  pub gps_ever_fresh : Bool
  pub attitude_ever_seeded : Bool
  pub last_baro_altitude_m : Float

unfoldable pub processor_init : ProcessorConfig → ℕ → TelemetryProcessor
processor_init tuning imu_timeout_ms = record {
  tuning = tuning;
  altitude_filter = none;
  attitude_filter = complementary_filter tuning.complementary_alpha;
  previous_timestamp_ms = 0;
  imu_last_fresh_ms = none;
  imu_timeout_ms = imu_timeout_ms;
  baro_ever_fresh = false;
  gps_ever_fresh = false;
  attitude_ever_seeded = false;
  last_baro_altitude_m = 0;
}

-- The first frame of a new vehicle discards every estimate.
unfoldable pub begin_frame : TelemetryProcessor → TelemetryFrame → TelemetryProcessor
begin_frame p raw =
    if has_flag raw new_vehicle
    then record p {
      altitude_filter = none;
      attitude_filter = complementary_filter p.tuning.complementary_alpha;
      imu_last_fresh_ms = none;
      last_baro_altitude_m = 0;
      baro_ever_fresh = false;
      gps_ever_fresh = false;
      attitude_ever_seeded = false;
    }
    else p

abbrev pub baro_fresh : TelemetryFrame → Bool
baro_fresh raw = status_eq raw.baro_status nominal && raw.baro_read_ok

abbrev pub imu_fresh : TelemetryFrame → Bool
imu_fresh raw = status_eq raw.imu_status nominal && raw.imu_read_ok

abbrev pub gps_fresh : TelemetryFrame → Bool
gps_fresh raw = status_eq raw.gps_status nominal && raw.gps_read_ok

abbrev pub sample : TelemetryFrame → ImuSample
sample raw = record {
  accel_x = raw.accel_x;
  accel_y = raw.accel_y;
  accel_z = raw.accel_z;
  gyro_x = raw.gyro_x;
  gyro_y = raw.gyro_y;
  gyro_z = raw.gyro_z;
}

module _ (ops : FloatOps) where
  -- Milliseconds to seconds: 1000.0 is 0x447a0000.
  unfoldable pub seconds : ℕ → Float
  seconds ms = ops.div (of_uint ms) 0x447a_0000

  unfoldable pub take_baro : TelemetryProcessor → TelemetryFrame → TelemetryProcessor
  take_baro p raw =
      if baro_fresh raw
      then record p {
        last_baro_altitude_m =
            pressure_to_altitude ops raw.pressure_hpa p.tuning.sea_level_pressure_hpa;
        baro_ever_fresh = true;
      }
      else p

  -- The filter and the interval for a sample: an outage longer than the timeout drops the seed.
  unfoldable pub imu_interval : TelemetryProcessor → TelemetryFrame → ComplementaryFilter × Float
  imu_interval p raw = elim p.imu_last_fresh_ms [
    | none ↦ (p.attitude_filter, 0)
    | some last ↦
        let gap_ms = elapsed_ms raw.timestamp_ms last in
        (
          if ltb p.imu_timeout_ms gap_ms
              then Attitude.reset p.attitude_filter
              else p.attitude_filter,
          seconds gap_ms,
        )
  ]

  unfoldable pub take_imu : TelemetryProcessor → TelemetryFrame → TelemetryProcessor
  take_imu p raw =
      let (filter, imu_dt) = imu_interval p raw in
      let filter' = Attitude.update ops filter (sample raw) imu_dt in
      if imu_fresh raw
      then record p {
        attitude_filter = filter';
        imu_last_fresh_ms = some raw.timestamp_ms;
        attitude_ever_seeded = p.attitude_ever_seeded || filter'.initialized;
      }
      else p

  -- The altitude filter before this frame's measurements: predicted, or born, or still absent.
  unfoldable pub predicted : TelemetryProcessor → TelemetryFrame → Option KalmanFilter1D
  predicted p raw = elim p.altitude_filter [
    | some k ↦
        some (Kalman.predict ops k (seconds (elapsed_ms raw.timestamp_ms p.previous_timestamp_ms)))
    | none ↦
        if baro_fresh raw
        then some (
            kalman_filter p.last_baro_altitude_m 0 p.tuning.baro_measurement_variance_m2
              p.tuning.initial_velocity_variance p.tuning.accel_noise_variance)
        else if gps_fresh raw
        then some (
            kalman_filter raw.gps_altitude_m 0 p.tuning.gps_measurement_variance_m2
              p.tuning.initial_velocity_variance p.tuning.accel_noise_variance)
        else none
  ]

  -- The measurement updates, the barometer's first.
  unfoldable pub measured : TelemetryProcessor → TelemetryFrame → KalmanFilter1D → KalmanFilter1D
  measured p raw k =
      let k' =
        (if baro_fresh raw
          then Kalman.update ops k p.last_baro_altitude_m p.tuning.baro_measurement_variance_m2
          else k) in
      if gps_fresh raw
      then Kalman.update ops k' raw.gps_altitude_m p.tuning.gps_measurement_variance_m2
      else k'

  unfoldable pub take_altitude : TelemetryProcessor → TelemetryFrame → TelemetryProcessor
  take_altitude p raw = elim (predicted p raw) [
    | none ↦ p
    | some k ↦ record p {
      altitude_filter = some (measured p raw k);
      gps_ever_fresh = p.gps_ever_fresh || gps_fresh raw;
    }
  ]

  -- The state after a frame.
  unfoldable pub advance : TelemetryProcessor → TelemetryFrame → TelemetryProcessor
  advance p raw = record (take_altitude (take_imu (take_baro (begin_frame p raw) raw) raw) raw) {
    previous_timestamp_ms = raw.timestamp_ms;
  }

  -- The five computed values; without a filter the two fused fields stay the raw frame's.
  unfoldable pub compute : TelemetryProcessor → TelemetryFrame → TelemetryFrame
  compute p raw = record raw {
    baro_altitude_m = p.last_baro_altitude_m;
    pitch_deg = Attitude.pitch_deg ops p.attitude_filter;
    roll_deg = Attitude.roll_deg ops p.attitude_filter;
    fused_altitude_m = elim p.altitude_filter [
      | none ↦ raw.fused_altitude_m
      | some k ↦ k.altitude_m
    ];
    vertical_speed_mps = elim p.altitude_filter [
      | none ↦ raw.vertical_speed_mps
      | some k ↦ k.velocity_mps
    ];
  }

unfoldable pub baro_verdict : TelemetryProcessor → TelemetryFrame → Validity
baro_verdict p out =
    if not p.baro_ever_fresh
    then no_computed_data
    else if status_eq out.baro_status nominal
    then normal
    else failure_warning

unfoldable pub attitude_verdict : TelemetryProcessor → TelemetryFrame → Validity
attitude_verdict p out =
    if not p.attitude_ever_seeded
    then no_computed_data
    else if not (status_eq out.imu_status nominal) || not p.attitude_filter.initialized
    then failure_warning
    else normal

unfoldable pub fused_verdict : TelemetryProcessor → TelemetryFrame → Validity
fused_verdict p out =
    let baro_contributes = p.baro_ever_fresh && status_eq out.baro_status nominal in
    let gps_contributes = p.gps_ever_fresh && status_eq out.gps_status nominal in
    elim p.altitude_filter [
      | none ↦ no_computed_data
      | some k ↦ if not baro_contributes && not gps_contributes then failure_warning else normal
    ]

unfoldable pub judge : TelemetryProcessor → TelemetryFrame → TelemetryFrame
judge p out = record out {
  baro_altitude_validity = baro_verdict p out;
  pitch_validity = attitude_verdict p out;
  roll_validity = attitude_verdict p out;
  fused_altitude_validity = fused_verdict p out;
  vertical_speed_validity = fused_verdict p out;
}

unfoldable pub process :
    FloatOps → TelemetryProcessor → TelemetryFrame → TelemetryFrame × TelemetryProcessor
process ops p raw = let p' = advance ops p raw in (judge p' (compute ops p' raw), p')
