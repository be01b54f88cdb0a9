-- ===== src/Processor/Freshness.antt =====
-- The freshness gates of `src/processing/processor.cpp`: a stale or distrusted reading has no effect.
use flight_telemetry.Prelude.{◌≡◌, refl, Bool, false, inl, inr, Option-cases, ap}
use flight_telemetry.Float.{Float, Double, FloatOps}
use flight_telemetry.Frame.{TelemetryFrame, has_flag}
use flight_telemetry.Event.{Channel, baro, imu, gps, voter}
use flight_telemetry.Kalman.{KalmanFilter1D}
use flight_telemetry.Processor.{
  TelemetryProcessor, baro_fresh, imu_fresh, gps_fresh, begin_frame, take_baro, imu_interval,
  take_imu, predicted, measured, take_altitude, advance,
}

-- The frame with other readings of one channel.
abbrev pub with_baro : Float → Float → TelemetryFrame → TelemetryFrame
with_baro pressure temperature raw = record raw {
  pressure_hpa = pressure;
  temperature_c = temperature;
}

abbrev pub with_imu :
    Float → Float → Float → Float → Float → Float → TelemetryFrame → TelemetryFrame
with_imu ax ay az gx gy gz raw = record raw {
  accel_x = ax;
  accel_y = ay;
  accel_z = az;
  gyro_x = gx;
  gyro_y = gy;
  gyro_z = gz;
}

abbrev pub with_gps : Double → Double → Float → Float → Float → TelemetryFrame → TelemetryFrame
with_gps lat lon alt speed course raw = record raw {
  latitude = lat;
  longitude = lon;
  gps_altitude_m = alt;
  ground_speed_mps = speed;
  course_deg = course;
}

module _ (ops : FloatOps) (p : TelemetryProcessor) (raw : TelemetryFrame) where
  -- A barometer reading that is not both NOMINAL and fresh leaves no trace in the lane's state.
  pub advance-stale_baro :
      (pressure temperature : Float)
      → baro_fresh raw ≡ false
      → advance ops p (with_baro pressure temperature raw) ≡ advance ops p raw
  unfolding advance begin_frame take_baro imu_interval take_imu predicted measured take_altitude
      has_flag
  advance-stale_baro pressure temperature e = rw e refl

  -- An IMU sample that is not both NOMINAL and fresh leaves no trace in the lane's state.
  pub advance-stale_imu :
      (ax ay az gx gy gz : Float)
      → imu_fresh raw ≡ false
      → advance ops p (with_imu ax ay az gx gy gz raw) ≡ advance ops p raw
  unfolding advance begin_frame take_baro imu_interval take_imu predicted measured take_altitude
      has_flag
  advance-stale_imu ax ay az gx gy gz e = rw e refl

module _ (ops : FloatOps) where
  predicted-stale_gps :
      (q : TelemetryProcessor) (raw : TelemetryFrame) (lat lon : Double) (alt speed course : Float)
      → gps_fresh raw ≡ false
      → predicted ops q (with_gps lat lon alt speed course raw) ≡ predicted ops q raw
  unfolding predicted
  predicted-stale_gps q raw lat lon alt speed course e = elim (Option-cases q.altitude_filter) [
    | inl f ↦ rw (f, predicted, e) refl
    | inr (k, f) ↦ rw (f, predicted) refl
  ]

  measured-stale_gps :
      (q : TelemetryProcessor) (raw : TelemetryFrame) (lat lon : Double) (alt speed course : Float)
      (k : KalmanFilter1D)
      → gps_fresh raw ≡ false
      → measured ops q (with_gps lat lon alt speed course raw) k ≡ measured ops q raw k
  unfolding measured
  measured-stale_gps q raw lat lon alt speed course k e = rw e refl

  take_altitude-stale_gps :
      (q : TelemetryProcessor) (raw : TelemetryFrame) (lat lon : Double) (alt speed course : Float)
      → gps_fresh raw ≡ false
      → take_altitude ops q (with_gps lat lon alt speed course raw) ≡ take_altitude ops q raw
  unfolding take_altitude
  take_altitude-stale_gps q raw lat lon alt speed course e =
      rw (predicted-stale_gps q raw lat lon alt speed course e, take_altitude)
        (elim (Option-cases (predicted ops q raw)) [
          | inl f ↦ rw (f, take_altitude) refl
          | inr (k, f) ↦
              rw (f, take_altitude, measured-stale_gps q raw lat lon alt speed course k e) refl
        ])

  -- A fix that is not both NOMINAL and fresh leaves no trace in the lane's state.
  pub advance-stale_gps :
      (p : TelemetryProcessor) (raw : TelemetryFrame) (lat lon : Double) (alt speed course : Float)
      → gps_fresh raw ≡ false
      → advance ops p (with_gps lat lon alt speed course raw) ≡ advance ops p raw
  unfolding advance begin_frame take_baro imu_interval take_imu has_flag
  advance-stale_gps p raw lat lon alt speed course e =
      ap (λ (q : TelemetryProcessor). record q { previous_timestamp_ms = raw.timestamp_ms })
        (take_altitude-stale_gps (take_imu ops (take_baro ops (begin_frame p raw) raw) raw) raw lat
          lon alt speed course e)

-- Whether a lane uses a sensor's reading.
abbrev pub is_fresh : Channel → TelemetryFrame → Bool
is_fresh baro f = baro_fresh f
is_fresh imu f = imu_fresh f
is_fresh gps f = gps_fresh f
is_fresh voter f = false

-- The frame with another's reading of a sensor.
abbrev pub with_reading : Channel → TelemetryFrame → TelemetryFrame → TelemetryFrame
with_reading baro f raw = with_baro f.pressure_hpa f.temperature_c raw
with_reading imu f raw = with_imu f.accel_x f.accel_y f.accel_z f.gyro_x f.gyro_y f.gyro_z raw
with_reading gps f raw =
    with_gps f.latitude f.longitude f.gps_altitude_m f.ground_speed_mps f.course_deg raw
with_reading voter f raw = raw

-- A sensor's reading that is not both NOMINAL and fresh leaves no trace in the lane's state: with any
-- other reading of that sensor the state is the same.
pub advance-stale :
    (ops : FloatOps) (c : Channel) (p : TelemetryProcessor) (other raw : TelemetryFrame)
    → is_fresh c raw ≡ false
    → advance ops p (with_reading c other raw) ≡ advance ops p raw
advance-stale ops baro p f raw e = advance-stale_baro ops p raw f.pressure_hpa f.temperature_c e
advance-stale ops imu p f raw e =
    advance-stale_imu ops p raw f.accel_x f.accel_y f.accel_z f.gyro_x f.gyro_y f.gyro_z e
advance-stale ops gps p f raw e =
    advance-stale_gps ops p raw f.latitude f.longitude f.gps_altitude_m f.ground_speed_mps
      f.course_deg e
advance-stale ops voter p f raw e = refl
