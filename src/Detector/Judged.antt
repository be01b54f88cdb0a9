-- ===== src/Detector/Judged.antt =====
-- What a reading has passed that `judge_baro`, `judge_imu` or `judge_gps` of
-- `src/processing/fault_detector.cpp` finds no fault in, test by test.
use flight_telemetry.Prelude.{
  ℕ, ◌≡◌, true, false, none, arith, Bool-cases, List, [], ◌∷◌, All, inl, inr,
}
use flight_telemetry.Float.{Float, Double, FloatOps, is_finite_double, float_lt, float_le}
use flight_telemetry.Frame.{TelemetryFrame}
use flight_telemetry.Detector.State.{FaultDetector, StuckTracker, Trackers, push, first_non_finite}
use flight_telemetry.Detector.Observe.{
  judge_baro, judge_imu, judge_gps, at_a_rail, imu_doubles, gps_doubles, push_axes, first_saturated,
}

abbrev pub Finite : List Double → Type 0
Finite = All (λ v. is_finite_double v ≡ true)

first_non_finite-Finite : (vs : List Double) → first_non_finite vs ≡ none → Finite vs
unfolding first_non_finite
first_non_finite-Finite [] e = tt
first_non_finite-Finite (v ∷ vs) e = ground (arith, first_non_finite-Finite vs)

module _ (ops : FloatOps) where
  open ops use {widen}

  -- What a barometer reading has passed when it is used.
  pub record BaroPassed (d : FaultDetector) (raw : TelemetryFrame) : Type 0 where
    pub finite : Finite (widen raw.pressure_hpa ∷ widen raw.temperature_c ∷ [])
    pub pressure_low : float_lt raw.pressure_hpa d.config.pressure_min_hpa ≡ false
    pub pressure_high : float_lt d.config.pressure_max_hpa raw.pressure_hpa ≡ false
    pub temperature_low : float_lt raw.temperature_c d.config.temperature_min_c ≡ false
    pub temperature_high : float_lt d.config.temperature_max_c raw.temperature_c ≡ false
    pub moving : (push d.baro_pressure raw.pressure_hpa d.config.stuck_count).0 ≡ false

  pub judge_baro-passed :
      (d : FaultDetector) (raw : TelemetryFrame)
      → (judge_baro ops d.config d.baro_pressure raw).0.faulted ≡ false
      → BaroPassed d raw
  unfolding judge_baro
  judge_baro-passed d raw e = record {
    finite =
        first_non_finite-Finite (widen raw.pressure_hpa ∷ widen raw.temperature_c ∷ [])
          (ground arith);
    pressure_low = ground arith;
    pressure_high = ground arith;
    temperature_low = ground arith;
    temperature_high = ground arith;
    moving = ground arith;
  }

  -- Below the positive rail, 32767 counts of 16384 to the g, and above the negative one, -32768.
  abbrev pub OffTheRails : Float → Type 0
  OffTheRails a =
      (float_le (ops.mul (ops.div 0x46ff_fe00 0x4680_0000) 0x411c_f5c3) a ≡ false)
      × (float_le a (ops.mul (ops.div 0xc700_0000 0x4680_0000) 0x411c_f5c3) ≡ false)

  off_the_rails : (a : Float) → at_a_rail ops a ≡ false → OffTheRails a
  off_the_rails a e = (ground arith, ground arith)

  -- The tracker of an axis does not trip on the value.
  abbrev pub Moving : ℕ → StuckTracker → Float → Type 0
  Moving n tracker v = (push tracker v n).0 ≡ false

  -- What an IMU sample has passed when it is used, axis by axis.
  pub record ImuPassed (n : ℕ) (axes : Trackers) (raw : TelemetryFrame) : Type 0 where
    pub finite : Finite (
        widen raw.accel_x
        ∷ widen raw.accel_y
        ∷ widen raw.accel_z
        ∷ widen raw.gyro_x
        ∷ widen raw.gyro_y
        ∷ widen raw.gyro_z
        ∷ [])
    pub accel_x_rails : OffTheRails raw.accel_x
    pub accel_y_rails : OffTheRails raw.accel_y
    pub accel_z_rails : OffTheRails raw.accel_z
    pub accel_x_moving : Moving n axes.ax raw.accel_x
    pub accel_y_moving : Moving n axes.ay raw.accel_y
    pub accel_z_moving : Moving n axes.az raw.accel_z
    pub gyro_x_moving : Moving n axes.gx raw.gyro_x
    pub gyro_y_moving : Moving n axes.gy raw.gyro_y
    pub gyro_z_moving : Moving n axes.gz raw.gyro_z

  -- What a fix has passed.
  abbrev pub GpsPassed : TelemetryFrame → Type 0
  GpsPassed raw = Finite (
      raw.latitude
      ∷ raw.longitude
      ∷ widen raw.gps_altitude_m
      ∷ widen raw.ground_speed_mps
      ∷ widen raw.course_deg
      ∷ [])

  first_saturated-none :
      (xs : List Float) → first_saturated ops xs ≡ none → All (λ a. at_a_rail ops a ≡ false) xs
  unfolding first_saturated
  first_saturated-none [] e = tt
  first_saturated-none (x ∷ xs) e = elim (Bool-cases (at_a_rail ops x)) [
    | inl r ↦ cc (rw r at e)
    | inr r ↦ (r, first_saturated-none xs (rw r at e))
  ]

  judge_imu-unsaturated :
      (d : FaultDetector) (raw : TelemetryFrame)
      → (judge_imu ops d.config d.imu_axes raw).0.faulted ≡ false
      → All (λ a. at_a_rail ops a ≡ false) (raw.accel_x ∷ raw.accel_y ∷ raw.accel_z ∷ [])
  unfolding judge_imu
  judge_imu-unsaturated d raw e =
      first_saturated-none (raw.accel_x ∷ raw.accel_y ∷ raw.accel_z ∷ []) (ground arith)

  judge_imu-moving :
      (d : FaultDetector) (raw : TelemetryFrame)
      → (judge_imu ops d.config d.imu_axes raw).0.faulted ≡ false
      → (push_axes ops d.config.stuck_count d.imu_axes raw).0 ≡ none
  unfolding judge_imu
  judge_imu-moving d raw e = ground arith

  push_axes-none :
      (n : ℕ) (t : Trackers) (raw : TelemetryFrame)
      → (push_axes ops n t raw).0 ≡ none
      → ((push t.ax raw.accel_x n).0 ≡ false)
        × ((push t.ay raw.accel_y n).0 ≡ false)
        × ((push t.az raw.accel_z n).0 ≡ false)
        × ((push t.gx raw.gyro_x n).0 ≡ false)
        × ((push t.gy raw.gyro_y n).0 ≡ false)
        × ((push t.gz raw.gyro_z n).0 ≡ false)
  unfolding push_axes
  push_axes-none n t raw e =
      (ground arith, ground arith, ground arith, ground arith, ground arith, ground arith)

  pub judge_imu-passed :
      (d : FaultDetector) (raw : TelemetryFrame)
      → (judge_imu ops d.config d.imu_axes raw).0.faulted ≡ false
      → ImuPassed d.config.stuck_count d.imu_axes raw
  unfolding judge_imu
  judge_imu-passed d raw e =
      let (x, (y, (z, _))) = judge_imu-unsaturated d raw e in
      let (ax, ay, az, gx, gy, gz) =
        push_axes-none d.config.stuck_count d.imu_axes raw (judge_imu-moving d raw e) in
      record {
        finite = first_non_finite-Finite (imu_doubles ops raw) (ground arith);
        accel_x_rails = off_the_rails raw.accel_x x;
        accel_y_rails = off_the_rails raw.accel_y y;
        accel_z_rails = off_the_rails raw.accel_z z;
        accel_x_moving = ax;
        accel_y_moving = ay;
        accel_z_moving = az;
        gyro_x_moving = gx;
        gyro_y_moving = gy;
        gyro_z_moving = gz;
      }

  pub judge_gps-passed :
      (raw : TelemetryFrame) → (judge_gps ops raw).faulted ≡ false → GpsPassed raw
  unfolding judge_gps
  judge_gps-passed raw e = first_non_finite-Finite (gps_doubles ops raw) (ground arith)
