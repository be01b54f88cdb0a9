-- ===== src/Kalman.antt =====
-- `src/processing/kalman_filter.cpp` and `src/processing/kalman_filter.h`, in the float arithmetic of
-- the build. The order of the operations is the source's, since float arithmetic is not associative.
use flight_telemetry.Prelude.{if◌then◌else◌}
use flight_telemetry.Float.{Float, FloatOps, float_le}

pub record KalmanFilter1D : Type 0 where
  pub altitude_m : Float
  pub velocity_mps : Float
  pub p00 : Float
  pub p01 : Float
  pub p11 : Float
  pub accel_noise_variance : Float

-- The constructor.
unfoldable pub kalman_filter : Float → Float → Float → Float → Float → KalmanFilter1D
kalman_filter altitude velocity altitude_variance velocity_variance accel_noise = record {
  altitude_m = altitude;
  velocity_mps = velocity;
  p00 = altitude_variance;
  p01 = 0;
  p11 = velocity_variance;
  accel_noise_variance = accel_noise;
}

module _ (ops : FloatOps) where
  open ops use {add, sub, mul, div}

  -- `predict` for a `dt` above zero. 2.0 is 0x40000000 and 4.0 is 0x40800000.
  unfoldable pub advance : KalmanFilter1D → Float → KalmanFilter1D
  advance k dt =
      let dt2 = mul dt dt in
      let dt3 = mul dt2 dt in
      let dt4 = mul dt3 dt in
      let q00 = div (mul k.accel_noise_variance dt4) 0x4080_0000 in
      let q01 = div (mul k.accel_noise_variance dt3) 0x4000_0000 in
      let q11 = mul k.accel_noise_variance dt2 in
      record k {
        altitude_m = add k.altitude_m (mul k.velocity_mps dt);
        p00 = add (add (add k.p00 (mul (mul 0x4000_0000 dt) k.p01)) (mul dt2 k.p11)) q00;
        p01 = add (add k.p01 (mul dt k.p11)) q01;
        p11 = add k.p11 q11;
      }

  unfoldable pub predict : KalmanFilter1D → Float → KalmanFilter1D
  predict k dt = if float_le dt 0 then k else advance k dt

  -- 1.0 is 0x3f800000.
  unfoldable pub update : KalmanFilter1D → Float → Float → KalmanFilter1D
  update k measured_altitude_m measurement_noise_variance =
      let y = sub measured_altitude_m k.altitude_m in
      let s = add k.p00 measurement_noise_variance in
      let k0 = div k.p00 s in
      let k1 = div k.p01 s in
      record k {
        altitude_m = add k.altitude_m (mul k0 y);
        velocity_mps = add k.velocity_mps (mul k1 y);
        p00 = mul (sub 0x3f80_0000 k0) k.p00;
        p01 = mul (sub 0x3f80_0000 k0) k.p01;
        p11 = sub k.p11 (mul k1 k.p01);
      }
