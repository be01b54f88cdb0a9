-- ===== src/Attitude.antt =====
-- `src/processing/complementary_filter.cpp` and `src/processing/complementary_filter.h`: pitch and roll.
use flight_telemetry.Prelude.{Bool, true, false, if◌then◌else◌}
use flight_telemetry.Float.{Float, FloatOps, float_lt}

pub record ComplementaryFilter : Type 0 where
  pub alpha : Float
  pub pitch_rad : Float
  pub roll_rad : Float
  pub initialized : Bool

-- The constructor.
unfoldable pub complementary_filter : Float → ComplementaryFilter
complementary_filter alpha = record {
  alpha = alpha;
  pitch_rad = 0;
  roll_rad = 0;
  initialized = false;
}

-- The seed is forgotten, and the angles stay.
unfoldable pub reset : ComplementaryFilter → ComplementaryFilter
reset f = record f { initialized = false }

-- One sample: accelerations in m/s², rates in degrees per second. The yaw rate is unused.
pub record ImuSample : Type 0 where
  pub accel_x : Float
  pub accel_y : Float
  pub accel_z : Float
  pub gyro_x : Float
  pub gyro_y : Float
  pub gyro_z : Float

module _ (ops : FloatOps) where
  open ops use {add, sub, mul, div, sqrt, atan2}

  -- `kDegToRad` and `kRadToDeg`: pi is 0x40490fdb and 180 is 0x43340000.
  abbrev deg_to_rad : Float
  deg_to_rad = div 0x4049_0fdb 0x4334_0000

  abbrev rad_to_deg : Float
  rad_to_deg = div 0x4334_0000 0x4049_0fdb

  -- The accelerometer measures gravity: more than 0.5 m/s².
  unfoldable pub is_usable : ImuSample → Bool
  is_usable s = float_lt 0x3f00_0000 (
      sqrt
        (add (add (mul s.accel_x s.accel_x) (mul s.accel_y s.accel_y)) (mul s.accel_z s.accel_z)))

  unfoldable pub accel_pitch : ImuSample → Float
  accel_pitch s = atan2 s.accel_x (sqrt (add (mul s.accel_y s.accel_y) (mul s.accel_z s.accel_z)))

  unfoldable pub accel_roll : ImuSample → Float
  accel_roll s = atan2 s.accel_y (sqrt (add (mul s.accel_x s.accel_x) (mul s.accel_z s.accel_z)))

  abbrev blend : Float → Float → Float → Float
  blend alpha gyro accel = add (mul alpha gyro) (mul (sub 0x3f80_0000 alpha) accel)

  unfoldable pub update : ComplementaryFilter → ImuSample → Float → ComplementaryFilter
  update f s dt =
      let usable = is_usable s in
      let gyro_pitch = add f.pitch_rad (mul (mul s.gyro_y deg_to_rad) dt) in
      let gyro_roll = add f.roll_rad (mul (mul s.gyro_x deg_to_rad) dt) in
      if f.initialized
      then (if usable
          then record f {
            pitch_rad = blend f.alpha gyro_pitch (accel_pitch s);
            roll_rad = blend f.alpha gyro_roll (accel_roll s);
          }
          else record f { pitch_rad = gyro_pitch; roll_rad = gyro_roll })
      else if usable
      then record f { pitch_rad = accel_pitch s; roll_rad = accel_roll s; initialized = true }
      else f

  unfoldable pub pitch_deg : ComplementaryFilter → Float
  pitch_deg f = mul f.pitch_rad rad_to_deg

  unfoldable pub roll_deg : ComplementaryFilter → Float
  roll_deg f = mul f.roll_rad rad_to_deg
