-- ===== src/Examples/Data.antt =====
-- The inputs of the examples: an arithmetic, readings and what three lanes hand in, in the shapes of
-- `src/telemetry_frame.h` and `src/processing/voter.h`.
use flight_telemetry.Prelude.{ℕ, ◌+◌, ◌-◌, ◌*◌, ◌/◌, ◌%◌, true, pos, List, [], ◌∷◌}
use flight_telemetry.Float.{FloatOps}
use flight_telemetry.Double.{DoubleOps}
use flight_telemetry.Frame.{TelemetryFrame, zero_frame}
use flight_telemetry.Lanes.{Three}

-- On numbers that never reach an infinity.
abbrev pub small : ℕ → ℕ
small x = x % 0x7f80_0000

abbrev pub small_ops : FloatOps
small_ops = record {
  add = λ x y. small (x + y);
  sub = λ x y. small (x - y);
  mul = λ x y. small (x * y);
  div = λ x y. small (x / y);
  pow = λ x y. small x;
  sqrt = λ x. small x;
  atan2 = λ y x. small (y / x);
  widen = λ x. x;
  narrow = λ x. small x;
}

-- The same with readings in the units of the rails.
abbrev pub plain_ops : FloatOps
plain_ops = record small_ops { mul = λ x y. x; div = λ x y. x }

-- A good reading of every channel.
abbrev pub reading : ℕ → TelemetryFrame
reading ms = record zero_frame {
  timestamp_ms = ms;
  sequence = ms / 100;
  pressure_hpa = 0x447d_5000;
  temperature_c = 0x41a0_0000;
  accel_z = 0x411c_e80a;
  gps_altitude_m = 0x4320_0000;
  baro_read_ok = true;
  imu_read_ok = true;
  gps_read_ok = true;
}

abbrev pub readings : List TelemetryFrame
readings = reading 100 ∷ reading 200 ∷ []

-- The third lane hands in another altitude.
abbrev pub outputs : Three TelemetryFrame
outputs = record {
  lane_1 = reading 100;
  lane_2 = reading 100;
  lane_3 = record (reading 100) { fused_altitude_m = 0x42c8_0000 };
}

-- Doubles with some arithmetic.
abbrev pub toy_doubles : DoubleOps
toy_doubles = record {
  add = λ a b. a + b;
  sub = λ a b. a - b;
  mul = λ a b. a * b;
  div = λ a b. a;
  floor = λ a. a;
  cos = λ a. 1;
  hypot = λ a b. a + b;
  narrow = λ a. a;
  of_float = λ a. a;
  of_int = λ n. 0;
  strtod = λ text. (0, 0);
  strtol = λ text. (pos 0, 0);
}
