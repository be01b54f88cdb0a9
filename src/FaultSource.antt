-- ===== src/FaultSource.antt =====
-- `src/drivers/fault_injecting_source.h` and `src/drivers/fault_injecting_source.cpp`: a source whose frames are those of
-- another with a channel failed or held, or a field held, offset or replaced. The inner source is a record of its
-- `read_frame`; an array of one entry for each field is a function.
pub mod Modes
pub mod Apply
pub mod Channels
pub mod Judged
pub mod Held
use Prim.Native.Nat.{bit_and, bit_or}
use flight_telemetry.Prelude.{
  ℕ, ◌+◌, ◌-◌, ◌%◌, ◌^◌, Bool, true, false, not, ◌&&◌, ◌||◌, ◌==◌, if◌then◌else◌, Option, none,
  some, List, [], ◌∷◌, ℤ, pos,
}
use flight_telemetry.Float.{Float}
use flight_telemetry.Double.{DoubleOps}
use flight_telemetry.Frame.{TelemetryFrame, zero_frame}
use flight_telemetry.Event.{Channel, baro, imu, gps, voter}

pub data RawField : Type 0 where
  pressure temperature accel_x accel_y accel_z gyro_x gyro_y gyro_z gps_altitude : RawField

-- `index_of`.
abbrev pub index_of : RawField → ℕ
index_of pressure = 0
index_of temperature = 1
index_of accel_x = 2
index_of accel_y = 3
index_of accel_z = 4
index_of gyro_x = 5
index_of gyro_y = 6
index_of gyro_z = 7
index_of gps_altitude = 8

abbrev pub raw_fields : List RawField
raw_fields =
    pressure ∷ temperature ∷ accel_x ∷ accel_y ∷ accel_z ∷ gyro_x ∷ gyro_y ∷ gyro_z ∷ gps_altitude
    ∷ []

-- `frame.*kFieldMember[i]`, read and written.
abbrev pub field_member : RawField → TelemetryFrame → Float
field_member pressure f = f.pressure_hpa
field_member temperature f = f.temperature_c
field_member accel_x f = f.accel_x
field_member accel_y f = f.accel_y
field_member accel_z f = f.accel_z
field_member gyro_x f = f.gyro_x
field_member gyro_y f = f.gyro_y
field_member gyro_z f = f.gyro_z
field_member gps_altitude f = f.gps_altitude_m

abbrev pub set_member : RawField → Float → TelemetryFrame → TelemetryFrame
set_member pressure x f = record f { pressure_hpa = x }
set_member temperature x f = record f { temperature_c = x }
set_member accel_x x f = record f { accel_x = x }
set_member accel_y x f = record f { accel_y = x }
set_member accel_z x f = record f { accel_z = x }
set_member gyro_x x f = record f { gyro_x = x }
set_member gyro_y x f = record f { gyro_y = x }
set_member gyro_z x f = record f { gyro_z = x }
set_member gps_altitude x f = record f { gps_altitude_m = x }

pub record FieldHold : Type 0 where
  pub enabled : Bool
  pub captured : Bool
  pub value : Float

pub record FieldBias : Type 0 where
  pub enabled : Bool
  pub started : Bool
  pub start_ms : ℕ
  pub offset : Float
  pub rate_per_s : Float

abbrev pub no_hold : FieldHold
no_hold = record { enabled = false; captured = false; value = 0 }

abbrev pub no_bias : FieldBias
no_bias = record { enabled = false; started = false; start_ms = 0; offset = 0; rate_per_s = 0 }

pub record FaultInjectingSource : Type 0 where
  pub last_good : TelemetryFrame
  pub have_last_good : Bool
  pub fail_baro : Bool
  pub fail_imu : Bool
  pub fail_gps : Bool
  pub hold_baro : Bool
  pub hold_imu : Bool
  pub hold_gps : Bool
  pub holds : RawField → FieldHold
  pub biases : RawField → FieldBias
  pub overrides : RawField → Option Float
  pub previous : TelemetryFrame
  pub have_previous : Bool

abbrev pub source_init : FaultInjectingSource
source_init = record {
  last_good = zero_frame;
  have_last_good = false;
  fail_baro = false;
  fail_imu = false;
  fail_gps = false;
  hold_baro = false;
  hold_imu = false;
  hold_gps = false;
  holds = λ _. no_hold;
  biases = λ _. no_bias;
  overrides = λ _. none;
  previous = zero_frame;
  have_previous = false;
}

-- One entry of an array replaced.
abbrev pub put {ℓ} : {A : Type ℓ} → RawField → A → (RawField → A) → RawField → A
put field a array other = if index_of other == index_of field then a else array other

abbrev pub gps_presence_bits : ℕ
gps_presence_bits = 0x0e

unfoldable pub copy_channel : Channel → TelemetryFrame → TelemetryFrame → TelemetryFrame
copy_channel baro from to = record to {
  pressure_hpa = from.pressure_hpa;
  temperature_c = from.temperature_c;
}
copy_channel imu from to = record to {
  accel_x = from.accel_x;
  accel_y = from.accel_y;
  accel_z = from.accel_z;
  gyro_x = from.gyro_x;
  gyro_y = from.gyro_y;
  gyro_z = from.gyro_z;
}
copy_channel gps from to = record to {
  latitude = from.latitude;
  longitude = from.longitude;
  gps_altitude_m = from.gps_altitude_m;
  ground_speed_mps = from.ground_speed_mps;
  course_deg = from.course_deg;
  gps_vertical_rate_mps = from.gps_vertical_rate_mps;
  gps_pressure_altitude_m = from.gps_pressure_altitude_m;
  gps_fix_quality = from.gps_fix_quality;
  gps_satellites = from.gps_satellites;
  flags =
      bit_or (bit_and to.flags (0xff - gps_presence_bits)) (bit_and from.flags gps_presence_bits);
}
copy_channel voter from to = to

-- The read flag of a channel that fails.
abbrev pub not_read : Channel → TelemetryFrame → TelemetryFrame
not_read baro f = record f { baro_read_ok = false }
not_read imu f = record f { imu_read_ok = false }
not_read gps f = record f { gps_read_ok = false }
not_read voter f = f

-- One channel of a frame by its two modes, with the last good frame.
unfoldable pub apply_channel :
    Channel → Bool → Bool → TelemetryFrame × TelemetryFrame → TelemetryFrame × TelemetryFrame
apply_channel channel fail hold (frame, last_good) =
    if fail
    then (not_read channel (copy_channel channel last_good frame), last_good)
    else if hold
    then (copy_channel channel last_good frame, last_good)
    else (frame, copy_channel channel frame last_good)

unfoldable pub apply_channels :
    FaultInjectingSource → TelemetryFrame → TelemetryFrame × TelemetryFrame
apply_channels s frame =
    let last_good = if s.have_last_good then s.last_good else frame in
    apply_channel gps s.fail_gps s.hold_gps (
      apply_channel imu s.fail_imu s.hold_imu
        (apply_channel baro s.fail_baro s.hold_baro (frame, last_good)))
