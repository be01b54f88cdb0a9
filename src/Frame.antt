-- ===== src/Frame.antt =====
-- `src/telemetry_frame.h` and `src/telemetry_frame.cpp`: the frame, its enumerations and its flags.
-- A status or validity byte outside its enumeration, which only a corrupt log holds, has no value here.
use Prim.Native.Nat.{bit_and, bit_or}
use Prim.Native.String.{String}
use flight_telemetry.Prelude.{ℕ, Bool, not, ◌==◌, ltb, if◌then◌else◌}
use flight_telemetry.Float.{Float, Double}

pub data ChannelStatus : Type 0 where
  nominal degraded no_data not_available : ChannelStatus

-- The enumerators' values, by which `==` compares.
abbrev pub status_byte : ChannelStatus → ℕ
status_byte nominal = 0
status_byte degraded = 1
status_byte no_data = 2
status_byte not_available = 3

abbrev pub status_eq : ChannelStatus → ChannelStatus → Bool
status_eq a b = status_byte a == status_byte b

pub data Validity : Type 0 where
  not_judged no_computed_data failure_warning normal : Validity

abbrev pub validity_byte : Validity → ℕ
validity_byte not_judged = 0
validity_byte no_computed_data = 1
validity_byte failure_warning = 2
validity_byte normal = 3

abbrev pub validity_eq : Validity → Validity → Bool
validity_eq a b = validity_byte a == validity_byte b

-- `std::min`: the second only if it is less.
abbrev pub validity_min : Validity → Validity → Validity
validity_min a b = if ltb (validity_byte b) (validity_byte a) then b else a

pub data FrameFlag : Type 0 where
  new_vehicle vertical_rate pressure_altitude fix_quality : FrameFlag

abbrev pub flag_bit : FrameFlag → ℕ
flag_bit new_vehicle = 0x01
flag_bit vertical_rate = 0x02
flag_bit pressure_altitude = 0x04
flag_bit fix_quality = 0x08

pub data VoterStatus : Type 0 where
  voted lane_1_faulted lane_2_faulted lane_3_faulted no_majority : VoterStatus

abbrev pub voter_bit : VoterStatus → ℕ
voter_bit voted = 0x0001
voter_bit lane_1_faulted = 0x0002
voter_bit lane_2_faulted = 0x0004
voter_bit lane_3_faulted = 0x0008
voter_bit no_majority = 0x0010

pub record TelemetryFrame : Type 0 where
  pub timestamp_ms : ℕ
  pub pressure_hpa : Float
  pub temperature_c : Float
  pub baro_altitude_m : Float
  pub accel_x : Float
  pub accel_y : Float
  pub accel_z : Float
  pub gyro_x : Float
  pub gyro_y : Float
  pub gyro_z : Float
  pub pitch_deg : Float
  pub roll_deg : Float
  pub sequence : ℕ
  pub latitude : Double
  pub longitude : Double
  pub gps_altitude_m : Float
  pub ground_speed_mps : Float
  pub course_deg : Float
  pub fused_altitude_m : Float
  pub vertical_speed_mps : Float
  pub baro_status : ChannelStatus
  pub imu_status : ChannelStatus
  pub gps_status : ChannelStatus
  pub baro_read_ok : Bool
  pub imu_read_ok : Bool
  pub gps_read_ok : Bool
  pub baro_altitude_validity : Validity
  pub pitch_validity : Validity
  pub roll_validity : Validity
  pub fused_altitude_validity : Validity
  pub vertical_speed_validity : Validity
  pub flags : ℕ
  pub gps_vertical_rate_mps : Float
  pub gps_pressure_altitude_m : Float
  pub gps_fix_quality : ℕ
  pub gps_satellites : ℕ
  pub voter_status : ℕ
  pub reserved_d : ℕ

-- `TelemetryFrame{}`: every byte zero.
abbrev pub zero_frame : TelemetryFrame
zero_frame = record {
  timestamp_ms = 0;
  pressure_hpa = 0;
  temperature_c = 0;
  baro_altitude_m = 0;
  accel_x = 0;
  accel_y = 0;
  accel_z = 0;
  gyro_x = 0;
  gyro_y = 0;
  gyro_z = 0;
  pitch_deg = 0;
  roll_deg = 0;
  sequence = 0;
  latitude = 0;
  longitude = 0;
  gps_altitude_m = 0;
  ground_speed_mps = 0;
  course_deg = 0;
  fused_altitude_m = 0;
  vertical_speed_mps = 0;
  baro_status = nominal;
  imu_status = nominal;
  gps_status = nominal;
  baro_read_ok = Bool.false;
  imu_read_ok = Bool.false;
  gps_read_ok = Bool.false;
  baro_altitude_validity = not_judged;
  pitch_validity = not_judged;
  roll_validity = not_judged;
  fused_altitude_validity = not_judged;
  vertical_speed_validity = not_judged;
  flags = 0;
  gps_vertical_rate_mps = 0;
  gps_pressure_altitude_m = 0;
  gps_fix_quality = 0;
  gps_satellites = 0;
  voter_status = 0;
  reserved_d = 0;
}

-- `static_cast<uint8_t>(flag)` over the flags byte.
unfoldable pub has_flag : TelemetryFrame → FrameFlag → Bool
has_flag frame flag = not (bit_and frame.flags (flag_bit flag) == 0)

unfoldable pub set_flag : TelemetryFrame → FrameFlag → TelemetryFrame
set_flag frame flag = record frame { flags = bit_or frame.flags (flag_bit flag) }

abbrev pub status_name : ChannelStatus → String
status_name nominal = "NOMINAL"
status_name degraded = "DEGRADED"
status_name no_data = "NO_DATA"
status_name not_available = "NOT_AVAILABLE"

abbrev pub validity_name : Validity → String
validity_name not_judged = "NOT_JUDGED"
validity_name no_computed_data = "NO_COMPUTED_DATA"
validity_name failure_warning = "FAILURE_WARNING"
validity_name normal = "NORMAL"
