-- ===== src/Injector.antt =====
-- `src/processing/lane_fault_injector.cpp` and `src/processing/lane_fault_injector.h`: the scheduled faults
-- of the lanes and the hook that applies them. `parse_lane_fault` and `describe_lane_fault` are text and
-- not here.
pub mod Confined
use Prim.Native.Nat.{bit_xor}
use flight_telemetry.Prelude.{
  ℕ, ◌-◌, ◌+◌, ◌%◌, ◌^◌, Bool, true, false, not, ◌&&◌, ltb, leb, ◌==◌, if◌then◌else◌, List, [], ◌∷◌,
  map,
}
use flight_telemetry.Float.{Float, of_uint}
use flight_telemetry.Frame.{TelemetryFrame, zero_frame}
use flight_telemetry.Lanes.{Three, Lane, first, second, third, get, number, tabulate}
use flight_telemetry.Event.{FaultEvent, event_of, record_event, voter, lane_fault_injected}
use flight_telemetry.Redundant.{LaneFaultHook}

pub data LaneFaultKind : Type 0 where
  output_bit_flip output_nan output_stale input_bit_flip : LaneFaultKind

pub data LaneField : Type 0 where
  baro_altitude pitch roll fused_altitude vertical_speed : LaneField
  pressure accel_x accel_y accel_z gyro_x gyro_y gyro_z gps_altitude : LaneField

-- `UINT64_MAX`.
abbrev pub persistent : ℕ
persistent = 0xFFFF_FFFF_FFFF_FFFF

-- `lane` is an int; 1 to 3 name a lane.
pub record LaneFault : Type 0 where
  pub lane : ℕ
  pub kind : LaneFaultKind
  pub onset_ms : ℕ
  pub end_ms : ℕ
  pub field : LaneField
  pub bit : ℕ
  pub recorded : Bool

-- `field_of` as an lvalue: the field read and the field written.
abbrev pub field_of : TelemetryFrame → LaneField → Float
field_of f baro_altitude = f.baro_altitude_m
field_of f pitch = f.pitch_deg
field_of f roll = f.roll_deg
field_of f fused_altitude = f.fused_altitude_m
field_of f vertical_speed = f.vertical_speed_mps
field_of f pressure = f.pressure_hpa
field_of f accel_x = f.accel_x
field_of f accel_y = f.accel_y
field_of f accel_z = f.accel_z
field_of f gyro_x = f.gyro_x
field_of f gyro_y = f.gyro_y
field_of f gyro_z = f.gyro_z
field_of f gps_altitude = f.gps_altitude_m

abbrev pub set_field : TelemetryFrame → LaneField → Float → TelemetryFrame
set_field f baro_altitude x = record f { baro_altitude_m = x }
set_field f pitch x = record f { pitch_deg = x }
set_field f roll x = record f { roll_deg = x }
set_field f fused_altitude x = record f { fused_altitude_m = x }
set_field f vertical_speed x = record f { vertical_speed_mps = x }
set_field f pressure x = record f { pressure_hpa = x }
set_field f accel_x x = record f { accel_x = x }
set_field f accel_y x = record f { accel_y = x }
set_field f accel_z x = record f { accel_z = x }
set_field f gyro_x x = record f { gyro_x = x }
set_field f gyro_y x = record f { gyro_y = x }
set_field f gyro_z x = record f { gyro_z = x }
set_field f gps_altitude x = record f { gps_altitude_m = x }

abbrev pub flip : Float → ℕ → Float
flip value bit = bit_xor value (2 ^ (bit % 32))

abbrev pub flip_field : TelemetryFrame → LaneField → ℕ → TelemetryFrame
flip_field frame field bit = set_field frame field (flip (field_of frame field) bit)

-- `std::numeric_limits<float>::quiet_NaN()`.
abbrev pub quiet_nan : Float
quiet_nan = 0x7fc0_0000

unfoldable pub active : LaneFault → ℕ → Bool
active fault t_ms = leb fault.onset_ms t_ms && ltb t_ms fault.end_ms

abbrev pub is_input : LaneFaultKind → Bool
is_input input_bit_flip = true
is_input output_bit_flip = false
is_input output_nan = false
is_input output_stale = false

pub record Scheduled : Type 0 where
  pub fault : LaneFault
  pub announced : Bool

pub record LaneFaultInjector : Type 0 where
  pub faults : List Scheduled
  pub real : Three TelemetryFrame
  pub previous : Three TelemetryFrame
  pub have_previous : Bool
  pub events : List FaultEvent

unfoldable pub injector_init : List LaneFault → LaneFaultInjector
injector_init faults = record {
  faults = map (λ (fault : LaneFault). record { fault = fault; announced = false }) faults;
  real = tabulate (λ _. zero_frame);
  previous = tabulate (λ _. zero_frame);
  have_previous = false;
  events = [];
}

-- The loop of `perturb_input`; the timestamp is not one of the fields that it alters.
unfoldable pub perturb_inputs : Lane → List Scheduled → TelemetryFrame → TelemetryFrame
unfolding active
perturb_inputs lane [] frame = frame
perturb_inputs lane (scheduled ∷ rest) frame =
    let fault = scheduled.fault in
    let applies =
      fault.lane == number lane && is_input fault.kind && active fault frame.timestamp_ms in
    perturb_inputs lane rest (if applies then flip_field frame fault.field fault.bit else frame)

-- The `switch` of `perturb_output`; `stale` is the lane's previous real output, if there was a cycle.
abbrev pub alter : LaneFault → Bool → TelemetryFrame → TelemetryFrame → TelemetryFrame
alter fault have_previous stale frame = elim fault.kind [
  | output_bit_flip ↦ flip_field frame fault.field fault.bit
  | output_nan ↦ set_field frame fault.field quiet_nan
  | output_stale ↦ if have_previous then stale else frame
  | input_bit_flip ↦ frame
]

-- The loop of `perturb_output` at time `t_ms`.
unfoldable pub perturb_outputs :
    Lane
    → ℕ
    → Bool
    → TelemetryFrame
    → List Scheduled
    → TelemetryFrame
    → List FaultEvent
    → TelemetryFrame × List Scheduled × List FaultEvent
unfolding active
perturb_outputs lane t_ms have_previous stale [] frame events = (frame, [], events)
perturb_outputs lane t_ms have_previous stale (scheduled ∷ rest) frame events =
    let fault = scheduled.fault in
    let applies = fault.lane == number lane && active fault t_ms in
    let announces = applies && (fault.recorded && not scheduled.announced) in
    let scheduled' = if announces then record scheduled { announced = true } else scheduled in
    let events' =
      if announces
      then record_event events t_ms voter lane_fault_injected (of_uint (number lane))
      else events in
    let frame' = if applies then alter fault have_previous stale frame else frame in
    let (out, rest', events'') =
      perturb_outputs lane t_ms have_previous stale rest frame' events' in
    (out, scheduled' ∷ rest', events'')

abbrev pub set_lane : Three TelemetryFrame → Lane → TelemetryFrame → Three TelemetryFrame
set_lane a first x = record a { lane_1 = x }
set_lane a second x = record a { lane_2 = x }
set_lane a third x = record a { lane_3 = x }

unfoldable pub perturb_output :
    LaneFaultInjector → Lane → TelemetryFrame → TelemetryFrame × LaneFaultInjector
perturb_output s lane output =
    let real = set_lane s.real lane output in
    let (out, faults, events) =
      perturb_outputs lane output.timestamp_ms s.have_previous (get s.previous lane) s.faults output
        s.events in
    let last = number lane == 3 in
    (
      out,
      record {
        faults = faults;
        real = real;
        previous = if last then real else s.previous;
        have_previous = if last then true else s.have_previous;
        events = events;
      },
    )

unfoldable pub injector_hook : LaneFaultHook LaneFaultInjector
injector_hook = record {
  perturb_input = λ s lane frame. (perturb_inputs lane s.faults frame, s);
  perturb_output = perturb_output;
}

unfoldable pub take_events : LaneFaultInjector → List FaultEvent × LaneFaultInjector
take_events s = (s.events, record s { events = [] })

unfoldable pub demo_lane_fault : ℕ → ℕ → LaneFault
demo_lane_fault lane onset_ms = record {
  lane = lane;
  kind = output_bit_flip;
  onset_ms = onset_ms;
  end_ms = persistent;
  field = fused_altitude;
  bit = 22;
  recorded = true;
}
