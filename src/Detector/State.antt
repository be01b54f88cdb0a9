-- ===== src/Detector/State.antt =====
-- `src/processing/fault_detector.h`: the detector's configuration and state, and in
-- `src/processing/fault_detector.cpp` the stuck tracker, the timeout and the channels' state machine.
-- The counts are naturals (`int` in the code, with positive limits in every configuration);
-- timestamps are 64-bit and their difference keeps its wrap-around.
use flight_telemetry.Prelude.{
  ℕ, ◌+◌, ◌-◌, ◌%◌, ◌^◌, Bool, true, false, ◌&&◌, Option, none, some, List, [], ◌∷◌, ltb, leb,
  if◌then◌else◌,
}
use flight_telemetry.Float.{Float, Double, is_finite_double, float_eq, of_uint}
use flight_telemetry.Frame.{ChannelStatus, nominal, degraded, no_data, status_eq}
use flight_telemetry.Event.{FaultEvent, Channel, FaultType, comm_timeout, recovery, record_event}

pub record FaultDetectorConfig : Type 0 where
  pub i2c_timeout_ms : ℕ
  pub uart_timeout_ms : ℕ
  pub stuck_count : ℕ
  pub recovery_count : ℕ
  pub pressure_min_hpa : Float
  pub pressure_max_hpa : Float
  pub temperature_min_c : Float
  pub temperature_max_c : Float

-- The defaults, with 300, 1100, -40 and 85 as floats.
abbrev pub default_config : FaultDetectorConfig
default_config = record {
  i2c_timeout_ms = 500;
  uart_timeout_ms = 2000;
  stuck_count = 10;
  recovery_count = 5;
  pressure_min_hpa = 0x4396_0000;
  pressure_max_hpa = 0x4489_8000;
  temperature_min_c = 0xc220_0000;
  temperature_max_c = 0x42aa_0000;
}

pub record StuckTracker : Type 0 where
  pub last : Float
  pub run : ℕ
  pub primed : Bool

abbrev pub fresh_tracker : StuckTracker
fresh_tracker = record { last = 0; run = 0; primed = false }

-- `push` is true when the same value has come `n` times in a row.
unfoldable pub push : StuckTracker → Float → ℕ → Bool × StuckTracker
push t value n =
    let run = if t.primed && float_eq value t.last then t.run + 1 else 1 in
    (leb n run, record { last = value; run = run; primed = true })

pub record ChannelState : Type 0 where
  pub status : ChannelStatus
  pub has_last_ok : Bool
  pub last_ok_ms : ℕ
  pub degraded_since_ms : ℕ
  pub valid_run : ℕ

abbrev pub fresh_channel : ChannelState
fresh_channel = record {
  status = no_data;
  has_last_ok = false;
  last_ok_ms = 0;
  degraded_since_ms = 0;
  valid_run = 0;
}

-- `now - then` on `uint64_t`.
abbrev pub elapsed_ms : ℕ → ℕ → ℕ
elapsed_ms now_ms then_ms = (now_ms + 2 ^ 64 - then_ms) % 2 ^ 64

-- Whether the channel has timed out, the elapsed time as a float, and the channel's clock.
unfoldable pub comm_timed_out : ChannelState → Bool → ℕ → ℕ → Bool × Float × ChannelState
comm_timed_out state read_ok now_ms timeout_ms =
    if read_ok
    then (false, 0, record state { last_ok_ms = now_ms; has_last_ok = true })
    else let state' =
        (if state.has_last_ok
          then state
          else record state { last_ok_ms = now_ms; has_last_ok = true }) in
      let elapsed = elapsed_ms now_ms state'.last_ok_ms in
      (ltb timeout_ms elapsed, of_uint elapsed, state')

pub record Observation : Type 0 where
  pub read_ok : Bool
  pub faulted : Bool
  pub type : FaultType
  pub value : Float

abbrev pub no_fault : Bool → Observation
no_fault read_ok = record { read_ok = read_ok; faulted = false; type = comm_timeout; value = 0 }

abbrev pub fault : Bool → FaultType → Float → Observation
fault read_ok type value = record { read_ok = read_ok; faulted = true; type = type; value = value }

-- `first_non_finite` over an initializer list.
unfoldable pub first_non_finite : List Double → Option Double
first_non_finite [] = none
first_non_finite (v ∷ vs) = if is_finite_double v then first_non_finite vs else some v

pub record Trackers : Type 0 where
  pub ax : StuckTracker
  pub ay : StuckTracker
  pub az : StuckTracker
  pub gx : StuckTracker
  pub gy : StuckTracker
  pub gz : StuckTracker

pub record FaultDetector : Type 0 where
  pub config : FaultDetectorConfig
  pub baro_channel : ChannelState
  pub imu_channel : ChannelState
  pub gps_channel : ChannelState
  pub baro_pressure : StuckTracker
  pub imu_axes : Trackers
  pub events : List FaultEvent

unfoldable pub detector_init : FaultDetectorConfig → FaultDetector
detector_init config = record {
  config = config;
  baro_channel = fresh_channel;
  imu_channel = fresh_channel;
  gps_channel = fresh_channel;
  baro_pressure = fresh_tracker;
  imu_axes = record {
    ax = fresh_tracker;
    ay = fresh_tracker;
    az = fresh_tracker;
    gx = fresh_tracker;
    gy = fresh_tracker;
    gz = fresh_tracker;
  };
  events = [];
}

-- NO_DATA → NOMINAL ↔ DEGRADED, the same for every channel.
unfoldable pub transition :
    ℕ → Channel → ChannelState → Observation → ℕ → List FaultEvent → ChannelState × List FaultEvent
transition recovery_count channel s obs now_ms events =
    if obs.faulted
    then (if status_eq s.status degraded then (record s { valid_run = 0 }, events) else (
      record s { valid_run = 0; status = degraded; degraded_since_ms = now_ms },
      record_event events now_ms channel obs.type obs.value,
    ))
    else if status_eq s.status no_data
    then ((if obs.read_ok then record s { status = nominal } else s), events)
    else if status_eq s.status degraded && obs.read_ok
    then (if leb recovery_count (s.valid_run + 1)
        then (
          record s { status = nominal; valid_run = 0 },
          record_event events now_ms channel recovery
              (of_uint (elapsed_ms now_ms s.degraded_since_ms)),
        )
        else (record s { valid_run = s.valid_run + 1 }, events))
    else (s, events)
