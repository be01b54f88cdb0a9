-- ===== src/Event.antt =====
-- The fault events of `src/processing/fault_detector.h`, shared by the detector, the voter and the lane
-- fault injector.
use flight_telemetry.Prelude.{ℕ, List, [], ◌∷◌, ◌++◌}
use flight_telemetry.Float.{Float}

pub data Channel : Type 0 where
  baro imu gps voter : Channel

pub data FaultType : Type 0 where
  comm_timeout stuck out_of_range recovery : FaultType
  lane_disagreement lane_faulted no_majority lane_overrun : FaultType
  lane_fault_injected : FaultType

-- `reserved` is zero in every event that the program makes.
pub record FaultEvent : Type 0 where
  pub timestamp_ms : ℕ
  pub channel : Channel
  pub type : FaultType
  pub reserved : ℕ
  pub value : Float

-- Both `record_event` functions: value-initialized, then assigned, and appended.
abbrev pub event_of : ℕ → Channel → FaultType → Float → FaultEvent
event_of now_ms channel type value = record {
  timestamp_ms = now_ms;
  channel = channel;
  type = type;
  reserved = 0;
  value = value;
}

abbrev pub record_event : List FaultEvent → ℕ → Channel → FaultType → Float → List FaultEvent
record_event events now_ms channel type value = events ++ (event_of now_ms channel type value ∷ [])
