-- ===== src/Injections.antt =====
-- `src/replay/recorded_injections.cpp`: the lane faults that a log records, as a replay re-applies them.
pub mod Told
pub mod RoundTrip
use flight_telemetry.Prelude.{
  ℕ, zero, suc, ◌||◌, Bool, true, false, if◌then◌else◌, Option, none, some, List, [], ◌∷◌, ◌++◌,
  length,
}
use flight_telemetry.Float.{Float, float_eq}
use flight_telemetry.Event.{FaultEvent, Channel, FaultType, lane_fault_injected, voter}
use flight_telemetry.Log.{LogRecord, frame, fault_event}
use flight_telemetry.Log.Reader.{Content, LogReader, ReadError, open_reader, next}
use flight_telemetry.Injector.{LaneFault, demo_lane_fault}

-- What `error` says, and of which log.
pub data InjectionError : Type 0 where
  unreadable : Option ReadError → InjectionError
  names_no_lane : Content → InjectionError

pub data Recorded : Type 0 where
  recorded : List LaneFault → Recorded
  failed : InjectionError → Recorded

abbrev is_voter : Channel → Bool
is_voter Channel.baro = false
is_voter Channel.imu = false
is_voter Channel.gps = false
is_voter voter = true

abbrev is_injected : FaultType → Bool
is_injected FaultType.comm_timeout = false
is_injected FaultType.stuck = false
is_injected FaultType.out_of_range = false
is_injected FaultType.recovery = false
is_injected FaultType.lane_disagreement = false
is_injected FaultType.lane_faulted = false
is_injected FaultType.no_majority = false
is_injected FaultType.lane_overrun = false
is_injected lane_fault_injected = true

-- Whether a record is of an injected lane fault, and then its event.
unfoldable pub injected_event : LogRecord → Option FaultEvent
injected_event (frame f) = none
injected_event (fault_event e) =
    if is_voter e.channel then (if is_injected e.type then some e else none) else none

-- `lane == 1.0f` and so on, with the cast to int.
unfoldable pub named_lane : Float → Option ℕ
named_lane value =
    if float_eq value 0x3f80_0000
    then some 1
    else if float_eq value 0x4000_0000
    then some 2
    else if float_eq value 0x4040_0000
    then some 3
    else none

-- The loop over one log's records, on fuel: the faults so far and those it finds, or none for an event
-- that names no lane.
unfoldable pub scan : ℕ → LogReader → List LaneFault → Option (List LaneFault)
unfolding named_lane injected_event
scan zero s found = some found
scan (suc n) s found =
    let (o, s') = next s in
    elim o [
      | none ↦ some found
      | some r ↦ elim (injected_event r) [
        | none ↦ scan n s' found
        | some e ↦ elim (named_lane e.value) [
          | none ↦ none
          | some lane ↦ scan n s' (found ++ (demo_lane_fault lane e.timestamp_ms ∷ []))
        ]
      ]
    ]

-- The loop over the logs.
unfoldable pub recorded_from : List Content → List LaneFault → Recorded
recorded_from [] found = recorded found
recorded_from (file ∷ logs) found =
    let reader = open_reader file in
    elim (scan (suc (length reader.rest)) reader found) [
      | none ↦ if reader.ok then failed (names_no_lane file) else failed (unreadable reader.error)
      | some found' ↦
          if reader.ok then recorded_from logs found' else failed (unreadable reader.error)
    ]

unfoldable pub recorded_lane_faults : List Content → Recorded
unfolding recorded_from
recorded_lane_faults logs = recorded_from logs []
