-- ===== src/Voter.antt =====
-- `src/processing/voter.cpp` and `src/processing/voter.h`: the vote over three lanes. The array of
-- three is a record; a loop over its indices is the three steps in order. `persistence` is a natural
-- number (the constructor's `int` is 3 in the program), and the `int` count of misses does not wrap:
-- it stays at most the persistence.
pub mod Agreement
pub mod Majority
pub mod Masking
pub mod Exclusion
pub mod Runs
pub mod Hold
use Prim.Native.Nat.{bit_and, bit_or}
use flight_telemetry.Prelude.{
  ℕ, ◌+◌, Bool, true, false, not, ◌&&◌, Option, none, some, List, [], leb, ◌==◌, if◌then◌else◌,
}
use flight_telemetry.Float.{Float, is_nan, of_uint}
use flight_telemetry.Frame.{
  TelemetryFrame, zero_frame, no_computed_data, failure_warning, status_eq, validity_eq,
  validity_min, new_vehicle, has_flag, VoterStatus, voter_bit, voted,
}
use flight_telemetry.Lanes.{
  Three, Lane, first, second, third, get, tabulate, lane_number, for_this_frame, lane_bit,
  lanes_agree, find_representative, copy_computed,
}
use flight_telemetry.Event.{FaultEvent, Channel, FaultType, record_event}

unfoldable pub degrade : TelemetryFrame → TelemetryFrame
degrade frame = record frame {
  baro_altitude_validity = validity_min frame.baro_altitude_validity failure_warning;
  pitch_validity = validity_min frame.pitch_validity failure_warning;
  roll_validity = validity_min frame.roll_validity failure_warning;
  fused_altitude_validity = validity_min frame.fused_altitude_validity failure_warning;
  vertical_speed_validity = validity_min frame.vertical_speed_validity failure_warning;
}

pub record LaneState : Type 0 where
  pub faulted : Bool
  pub misses : ℕ

pub record Voter : Type 0 where
  pub persistence : ℕ
  pub lanes : Three LaneState
  pub held : TelemetryFrame
  pub in_no_majority : Bool
  pub events : List FaultEvent

-- What `clear_held` leaves in `held_`.
abbrev pub cleared : TelemetryFrame
cleared = record zero_frame {
  baro_altitude_validity = no_computed_data;
  pitch_validity = no_computed_data;
  roll_validity = no_computed_data;
  fused_altitude_validity = no_computed_data;
  vertical_speed_validity = no_computed_data;
}

abbrev pub lane_persistence : ℕ
lane_persistence = 3

unfoldable pub voter_init : ℕ → Voter
voter_init persistence = record {
  persistence = persistence;
  lanes = tabulate (λ _. record { faulted = false; misses = 0 });
  held = cleared;
  in_no_majority = false;
  events = [];
}

-- One lane's turn in the loop of `count`: its state and the events so far.
unfoldable pub count_lane :
    ℕ → ℕ → Lane → Bool → Bool → LaneState → List FaultEvent → LaneState × List FaultEvent
count_lane persistence now_ms k is_stale agrees lane events =
    if lane.faulted
    then (lane, events)
    else if not is_stale && agrees
    then (record lane { misses = 0 }, events)
    else let misses = lane.misses + 1 in
      let onset = if is_stale then FaultType.lane_overrun else FaultType.lane_disagreement in
      let begun =
        (if misses == 1
          then record_event events now_ms Channel.voter onset (lane_number k)
          else events) in
      if leb persistence misses
      then (
        record { faulted = true; misses = misses },
        record_event begun now_ms Channel.voter FaultType.lane_faulted (lane_number k),
      )
      else (record lane { misses = misses }, begun)

unfoldable pub count : Three TelemetryFrame → Three Bool → Lane → ℕ → Voter → Voter
count lanes stale representative now_ms v =
    let turn = λ (k : Lane) (events : List FaultEvent).
      count_lane v.persistence now_ms k (get stale k)
        (lanes_agree (get lanes k) (get lanes representative)) (get v.lanes k) events in
    let (lane_1, events_1) = turn first v.events in
    let (lane_2, events_2) = turn second events_1 in
    let (lane_3, events_3) = turn third events_2 in
    record v {
      lanes = record { lane_1 = lane_1; lane_2 = lane_2; lane_3 = lane_3 };
      events = events_3;
    }

-- A lane in the vote whose output is for another frame.
abbrev pub stale_lanes : Voter → TelemetryFrame → Three TelemetryFrame → Three Bool
stale_lanes v checked lanes =
    tabulate (λ k. not (get v.lanes k).faulted && not (for_this_frame (get lanes k) checked))

abbrev pub eligible_lanes : Voter → Three Bool → Three Bool
eligible_lanes v stale = tabulate (λ k. not (get v.lanes k).faulted && not (get stale k))

abbrev pub exclusion_bit : Voter → Lane → ℕ → ℕ
exclusion_bit v k status = if (get v.lanes k).faulted then bit_or status (lane_bit k) else status

unfoldable pub excluded_status : Voter → ℕ
excluded_status v =
    exclusion_bit v third (exclusion_bit v second (exclusion_bit v first (voter_bit voted)))

unfoldable pub lanes_in_vote : Voter → ℕ
lanes_in_vote v = in_vote first + in_vote second + in_vote third
  where
    in_vote : Lane → ℕ
    in_vote k = if (get v.lanes k).faulted then 0 else 1

-- A cycle whose majority is represented by lane `k`.
unfoldable pub vote_majority :
    Voter → TelemetryFrame → Three TelemetryFrame → Three Bool → Lane → TelemetryFrame × Voter
vote_majority v checked lanes stale k = (
  record (copy_computed (get lanes k) checked) { voter_status = excluded_status v },
  count lanes stale k checked.timestamp_ms
      (record v { held = copy_computed (get lanes k) v.held; in_no_majority = false }),
)

-- A cycle with none: the last vote held and degraded, and one event when the condition begins.
unfoldable pub vote_none : Voter → TelemetryFrame → TelemetryFrame × Voter
unfolding degrade
vote_none v checked = (
  record (degrade (copy_computed v.held checked)) {
    voter_status = bit_or (excluded_status v) (voter_bit VoterStatus.no_majority);
  },
  if v.in_no_majority then v else record v {
    in_no_majority = true;
    events =
        record_event v.events checked.timestamp_ms Channel.voter FaultType.no_majority
          (of_uint (lanes_in_vote v));
  },
)

unfoldable pub vote_on :
    Voter
    → TelemetryFrame
    → Three TelemetryFrame
    → Three Bool
    → Option Lane
    → TelemetryFrame × Voter
vote_on v checked lanes stale none = vote_none v checked
vote_on v checked lanes stale (some k) = vote_majority v checked lanes stale k

-- A new vehicle's first frame discards the held vote, and no exclusion.
unfoldable pub begin_cycle : Voter → TelemetryFrame → Voter
begin_cycle v checked = if has_flag checked new_vehicle then record v { held = cleared } else v

unfoldable pub vote : Voter → TelemetryFrame → Three TelemetryFrame → TelemetryFrame × Voter
vote v checked lanes =
    let v' = begin_cycle v checked in
    let stale = stale_lanes v' checked lanes in
    vote_on v' checked lanes stale (find_representative lanes (eligible_lanes v' stale))

abbrev pub take_events : Voter → List FaultEvent × Voter
take_events v = (v.events, record v { events = [] })

-- `VoterTally`; `summary` only prints it.
pub record VoterTally : Type 0 where
  pub frames : ℕ
  pub no_majority_frames : ℕ
  pub last_status : ℕ
  pub events : ℕ

unfoldable pub account : VoterTally → TelemetryFrame → VoterTally
account t frame = record t {
  frames = t.frames + 1;
  no_majority_frames =
      (if bit_and frame.voter_status (voter_bit VoterStatus.no_majority) == 0
        then t.no_majority_frames
        else t.no_majority_frames + 1);
  last_status = frame.voter_status;
}

unfoldable pub account_events : VoterTally → ℕ → VoterTally
account_events t n = record t { events = t.events + n }
