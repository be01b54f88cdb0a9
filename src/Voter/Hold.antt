-- ===== src/Voter/Hold.antt =====
-- `Voter::vote` of `src/processing/voter.cpp`: what no lane can change, and a cycle with no majority.
use flight_telemetry.Prelude.{
  ℕ, ◌+◌, ◌-◌, ◌*◌, ◌≡◌, refl, Bool, true, Option, none, some, if◌then◌else◌, [], ◌∷◌, ◌++◌,
}
use flight_telemetry.Float.{of_uint}
use flight_telemetry.Frame.{
  TelemetryFrame, Validity, not_judged, no_computed_data, failure_warning, normal, has_flag,
  new_vehicle,
}
use flight_telemetry.Event.{FaultEvent, Channel, FaultType}
use flight_telemetry.Voter.{Voter, vote, vote_on, vote_majority, vote_none, begin_cycle, cleared}
use flight_telemetry.Lanes.{Three, Lane, first, second, third, get}
use flight_telemetry.Voter.Majority.{
  Agreeing, Elected, eligible_in, find_representative-Elected, begin_cycle-lanes,
}

-- The checked frame under another frame's five computed values, their validities and its voter status.
abbrev pub overlay : TelemetryFrame → TelemetryFrame → TelemetryFrame
overlay out checked = record checked {
  baro_altitude_m = out.baro_altitude_m;
  pitch_deg = out.pitch_deg;
  roll_deg = out.roll_deg;
  fused_altitude_m = out.fused_altitude_m;
  vertical_speed_mps = out.vertical_speed_mps;
  baro_altitude_validity = out.baro_altitude_validity;
  pitch_validity = out.pitch_validity;
  roll_validity = out.roll_validity;
  fused_altitude_validity = out.fused_altitude_validity;
  vertical_speed_validity = out.vertical_speed_validity;
  voter_status = out.voter_status;
}

vote_on-raw :
    (v : Voter) (checked : TelemetryFrame) (lanes : Three TelemetryFrame) (stale : Three Bool)
    (r : Option Lane)
    → (vote_on v checked lanes stale r).0 ≡ overlay (vote_on v checked lanes stale r).0 checked
unfolding vote_on vote_majority vote_none
vote_on-raw v checked lanes stale none = refl
vote_on-raw v checked lanes stale (some k) = refl

-- On every branch `vote` emits the checked frame but for the ten computed fields and the voter status:
-- raw fields, statuses, flags, sequence and timestamp are never a lane's.
pub vote-raw :
    (v : Voter) (checked : TelemetryFrame) (lanes : Three TelemetryFrame)
    → (vote v checked lanes).0 ≡ overlay (vote v checked lanes).0 checked
unfolding vote
vote-raw v checked lanes = vote_on-raw _ checked lanes _ _

none-Elected :
    (lanes : Three TelemetryFrame) (eligible : Three Bool) (r : Option Lane)
    → Elected lanes eligible r
    → ((i j : Lane) → ¬ Agreeing lanes eligible i j)
    → r ≡ none
none-Elected lanes eligible none h no_two = refl
none-Elected lanes eligible (some k) (j, g) no_two = absurd (no_two k j g)

-- If no two lanes of the vote agree on this frame, `vote` is `vote_none`.
pub vote-vote_none :
    (v : Voter) (checked : TelemetryFrame) (lanes : Three TelemetryFrame)
    → ((i j : Lane) → ¬ Agreeing lanes (eligible_in v checked lanes) i j)
    → vote v checked lanes ≡ vote_none (begin_cycle v checked) checked
unfolding vote vote_on
vote-vote_none v checked lanes no_two =
    let v' = begin_cycle v checked in
    let e =
      none-Elected lanes (eligible_in v' checked lanes) _ (find_representative-Elected _ _)
        (rw (begin_cycle-lanes v checked) no_two) in
    rw (e, vote_on) refl

-- A verdict no better than a warning: only NORMAL changes.
abbrev pub warned : Validity → Validity
warned not_judged = not_judged
warned no_computed_data = no_computed_data
warned failure_warning = failure_warning
warned normal = failure_warning

-- What is left of something held; of a new vehicle nothing is.
abbrev pub unless {ℓ} : {A : Type ℓ} → Bool → A → A → A
unless is_new fresh kept = if is_new then fresh else kept

abbrev excluded : Voter → Lane → ℕ
excluded v k = if (get v.lanes k).faulted then 1 else 0

-- VOTED and NO_MAJORITY, and 0x2, 0x4 and 0x8 for the lanes out of the vote.
abbrev pub no_majority_status : Voter → ℕ
no_majority_status v =
    0x11 + excluded v first * 0x2 + excluded v second * 0x4 + excluded v third * 0x8

-- The event of the first cycle with no majority: how many of the three lanes are in the vote.
abbrev pub no_majority_event : Voter → TelemetryFrame → FaultEvent
no_majority_event v checked = record {
  timestamp_ms = checked.timestamp_ms;
  channel = Channel.voter;
  type = FaultType.no_majority;
  reserved = 0;
  value = of_uint (3 - (excluded v first + excluded v second + excluded v third));
}

-- The last vote as a frame shows it: its five values, and its validities warned; of a new vehicle nothing.
pub record ShowsLast (is_new : Bool) (last out : TelemetryFrame) : Type 0 where
  pub baro_altitude_m : out.baro_altitude_m ≡ unless is_new 0 last.baro_altitude_m
  pub pitch_deg : out.pitch_deg ≡ unless is_new 0 last.pitch_deg
  pub roll_deg : out.roll_deg ≡ unless is_new 0 last.roll_deg
  pub fused_altitude_m : out.fused_altitude_m ≡ unless is_new 0 last.fused_altitude_m
  pub vertical_speed_mps : out.vertical_speed_mps ≡ unless is_new 0 last.vertical_speed_mps
  pub baro_altitude_validity :
      out.baro_altitude_validity
      ≡ unless is_new no_computed_data (warned last.baro_altitude_validity)
  pub pitch_validity :
      out.pitch_validity ≡ unless is_new no_computed_data (warned last.pitch_validity)
  pub roll_validity : out.roll_validity ≡ unless is_new no_computed_data (warned last.roll_validity)
  pub fused_altitude_validity :
      out.fused_altitude_validity
      ≡ unless is_new no_computed_data (warned last.fused_altitude_validity)
  pub vertical_speed_validity :
      out.vertical_speed_validity
      ≡ unless is_new no_computed_data (warned last.vertical_speed_validity)

-- What a cycle with no majority does, by the state before it.
pub record Held (v : Voter) (checked out : TelemetryFrame) (w : Voter) : Type 0 where
  pub shows : ShowsLast (has_flag checked new_vehicle) v.held out
  pub raw : out ≡ overlay out checked
  pub status : out.voter_status ≡ no_majority_status v
  pub lanes : w.lanes ≡ v.lanes
  pub held : w.held ≡ unless (has_flag checked new_vehicle) cleared v.held
  pub flagged : w.in_no_majority ≡ true
  pub events :
      w.events
      ≡ (if v.in_no_majority then v.events else v.events ++ (no_majority_event v checked ∷ []))
