-- ===== src/Voter/Masking.antt =====
-- `Voter::vote` on a cycle with a majority: the frame is the majority's, and so is the lanes' state.
use flight_telemetry.Prelude.{◌≡◌, refl, true, sym, ap}
use flight_telemetry.Frame.{TelemetryFrame}
use flight_telemetry.Voter.{
  Voter, vote, vote_on, vote_majority, begin_cycle, stale_lanes, excluded_status,
}
use flight_telemetry.Lanes.{Three, Lane, get, lanes_agree, copy_computed}
use flight_telemetry.Voter.Agreement.{lanes_agree_iff}
use flight_telemetry.Voter.Majority.{
  Majority, Majority-Agreeing, eligible_in, find_representative-Agreeing, begin_cycle-lanes,
  copy_computed-SameVerdict,
}

Majority-begin_cycle :
    (v : Voter) (checked : TelemetryFrame) (lanes : Three TelemetryFrame) (i j : Lane)
    → Majority v checked lanes i j
    → Majority (begin_cycle v checked) checked lanes i j
Majority-begin_cycle v checked lanes i j m = record {
  distinct = m.distinct;
  left_in = rw (begin_cycle-lanes v checked) m.left_in;
  right_in = rw (begin_cycle-lanes v checked) m.right_in;
  left_fresh = m.left_fresh;
  right_fresh = m.right_fresh;
  agree = m.agree;
}

pub excluded_status-begin_cycle :
    (v : Voter) (checked : TelemetryFrame)
    → excluded_status (begin_cycle v checked) ≡ excluded_status v
unfolding excluded_status
excluded_status-begin_cycle v checked = rw (begin_cycle-lanes v checked) refl

-- With a majority, `vote` is `vote_majority` at a representative that the given lanes agree with.
pub vote-Majority :
    (v : Voter) (checked : TelemetryFrame) (lanes : Three TelemetryFrame) (i j : Lane)
    → Majority v checked lanes i j
    → let v' = begin_cycle v checked in
      (k : Lane) × (lanes_agree (get lanes i) (get lanes k) ≡ true)
      × (vote v checked lanes ≡ vote_majority v' checked lanes (stale_lanes v' checked lanes) k)
unfolding vote vote_on
vote-Majority v checked lanes i j m =
    let v' = begin_cycle v checked in
    let (k, l, e, g, a) =
      find_representative-Agreeing lanes (eligible_in v' checked lanes) i j
        (Majority-Agreeing v' checked lanes i j (Majority-begin_cycle v checked lanes i j m)) in
    (k, a, rw (e, vote_on) refl)

-- If two lanes of the vote agree on this frame, the frame that `vote` emits is the checked one with
-- their computed fields and the bits of the lanes excluded before, whatever the third lane says.
pub vote_masks :
    (v : Voter) (checked : TelemetryFrame) (lanes : Three TelemetryFrame) (i j : Lane)
    → Majority v checked lanes i j
    → (vote v checked lanes).0
      ≡ record (copy_computed (get lanes i) checked) { voter_status = excluded_status v }
unfolding vote_majority
vote_masks v checked lanes i j m =
    let (k, a, e) = vote-Majority v checked lanes i j m in
    let same =
      copy_computed-SameVerdict (get lanes i) (get lanes k) checked ((lanes_agree_iff _ _).0 a).0 in
    rw (e, vote_majority, excluded_status-begin_cycle v checked)
      (ap (λ (f : TelemetryFrame). record f { voter_status = excluded_status v }) (sym same))
