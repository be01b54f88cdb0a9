-- ===== src/Voter/Exclusion.antt =====
-- `Voter::count` of `src/processing/voter.cpp` along a run: which lanes stay in the vote.
use flight_telemetry.Prelude.{
  ℕ, ◌+◌, ◌≤◌, ◌<◌, ◌≡◌, ◌≢◌, refl, Bool, true, false, not, ◌&&◌, Option, none, some, arith,
  if◌then◌else◌, ◌∙◌, ap, List, [], ◌∷◌, leb,
}
use flight_telemetry.Frame.{TelemetryFrame}
use flight_telemetry.Event.{FaultEvent}
use flight_telemetry.Voter.{
  LaneState, Voter, vote, vote_on, vote_majority, vote_none, begin_cycle, stale_lanes,
  eligible_lanes, count, count_lane, lanes_in_vote,
}
use flight_telemetry.Lanes.{Three, Lane, first, second, third, get, lanes_agree}
use flight_telemetry.Voter.Agreement.{lanes_agree_sym, lanes_agree_trans}
use flight_telemetry.Voter.Majority.{
  Agreeing, Elected, find_representative-Elected, begin_cycle-lanes,
}

-- A lane's state after a cycle with a majority, which it was inside of or outside of.
unfoldable pub next_lane : ℕ → Bool → LaneState → LaneState
next_lane p inside s =
    if s.faulted
    then s
    else if inside
    then record { faulted = false; misses = 0 }
    else record { faulted = leb p (s.misses + 1); misses = s.misses + 1 }

count_lane-next_lane :
    (p now : ℕ) (k : Lane) (is_stale agrees : Bool) (s : LaneState) (es : List FaultEvent)
    → (count_lane p now k is_stale agrees s es).0 ≡ next_lane p (not is_stale && agrees) s
unfolding count_lane next_lane
count_lane-next_lane p now k is_stale agrees s es = ground arith

abbrev pub inside : Three TelemetryFrame → Three Bool → Lane → Lane → Bool
inside lanes stale r k = not (get stale k) && lanes_agree (get lanes k) (get lanes r)

pub count-next_lane :
    (lanes : Three TelemetryFrame) (stale : Three Bool) (r : Lane) (now : ℕ) (v : Voter) (k : Lane)
    → get (count lanes stale r now v).lanes k
      ≡ next_lane v.persistence (inside lanes stale r k) (get v.lanes k)
unfolding count
count-next_lane lanes stale r now v first = count_lane-next_lane _ _ _ _ _ _ _
count-next_lane lanes stale r now v second = count_lane-next_lane _ _ _ _ _ _ _
count-next_lane lanes stale r now v third = count_lane-next_lane _ _ _ _ _ _ _

pub begin_cycle-persistence :
    (v : Voter) (checked : TelemetryFrame) → (begin_cycle v checked).persistence ≡ v.persistence
unfolding begin_cycle
begin_cycle-persistence v checked = ground arith

count-persistence :
    (lanes : Three TelemetryFrame) (stale : Three Bool) (r : Lane) (now : ℕ) (v : Voter)
    → (count lanes stale r now v).persistence ≡ v.persistence
unfolding count
count-persistence lanes stale r now v = refl

vote_none-lanes : (v : Voter) (checked : TelemetryFrame) → (vote_none v checked).1.lanes ≡ v.lanes
unfolding vote_none
vote_none-lanes v checked = ground arith

-- A cycle either leaves every lane's state alone, or has a majority and moves each by `next_lane`.
pub data Moved (v w : Voter) (lanes : Three TelemetryFrame) (stale : Three Bool) : Type 0 where
  kept : w.lanes ≡ v.lanes → Moved v w lanes stale
  counted :
      (k l : Lane)
      → Agreeing lanes (eligible_lanes v stale) k l
      → ((m : Lane)
          → get w.lanes m ≡ next_lane v.persistence (inside lanes stale k m) (get v.lanes m))
      → Moved v w lanes stale

vote_on-Moved :
    (v : Voter) (checked : TelemetryFrame) (lanes : Three TelemetryFrame) (stale : Three Bool)
    (r : Option Lane)
    → Elected lanes (eligible_lanes v stale) r
    → Moved v (vote_on v checked lanes stale r).1 lanes stale
unfolding vote_on vote_majority
vote_on-Moved v checked lanes stale none h = kept (vote_none-lanes v checked)
vote_on-Moved v checked lanes stale (some k) (l, g) =
    counted k l g (λ m. count-next_lane _ _ _ _ _ m)

Moved-begin_cycle :
    (v w : Voter) (checked : TelemetryFrame) (lanes : Three TelemetryFrame)
    → Moved (begin_cycle v checked) w lanes (stale_lanes (begin_cycle v checked) checked lanes)
    → Moved v w lanes (stale_lanes v checked lanes)
Moved-begin_cycle v w checked lanes (kept e) = kept (e ∙ begin_cycle-lanes v checked)
Moved-begin_cycle v w checked lanes (counted k l g h) =
    counted k l (rw (begin_cycle-lanes v checked) at g)
      (λ m. rw (begin_cycle-lanes v checked, begin_cycle-persistence v checked) at (h m))

pub vote-Moved :
    (v : Voter) (checked : TelemetryFrame) (lanes : Three TelemetryFrame)
    → Moved v (vote v checked lanes).1 lanes (stale_lanes v checked lanes)
unfolding vote
vote-Moved v checked lanes =
    Moved-begin_cycle v _ checked lanes
      (vote_on-Moved (begin_cycle v checked) checked lanes _ _ (find_representative-Elected _ _))

vote_on-persistence :
    (v : Voter) (checked : TelemetryFrame) (lanes : Three TelemetryFrame) (stale : Three Bool)
    (r : Option Lane)
    → (vote_on v checked lanes stale r).1.persistence ≡ v.persistence
unfolding vote_on vote_majority vote_none
vote_on-persistence v checked lanes stale none = ground arith
vote_on-persistence v checked lanes stale (some k) = count-persistence _ _ _ _ _

pub vote-persistence :
    (v : Voter) (checked : TelemetryFrame) (lanes : Three TelemetryFrame)
    → (vote v checked lanes).1.persistence ≡ v.persistence
unfolding vote
vote-persistence v checked lanes =
    vote_on-persistence (begin_cycle v checked) checked lanes _ _
    ∙ begin_cycle-persistence v checked

-- A cycle: the checked frame and the three lanes' outputs.
abbrev pub Cycle : Type 0
Cycle = TelemetryFrame × Three TelemetryFrame

-- The voter after a run of cycles.
unfoldable pub run_votes : Voter → List Cycle → Voter
run_votes v [] = v
run_votes v ((checked, lanes) ∷ cycles) = run_votes (vote v checked lanes).1 cycles

-- At least two lanes are in the vote, and the count of each lane that is in stays below the limit.
pub record IsSound (v : Voter) : Type 0 where
  pub two : 2 ≤ lanes_in_vote v
  pub below : (m : Lane) → (get v.lanes m).faulted ≡ false → (get v.lanes m).misses < v.persistence

two_in :
    (v : Voter) (i j : Lane)
    → i ≢ j
    → (get v.lanes i).faulted ≡ false
    → (get v.lanes j).faulted ≡ false
    → 2 ≤ lanes_in_vote v
unfolding lanes_in_vote
two_in v i j d p q = ground arith

pub next_lane_inside :
    (p : ℕ) (s : LaneState)
    → s.faulted ≡ false
    → next_lane p true s ≡ record { faulted = false; misses = 0 }
unfolding next_lane
next_lane_inside p s e = rw e refl

next_lane_below :
    (p : ℕ) (b : Bool) (s : LaneState)
    → (s.faulted ≡ false → s.misses < p)
    → 0 < p
    → (next_lane p b s).faulted ≡ false
    → (next_lane p b s).misses < p
unfolding next_lane
next_lane_below p b s h z e = ground arith

pub next_lane_faulted :
    (p : ℕ) (b : Bool) (s : LaneState) → s.faulted ≡ true → (next_lane p b s).faulted ≡ true
unfolding next_lane
next_lane_faulted p b s e = ground arith

-- The lanes of an agreeing pair are in the vote, and inside their own majority.
eligible_split :
    (v : Voter) (stale : Three Bool) (k : Lane)
    → get (eligible_lanes v stale) k ≡ true
    → ((get v.lanes k).faulted ≡ false) × (get stale k ≡ false)
eligible_split v stale first h = ground arith
eligible_split v stale second h = ground arith
eligible_split v stale third h = ground arith

majority_stays :
    (v w : Voter) (lanes : Three TelemetryFrame) (stale : Three Bool) (k m : Lane)
    → get (eligible_lanes v stale) m ≡ true
    → lanes_agree (get lanes m) (get lanes k) ≡ true
    → get w.lanes m ≡ next_lane v.persistence (inside lanes stale k m) (get v.lanes m)
    → get w.lanes m ≡ record { faulted = false; misses = 0 }
majority_stays v w lanes stale k m g a h =
    let (out, fresh) = eligible_split v stale m g in
    h ∙ rw (fresh, a) (next_lane_inside v.persistence (get v.lanes m) out)

lanes_in_vote-lanes : (v w : Voter) → w.lanes ≡ v.lanes → lanes_in_vote w ≡ lanes_in_vote v
unfolding lanes_in_vote
lanes_in_vote-lanes v w e = rw e refl

-- A lane inside the majority starts its count again.
in_majority :
    (v w : Voter) (lanes : Three TelemetryFrame) (stale : Three Bool) (k l : Lane)
    → Agreeing lanes (eligible_lanes v stale) k l
    → ((m : Lane)
        → get w.lanes m ≡ next_lane v.persistence (inside lanes stale k m) (get v.lanes m))
    → (get w.lanes k ≡ record { faulted = false; misses = 0 })
      × (get w.lanes l ≡ record { faulted = false; misses = 0 })
in_majority v w lanes stale k l g h =
    let back = lanes_agree_sym _ _ g.agree in
    (
      majority_stays v w lanes stale k k g.left (lanes_agree_trans _ _ _ g.agree back) (h k),
      majority_stays v w lanes stale k l g.right back (h l),
    )

-- One cycle keeps at least two lanes in the vote, and every count below the limit.
pub vote-IsSound :
    (v : Voter) (checked : TelemetryFrame) (lanes : Three TelemetryFrame)
    → 0 < v.persistence
    → IsSound v
    → IsSound (vote v checked lanes).1
vote-IsSound v checked lanes z s = moved (vote-Moved v checked lanes)
  where
    w : Voter
    w = (vote v checked lanes).1

    moved : Moved v w lanes (stale_lanes v checked lanes) → IsSound w
    moved (kept e) = record {
      two = rw (lanes_in_vote-lanes v w e) s.two;
      below = λ m f. rw (e, vote-persistence v checked lanes) (s.below m (rw e at f));
    }
    moved (counted k l g h) =
        let (at_k, at_l) = in_majority v w lanes _ k l g h in
        record {
          two = two_in w k l g.distinct (ap LaneState.faulted at_k) (ap LaneState.faulted at_l);
          below = λ m f.
              rw (h m, vote-persistence v checked lanes)
                (next_lane_below _ _ _ (s.below m) z (rw (h m) at f));
        }
