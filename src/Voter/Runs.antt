-- ===== src/Voter/Runs.antt =====
-- The voter of `src/processing/voter.cpp` over runs of cycles: exclusion after `persistence` misses in
-- a row, for good, and never of the last two lanes.
use flight_telemetry.Prelude.{
  ℕ, suc, ◌+◌, ◌≤◌, ◌<◌, ◌≡◌, ◌≢◌, refl, Bool, true, false, not, ◌&&◌, arith, Bool-cases, ◌∙◌, ap,
  List, [], ◌∷◌, leb, length, All, inl, inr, subst,
}
use native.Mathlib.Decide.{dec_lt}
use native.Mathlib.Nat.{add-zero, zero-add}
use flight_telemetry.Frame.{TelemetryFrame}
use flight_telemetry.Voter.{
  LaneState, Voter, voter_init, vote, vote_majority, begin_cycle, stale_lanes, lanes_in_vote,
}
use flight_telemetry.Lanes.{Three, Lane, first, second, third, get, lanes_agree, for_this_frame}
use flight_telemetry.Voter.Agreement.{lanes_agree_sym, lanes_agree_trans}
use flight_telemetry.Voter.Majority.{Majority, begin_cycle-lanes}
use flight_telemetry.Voter.Masking.{vote-Majority}
use flight_telemetry.Voter.Exclusion.{
  kept, counted, vote-Moved, vote-persistence, next_lane, inside, count-next_lane, next_lane_inside,
  next_lane_faulted, begin_cycle-persistence, Cycle, run_votes, IsSound, vote-IsSound,
}

voter_init-IsSound : (p : ℕ) → 0 < p → IsSound (voter_init p)
unfolding voter_init lanes_in_vote
voter_init-IsSound p z = record { two = omega arith; below = below }
  where
    below :
        (m : Lane)
        → (get (voter_init p).lanes m).faulted ≡ false
        → (get (voter_init p).lanes m).misses < p
    below first f = z
    below second f = z
    below third f = z

run_votes-IsSound :
    (v : Voter) (cycles : List Cycle) → 0 < v.persistence → IsSound v → IsSound (run_votes v cycles)
unfolding run_votes
run_votes-IsSound v [] z s = s
run_votes-IsSound v ((checked, lanes) ∷ cycles) z s =
    run_votes-IsSound (vote v checked lanes).1 cycles (rw (vote-persistence v checked lanes) z)
      (vote-IsSound v checked lanes z s)

-- Whatever the lanes hand in, for however long, at least two lanes stay in the vote, and the count of a
-- lane that is in stays below the persistence, if that is positive.
pub at_least_two_lanes :
    (p : ℕ) (cycles : List Cycle) → 0 < p → IsSound (run_votes (voter_init p) cycles)
unfolding voter_init
at_least_two_lanes p cycles z = run_votes-IsSound (voter_init p) cycles z (voter_init-IsSound p z)

vote-faulted :
    (v : Voter) (checked : TelemetryFrame) (lanes : Three TelemetryFrame) (m : Lane)
    → (get v.lanes m).faulted ≡ true
    → (get (vote v checked lanes).1.lanes m).faulted ≡ true
vote-faulted v checked lanes m f = elim (vote-Moved v checked lanes) [
  | kept e ↦ rw e f
  | counted k l g h ↦ rw (h m) (next_lane_faulted _ _ _ f)
]

-- An excluded lane stays excluded.
pub run_votes-faulted :
    (v : Voter) (cycles : List Cycle) (m : Lane)
    → (get v.lanes m).faulted ≡ true
    → (get (run_votes v cycles).lanes m).faulted ≡ true
unfolding run_votes
run_votes-faulted v [] m f = f
run_votes-faulted v ((checked, lanes) ∷ cycles) m f =
    run_votes-faulted (vote v checked lanes).1 cycles m (vote-faulted v checked lanes m f)

-- A cycle on which `i` and `j` agree on this frame, and `k` is late or says something else.
pub record Splits (i j k : Lane) (c : Cycle) : Type 0 where
  pub left_fresh : for_this_frame (get c.1 i) c.0 ≡ true
  pub right_fresh : for_this_frame (get c.1 j) c.0 ≡ true
  pub agree : lanes_agree (get c.1 i) (get c.1 j) ≡ true
  pub outside : for_this_frame (get c.1 k) c.0 && lanes_agree (get c.1 k) (get c.1 i) ≡ false

Splits-Majority :
    (v : Voter) (i j k : Lane) (c : Cycle)
    → i ≢ j
    → (get v.lanes i).faulted ≡ false
    → (get v.lanes j).faulted ≡ false
    → Splits i j k c
    → Majority v c.0 c.1 i j
Splits-Majority v i j k c d p q s = record {
  distinct = d;
  left_in = p;
  right_in = q;
  left_fresh = s.left_fresh;
  right_fresh = s.right_fresh;
  agree = s.agree;
}

get-stale_lanes :
    (v : Voter) (checked : TelemetryFrame) (lanes : Three TelemetryFrame) (m : Lane)
    → get (stale_lanes v checked lanes) m
      ≡ (not (get v.lanes m).faulted && not (for_this_frame (get lanes m) checked))
get-stale_lanes v checked lanes first = refl
get-stale_lanes v checked lanes second = refl
get-stale_lanes v checked lanes third = refl

same_truth : (a b : Bool) → (a ≡ true → b ≡ true) → (b ≡ true → a ≡ true) → a ≡ b
same_truth a b p q = ground arith

agree-representative :
    (a b c : TelemetryFrame) → lanes_agree b c ≡ true → lanes_agree a c ≡ lanes_agree a b
agree-representative a b c h =
    same_truth _ _ (λ p. lanes_agree_trans a c b p (lanes_agree_sym b c h))
      (λ p. lanes_agree_trans a b c p h)

inside_fresh :
    (v : Voter) (checked : TelemetryFrame) (lanes : Three TelemetryFrame) (r m : Lane)
    → (get v.lanes m).faulted ≡ false
    → inside lanes (stale_lanes v checked lanes) r m
      ≡ (for_this_frame (get lanes m) checked && lanes_agree (get lanes m) (get lanes r))
inside_fresh v checked lanes r m f =
    rw (get-stale_lanes v checked lanes m, f)
      (elim (Bool-cases (for_this_frame (get lanes m) checked)) [
        | inl e ↦ rw e refl
        | inr e ↦ rw e refl
      ])

-- After a cycle with a majority, a lane of the vote has moved by whether it was for this frame and
-- agreed with the majority.
pub vote-next_lane :
    (v : Voter) (checked : TelemetryFrame) (lanes : Three TelemetryFrame) (i j m : Lane)
    → Majority v checked lanes i j
    → (get v.lanes m).faulted ≡ false
    → get (vote v checked lanes).1.lanes m
      ≡ next_lane v.persistence
          (for_this_frame (get lanes m) checked && lanes_agree (get lanes m) (get lanes i))
          (get v.lanes m)
unfolding vote_majority
vote-next_lane v checked lanes i j m g f =
    let (r, a, e) = vote-Majority v checked lanes i j g in
    let v' = begin_cycle v checked in
    let f' : (get v'.lanes m).faulted ≡ false = rw (begin_cycle-lanes v checked) f in
    ap (λ (t : TelemetryFrame × Voter). get t.1.lanes m) e
    ∙ count-next_lane lanes (stale_lanes v' checked lanes) r checked.timestamp_ms _ m
    ∙ rw
        (
          inside_fresh v' checked lanes r m f',
          agree-representative (get lanes m) _ _ a,
          begin_cycle-lanes v checked,
          begin_cycle-persistence v checked,
        )
        refl

-- The lanes of a majority stay in the vote.
pub Majority-stays :
    (v : Voter) (checked : TelemetryFrame) (lanes : Three TelemetryFrame) (i j : Lane)
    → Majority v checked lanes i j
    → ((get (vote v checked lanes).1.lanes i).faulted ≡ false)
      × ((get (vote v checked lanes).1.lanes j).faulted ≡ false)
Majority-stays v checked lanes i j g =
    let same = lanes_agree_sym _ _ g.agree in
    let at_i : get (vote v checked lanes).1.lanes i ≡ record { faulted = false; misses = 0 } =
      vote-next_lane v checked lanes i j i g g.left_in
      ∙ rw (g.left_fresh, lanes_agree_trans _ _ _ g.agree same)
          (next_lane_inside v.persistence _ g.left_in) in
    let at_j : get (vote v checked lanes).1.lanes j ≡ record { faulted = false; misses = 0 } =
      vote-next_lane v checked lanes i j j g g.right_in
      ∙ rw (g.right_fresh, same) (next_lane_inside v.persistence _ g.right_in) in
    (ap LaneState.faulted at_i, ap LaneState.faulted at_j)

next_lane_outside :
    (p n : ℕ) (s : LaneState)
    → s.faulted ≡ false
    → s.misses ≡ n
    → next_lane p false s ≡ record { faulted = leb p (n + 1); misses = n + 1 }
unfolding next_lane
next_lane_outside p n s f e = rw (f, e) refl

-- The lane's state after `n` misses in a row, and before the next.
abbrev Missed : ℕ → ℕ → LaneState → Type 0
Missed p n s = (n < p → (s.faulted ≡ false) × (s.misses ≡ n)) × (p ≤ n → s.faulted ≡ true)

vote-Missed :
    (v : Voter) (i j k : Lane) (n : ℕ) (c : Cycle)
    → i ≢ j
    → (get v.lanes i).faulted ≡ false
    → (get v.lanes j).faulted ≡ false
    → Missed v.persistence n (get v.lanes k)
    → Splits i j k c
    → Missed v.persistence (suc n) (get (vote v c.0 c.1).1.lanes k)
vote-Missed v i j k n c d p q h s = elim (dec_lt n v.persistence) [
  | yes lt ↦
      let (f, e) = h.0 lt in
      let moved : get (vote v c.0 c.1).1.lanes k
          ≡ record { faulted = leb v.persistence (n + 1); misses = n + 1 } =
        vote-next_lane v c.0 c.1 i j k (Splits-Majority v i j k c d p q s) f
        ∙ rw s.outside (next_lane_outside v.persistence n _ f e) in
      rw moved (λ below. (ground arith, omega arith), λ reached. ground arith)
  | no ge ↦ (λ below. absurd (omega arith), λ _. vote-faulted v c.0 c.1 k (h.1 (omega arith)))
]

miss_run :
    (v : Voter) (i j k : Lane) (n : ℕ) (cycles : List Cycle)
    → i ≢ j
    → (get v.lanes i).faulted ≡ false
    → (get v.lanes j).faulted ≡ false
    → Missed v.persistence n (get v.lanes k)
    → All (Splits i j k) cycles
    → Missed v.persistence (n + length cycles) (get (run_votes v cycles).lanes k)
unfolding run_votes
miss_run v i j k n [] d p q h _ = rw add-zero h
miss_run v i j k n (c ∷ cycles) d p q h (s, ss) =
    let w = (vote v c.0 c.1).1 in
    let (p', q') = Majority-stays v c.0 c.1 i j (Splits-Majority v i j k c d p q s) in
    let rest =
      miss_run w i j k (suc n) cycles d p' q'
        (rw (vote-persistence v c.0 c.1) (vote-Missed v i j k n c d p q h s)) ss in
    let at_end : suc n + length cycles ≡ n + suc (length cycles) = omega arith in
    rw (vote-persistence v c.0 c.1) at
      (subst (λ t. Missed w.persistence t (get (run_votes w cycles).lanes k)) at_end rest)

-- A lane in the vote with no miss so far, that on every cycle of a run is late or disagrees with two
-- agreeing lanes of the vote, is in with as many misses as cycles while these are fewer than the
-- persistence, and excluded from then on.
pub excluded_after_persistence :
    (v : Voter) (i j k : Lane) (cycles : List Cycle)
    → i ≢ j
    → (get v.lanes i).faulted ≡ false
    → (get v.lanes j).faulted ≡ false
    → get v.lanes k ≡ record { faulted = false; misses = 0 }
    → 0 < v.persistence
    → All (Splits i j k) cycles
    → let s = get (run_votes v cycles).lanes k in
      (length cycles < v.persistence → (s.faulted ≡ false) × (s.misses ≡ length cycles))
      × (v.persistence ≤ length cycles → s.faulted ≡ true)
excluded_after_persistence v i j k cycles d p q e z ss =
    rw zero-add at
      (miss_run v i j k 0 cycles d p q (rw e (λ _. (refl, refl), λ h. absurd (omega arith))) ss)
