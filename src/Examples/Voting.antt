-- ===== src/Examples/Voting.antt =====
-- Runs of `src/processing/voter.cpp`.
use flight_telemetry.Prelude.{◌≡◌, ◌<◌, ◌≤◌, refl, true, false, List, [], ◌∷◌, arith, ◌↔◌}
use flight_telemetry.Frame.{TelemetryFrame, zero_frame, normal}
use flight_telemetry.Lanes.{
  first, second, third, Three, get, tabulate, copy_computed, lanes_agree, for_this_frame,
  floats_agree,
}
use flight_telemetry.Voter.{voter_init, vote, excluded_status, Voter}
use flight_telemetry.Voter.Agreement.{IsNumeric, SameVerdict, lanes_agree_iff}
use flight_telemetry.Voter.Majority.{Majority}
use flight_telemetry.Voter.Masking.{vote_masks}
use flight_telemetry.Voter.Exclusion.{Cycle, run_votes, IsSound}
use flight_telemetry.Voter.Runs.{Splits, excluded_after_persistence, at_least_two_lanes}
use flight_telemetry.Voter.Hold.{vote-raw, overlay}
use flight_telemetry.Examples.Data.{reading, outputs}

-- All lanes in the vote and a persistence of 2.
abbrev new_voter : Voter
new_voter = record {
  persistence = 2;
  lanes = tabulate (λ _. record { faulted = false; misses = 0 });
  held = record zero_frame { pitch_deg = 0x3f80_0000; pitch_validity = normal };
  in_no_majority = false;
  events = [];
}

two_agree : Majority new_voter (reading 100) outputs first second
unfolding for_this_frame lanes_agree floats_agree
two_agree = record {
  distinct = λ e. cc;
  left_in = refl;
  right_in = refl;
  left_fresh = refl;
  right_fresh = refl;
  agree = refl;
}

vote_masks_example :
    (vote new_voter (reading 100) outputs).0 ≡ record (copy_computed (reading 100) (reading 100)) {
      voter_status = excluded_status new_voter;
    }
vote_masks_example = vote_masks new_voter (reading 100) outputs first second two_agree

abbrev two_cycles : List Cycle
two_cycles = (reading 100, outputs) ∷ (reading 100, outputs) ∷ []

split : Splits first second third (reading 100, outputs)
unfolding for_this_frame lanes_agree floats_agree
split = record { left_fresh = refl; right_fresh = refl; agree = refl; outside = refl }

excluded_after_persistence_example :
    let s = get (run_votes new_voter two_cycles).lanes third in
    (2 < 2 → (s.faulted ≡ false) × (s.misses ≡ 2)) × (2 ≤ 2 → s.faulted ≡ true)
excluded_after_persistence_example =
    excluded_after_persistence new_voter first second third two_cycles (λ e. cc) refl refl refl
      (omega arith) (split, (split, tt))

at_least_two_lanes_example : IsSound (run_votes (voter_init 2) two_cycles)
at_least_two_lanes_example = at_least_two_lanes 2 two_cycles (omega arith)

vote-raw_example :
    (vote new_voter (reading 100) outputs).0
    ≡ overlay (vote new_voter (reading 100) outputs).0 (reading 100)
vote-raw_example = vote-raw new_voter (reading 100) outputs

-- Every lane says something else.
abbrev three_ways : Three TelemetryFrame
three_ways = record outputs { lane_2 = record (reading 100) { pitch_deg = 0x3f80_0000 } }

lanes_agree_iff_example :
    (lanes_agree (reading 100) (reading 200) ≡ true)
    ↔ (SameVerdict (reading 100) (reading 200) × IsNumeric (reading 100))
lanes_agree_iff_example = lanes_agree_iff (reading 100) (reading 200)
