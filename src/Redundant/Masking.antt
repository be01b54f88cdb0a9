-- ===== src/Redundant/Masking.antt =====
-- The three lanes of `src/processing/redundant_processor.cpp` against one lane alone: whatever a hook
-- does to a single lane, the emitted frames are the healthy lane's.
use flight_telemetry.Prelude.{
  ℕ, ◌≡◌, ◌≢◌, refl, true, false, arith, ◌==◌, Option, List, [], ◌∷◌, map, ◌∙◌, All, sym, ap,
}
use flight_telemetry.Float.{FloatOps}
use flight_telemetry.Frame.{TelemetryFrame}
use flight_telemetry.Lanes.{Three, Lane, first, second, third, get, for_this_frame, copy_computed}
use flight_telemetry.Voter.{LaneState, voter_init, excluded_status}
use flight_telemetry.Voter.Agreement.{IsNumeric, lanes_agree_refl}
use flight_telemetry.Voter.Majority.{Majority, get-tabulate}
use flight_telemetry.Voter.Masking.{vote_masks}
use flight_telemetry.Voter.Runs.{Majority-stays}
use flight_telemetry.Processor
use flight_telemetry.Processor.{
  TelemetryProcessor, ProcessorConfig, processor_init, advance, judge, compute,
}
use flight_telemetry.Redundant.{
  LaneFaultHook, RedundantProcessor, redundant_init, on_input, on_output, run_lane, run_lanes,
  process, process_all,
}

-- The hook hands lane `m` its frames unaltered, whatever its own state.
pub record LeavesAlone {ℓ} {H : Type ℓ} (hook : Option (LaneFaultHook H)) (m : Lane) : Type ℓ where
  pub input : (h : H) (f : TelemetryFrame) → (on_input hook h m f).0 ≡ f
  pub output : (h : H) (f : TelemetryFrame) → (on_output hook h m f).0 ≡ f

-- One lane alone, over the same frames.
unfoldable pub lane_all : FloatOps → TelemetryProcessor → List TelemetryFrame → List TelemetryFrame
lane_all ops p [] = []
lane_all ops p (checked ∷ frames) =
    let (out, p') = Processor.process ops p checked in out ∷ lane_all ops p' frames

-- A frame with its voter status replaced.
abbrev pub with_status : ℕ → TelemetryFrame → TelemetryFrame
with_status status f = record f { voter_status = status }

byte_refl : (n : ℕ) → (n == n) ≡ true
byte_refl n = ground arith

module _ (ops : FloatOps) where
  -- A lane changes the ten computed fields and nothing else.
  pub process-overlay :
      (p : TelemetryProcessor) (checked : TelemetryFrame)
      → let out = (Processor.process ops p checked).0 in out ≡ copy_computed out checked
  unfolding Processor.process judge compute
  process-overlay p checked = refl

  process-for_this_frame :
      (p : TelemetryProcessor) (checked : TelemetryFrame)
      → for_this_frame (Processor.process ops p checked).0 checked ≡ true
  unfolding Processor.process judge compute for_this_frame
  process-for_this_frame p checked =
      rw (byte_refl checked.timestamp_ms, byte_refl checked.sequence) refl

  module _ {ℓ} {H : Type ℓ} (hook : Option (LaneFaultHook H)) where
    run_lane-alone :
        (h : H) (m : Lane) (p : TelemetryProcessor) (checked : TelemetryFrame)
        → LeavesAlone hook m
        → ((run_lane ops hook h m p checked).0 ≡ (Processor.process ops p checked).0)
          × ((run_lane ops hook h m p checked).1 ≡ (Processor.process ops p checked).1)
    unfolding run_lane
    run_lane-alone h m p checked u =
        let same = u.input h checked in
        (
          u.output _ _ ∙ ap (λ (f : TelemetryFrame). (Processor.process ops p f).0) same,
          ap (λ (f : TelemetryFrame). (Processor.process ops p f).1) same,
        )

    run_lanes-alone :
        (h : H) (m : Lane) (lanes : Three TelemetryProcessor) (checked : TelemetryFrame)
        → LeavesAlone hook m
        → let (outputs, lanes', _) = run_lanes ops hook h lanes checked in
          (get outputs m ≡ (Processor.process ops (get lanes m) checked).0)
          × (get lanes' m ≡ (Processor.process ops (get lanes m) checked).1)
    unfolding run_lanes
    run_lanes-alone h first lanes checked u = run_lane-alone h first lanes.lane_1 checked u
    run_lanes-alone h second lanes checked u = run_lane-alone _ second lanes.lane_2 checked u
    run_lanes-alone h third lanes checked u = run_lane-alone _ third lanes.lane_3 checked u

    -- Two lanes in the vote whose states are the healthy lane's.
    pub record Healthy (i j : Lane) (p : TelemetryProcessor) (r : RedundantProcessor) : Type 0 where
      pub left : get r.lanes i ≡ p
      pub right : get r.lanes j ≡ p
      pub left_in : (get r.voter.lanes i).faulted ≡ false
      pub right_in : (get r.voter.lanes j).faulted ≡ false

    two_lanes-Majority :
        (i j : Lane) (p : TelemetryProcessor) (r : RedundantProcessor) (h : H)
        (checked : TelemetryFrame)
        → i ≢ j
        → LeavesAlone hook i
        → LeavesAlone hook j
        → Healthy i j p r
        → IsNumeric (Processor.process ops p checked).0
        → Majority r.voter checked (run_lanes ops hook h r.lanes checked).0 i j
    two_lanes-Majority i j p r h checked d u v healthy n =
        let at_i = (run_lanes-alone h i r.lanes checked u).0 in
        let at_j = (run_lanes-alone h j r.lanes checked v).0 in
        let fresh = process-for_this_frame p checked in
        record {
          distinct = d;
          left_in = healthy.left_in;
          right_in = healthy.right_in;
          left_fresh = rw (at_i, healthy.left) fresh;
          right_fresh = rw (at_j, healthy.right) fresh;
          agree = rw (at_i, at_j, healthy.left, healthy.right) (lanes_agree_refl _ n);
        }

    -- One cycle: the frame is the healthy lane's but for the voter status, and both lanes stay healthy.
    pub process-Healthy :
        (i j : Lane) (p : TelemetryProcessor) (r : RedundantProcessor) (h : H)
        (checked : TelemetryFrame)
        → i ≢ j
        → LeavesAlone hook i
        → LeavesAlone hook j
        → Healthy i j p r
        → IsNumeric (Processor.process ops p checked).0
        → let (out, r', _) = process ops hook h r checked in
          let (healthy_out, p') = Processor.process ops p checked in
          (out ≡ record healthy_out { voter_status = excluded_status r.voter }) × Healthy i j p' r'
    unfolding process
    process-Healthy i j p r h checked d u v healthy n =
        let outputs = (run_lanes ops hook h r.lanes checked).0 in
        let majority = two_lanes-Majority i j p r h checked d u v healthy n in
        let (at_i, next_i) = run_lanes-alone h i r.lanes checked u in
        let (_, next_j) = run_lanes-alone h j r.lanes checked v in
        let (stays_i, stays_j) = Majority-stays r.voter checked outputs i j majority in
        let own : get outputs i ≡ (Processor.process ops p checked).0 =
          at_i
          ∙ ap (λ (q : TelemetryProcessor). (Processor.process ops q checked).0) healthy.left in
        (
          vote_masks r.voter checked outputs i j majority
              ∙ ap (with_status (excluded_status r.voter)) (
                  ap (λ (f : TelemetryFrame). copy_computed f checked) own
                  ∙ sym (process-overlay p checked)),
          record {
            left = rw (next_i, healthy.left) refl;
            right = rw (next_j, healthy.right) refl;
            left_in = stays_i;
            right_in = stays_j;
          },
        )

    -- A run: with the lone lane's outputs free of NaN, every emitted frame is the lone lane's but for
    -- its voter status.
    process_all-Healthy :
        (i j : Lane) (p : TelemetryProcessor) (r : RedundantProcessor) (h : H)
        (frames : List TelemetryFrame)
        → i ≢ j
        → LeavesAlone hook i
        → LeavesAlone hook j
        → Healthy i j p r
        → All IsNumeric (lane_all ops p frames)
        → map (with_status 0) (process_all ops hook h r frames)
          ≡ map (with_status 0) (lane_all ops p frames)
    unfolding process_all lane_all
    process_all-Healthy i j p r h [] d u v healthy n = refl
    process_all-Healthy i j p r h (checked ∷ frames) d u v healthy (n, ns) =
        let (same, healthy') = process-Healthy i j p r h checked d u v healthy n in
        let rest =
          process_all-Healthy i j (Processor.process ops p checked).1
            (process ops hook h r checked).1 (process ops hook h r checked).2 frames d u v healthy'
            ns in
        λ t. with_status 0 (same t) ∷ rest t

    abbrev new_lane : LaneState
    new_lane = record { faulted = false; misses = 0 }

    pub redundant_init-Healthy :
        (i j : Lane) (tuning : ProcessorConfig) (timeout persistence : ℕ)
        → Healthy i j (processor_init tuning timeout) (redundant_init tuning timeout persistence)
    unfolding redundant_init voter_init
    redundant_init-Healthy i j tuning timeout persistence = record {
      left = get-tabulate (λ _. processor_init tuning timeout) i;
      right = get-tabulate (λ _. processor_init tuning timeout) j;
      left_in = ap LaneState.faulted (get-tabulate (λ _. new_lane) i);
      right_in = ap LaneState.faulted (get-tabulate (λ _. new_lane) j);
    }

    -- Fault masking: if the hook leaves two of the lanes alone, then over any run of frames on which one
    -- processor alone computes no NaN, the three lanes and the voter emit that processor's frames, all
    -- fields but the voter status, whatever the hook does to the third lane's inputs and outputs.
    pub process_all_masks :
        (i j : Lane) (tuning : ProcessorConfig) (timeout persistence : ℕ) (h : H)
        (frames : List TelemetryFrame)
        → i ≢ j
        → LeavesAlone hook i
        → LeavesAlone hook j
        → All IsNumeric (lane_all ops (processor_init tuning timeout) frames)
        → map
            (with_status 0)
            (process_all ops hook h (redundant_init tuning timeout persistence) frames)
          ≡ map (with_status 0) (lane_all ops (processor_init tuning timeout) frames)
    process_all_masks i j tuning timeout persistence h frames d u v n =
        process_all-Healthy i j (processor_init tuning timeout)
          (redundant_init tuning timeout persistence) h frames d u v
          (redundant_init-Healthy i j tuning timeout persistence) n
