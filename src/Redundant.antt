-- ===== src/Redundant.antt =====
-- `src/processing/redundant_processor.cpp`, `src/processing/redundant_processor.h` and the interface of
-- `src/processing/lane_fault_hook.h`: three lanes and the voter, with a hook around each lane. A hook
-- holds a state of its own, which its two calls may change.
pub mod Masking
pub mod Identical
use flight_telemetry.Prelude.{ℕ, Option, none, some, List, [], ◌∷◌}
use flight_telemetry.Float.{FloatOps}
use flight_telemetry.Frame.{TelemetryFrame}
use flight_telemetry.Lanes.{Three, Lane, first, second, third, tabulate}
use flight_telemetry.Voter
use flight_telemetry.Voter.{Voter, voter_init, vote}
use flight_telemetry.Event.{FaultEvent}
use flight_telemetry.Processor
use flight_telemetry.Processor.{ProcessorConfig, TelemetryProcessor, processor_init}

-- `LaneFaultHook`: each call alters a frame and may change the hook.
pub record LaneFaultHook {ℓ} (H : Type ℓ) : Type ℓ where
  pub perturb_input : H → Lane → TelemetryFrame → TelemetryFrame × H
  pub perturb_output : H → Lane → TelemetryFrame → TelemetryFrame × H

-- The lanes' states and the voter.
pub record RedundantProcessor : Type 0 where
  pub lanes : Three TelemetryProcessor
  pub voter : Voter

unfoldable pub redundant_init : ProcessorConfig → ℕ → ℕ → RedundantProcessor
redundant_init tuning imu_timeout_ms persistence = record {
  lanes = tabulate (λ _. processor_init tuning imu_timeout_ms);
  voter = voter_init persistence;
}

module _ {ℓ} {H : Type ℓ} where
  -- `if (hook_ != nullptr)`.
  abbrev pub on_input : Option (LaneFaultHook H) → H → Lane → TelemetryFrame → TelemetryFrame × H
  on_input none h k frame = (frame, h)
  on_input (some hook) h k frame = hook.perturb_input h k frame

  abbrev pub on_output : Option (LaneFaultHook H) → H → Lane → TelemetryFrame → TelemetryFrame × H
  on_output none h k frame = (frame, h)
  on_output (some hook) h k frame = hook.perturb_output h k frame

module _ {ℓ} {H : Type ℓ} (ops : FloatOps) (hook : Option (LaneFaultHook H)) where
  -- One lane on its own copy of the checked frame.
  unfoldable pub run_lane :
      H → Lane → TelemetryProcessor → TelemetryFrame → TelemetryFrame × TelemetryProcessor × H
  run_lane h k p checked =
      let (input, h1) = on_input hook h k checked in
      let (output, p') = Processor.process ops p input in
      let (handed, h2) = on_output hook h1 k output in (handed, p', h2)

  unfoldable pub run_lanes :
      H
      → Three TelemetryProcessor
      → TelemetryFrame
      → Three TelemetryFrame × Three TelemetryProcessor × H
  run_lanes h lanes checked =
      let (out_1, lane_1, h1) = run_lane h first lanes.lane_1 checked in
      let (out_2, lane_2, h2) = run_lane h1 second lanes.lane_2 checked in
      let (out_3, lane_3, h3) = run_lane h2 third lanes.lane_3 checked in
      (
        record { lane_1 = out_1; lane_2 = out_2; lane_3 = out_3 },
        record { lane_1 = lane_1; lane_2 = lane_2; lane_3 = lane_3 },
        h3,
      )

  unfoldable pub process :
      H → RedundantProcessor → TelemetryFrame → TelemetryFrame × RedundantProcessor × H
  process h r checked =
      let (outputs, lanes, h') = run_lanes h r.lanes checked in
      let (out, voter) = vote r.voter checked outputs in
      (out, record { lanes = lanes; voter = voter }, h')

  -- The emitted frames of a run.
  unfoldable pub process_all : H → RedundantProcessor → List TelemetryFrame → List TelemetryFrame
  process_all h r [] = []
  process_all h r (checked ∷ frames) =
      let (out, r', h') = process h r checked in out ∷ process_all h' r' frames

unfoldable pub take_events : RedundantProcessor → List FaultEvent × RedundantProcessor
take_events r =
    let (events, voter) = Voter.take_events r.voter in (events, record r { voter = voter })
