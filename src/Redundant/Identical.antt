-- ===== src/Redundant/Identical.antt =====
-- The binary's `src/processing/redundant_processor.cpp`, which has no hook: the voter is transparent.
use flight_telemetry.Prelude.{ℕ, ◌≡◌, refl, false, Option, none, List, [], ◌∷◌, map, ◌∙◌, ap, All}
use flight_telemetry.Float.{FloatOps}
use flight_telemetry.Frame.{TelemetryFrame, voter_bit, voted}
use flight_telemetry.Lanes.{Lane, first, second, third}
use flight_telemetry.Voter.{Voter, excluded_status}
use flight_telemetry.Voter.Agreement.{IsNumeric}
use flight_telemetry.Processor
use flight_telemetry.Processor.{TelemetryProcessor, ProcessorConfig, processor_init}
use flight_telemetry.Redundant.{
  LaneFaultHook, RedundantProcessor, redundant_init, process, process_all,
}
use flight_telemetry.Redundant.Masking.{
  LeavesAlone, Healthy, lane_all, with_status, process-Healthy, redundant_init-Healthy,
}

-- `nullptr`.
abbrev pub no_hook : Option (LaneFaultHook (Unit {0}))
no_hook = none

no_hook-LeavesAlone : (m : Lane) → LeavesAlone no_hook m
no_hook-LeavesAlone m = record { input = λ h f. refl; output = λ h f. refl }

module _ (ops : FloatOps) where
  -- All three lanes are the lone lane, and in the vote.
  record AllHealthy (p : TelemetryProcessor) (r : RedundantProcessor) : Type 0 where
    left : Healthy ops no_hook first second p r
    right : Healthy ops no_hook first third p r

  excluded_status-none :
      (v : Voter)
      → v.lanes.lane_1.faulted ≡ false
      → v.lanes.lane_2.faulted ≡ false
      → v.lanes.lane_3.faulted ≡ false
      → excluded_status v ≡ voter_bit voted
  unfolding excluded_status
  excluded_status-none v e f g = rw (e, f, g) refl

  process_identical :
      (p : TelemetryProcessor) (r : RedundantProcessor) (checked : TelemetryFrame)
      → AllHealthy p r
      → IsNumeric (Processor.process ops p checked).0
      → let (out, r', _) = process ops no_hook tt r checked in
        let (healthy_out, p') = Processor.process ops p checked in
        (out ≡ with_status (voter_bit voted) healthy_out) × AllHealthy p' r'
  process_identical p r checked a n =
      let alone = no_hook-LeavesAlone in
      let (same, left) =
        process-Healthy ops no_hook first second p r tt checked (λ e. cc) (alone first)
          (alone second) a.left n in
      let (_, right) =
        process-Healthy ops no_hook first third p r tt checked (λ e. cc) (alone first) (alone third)
          a.right n in
      let status = excluded_status-none r.voter a.left.left_in a.left.right_in a.right.right_in in
      (
        same ∙ ap (λ (s : ℕ). with_status s (Processor.process ops p checked).0) status,
        record { left = left; right = right },
      )

  process_all_identical :
      (p : TelemetryProcessor) (r : RedundantProcessor) (frames : List TelemetryFrame)
      → AllHealthy p r
      → All IsNumeric (lane_all ops p frames)
      → process_all ops no_hook tt r frames
        ≡ map (with_status (voter_bit voted)) (lane_all ops p frames)
  unfolding process_all lane_all
  process_all_identical p r [] a n = refl
  process_all_identical p r (checked ∷ frames) a (n, ns) =
      let (same, a') = process_identical p r checked a n in
      let p' = (Processor.process ops p checked).1 in
      let r' = (process ops no_hook tt r checked).1 in
      let rest = process_all_identical p' r' frames a' ns in λ t. same t ∷ rest t

  -- Without a hook, over frames on which one processor alone computes no NaN, the three lanes and the
  -- voter are that processor: its frames, bit for bit, with the voter status VOTED and nothing else.
  pub redundant_is_one_lane :
      (tuning : ProcessorConfig) (timeout persistence : ℕ) (frames : List TelemetryFrame)
      → All IsNumeric (lane_all ops (processor_init tuning timeout) frames)
      → process_all ops no_hook tt (redundant_init tuning timeout persistence) frames
        ≡ map (with_status (voter_bit voted)) (lane_all ops (processor_init tuning timeout) frames)
  redundant_is_one_lane tuning timeout persistence frames n =
      process_all_identical (processor_init tuning timeout)
        (redundant_init tuning timeout persistence) frames
        (record {
          left = redundant_init-Healthy ops no_hook first second tuning timeout persistence;
          right = redundant_init-Healthy ops no_hook first third tuning timeout persistence;
        })
        n
