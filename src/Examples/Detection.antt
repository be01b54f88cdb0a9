-- ===== src/Examples/Detection.antt =====
-- Runs of `src/processing/fault_detector.cpp`.
use flight_telemetry.Prelude.{ℕ, ◌≡◌, refl, true, false, inl, List, [], ◌∷◌, arith, ◌↔◌}
use flight_telemetry.Float.{of_uint}
use flight_telemetry.Frame.{nominal, degraded}
use flight_telemetry.Event.{recovery, record_event, gps, imu}
use flight_telemetry.Detector.State.{
  detector_init, default_config, ChannelState, fresh_channel, comm_timed_out, transition,
  Observation, no_fault, push, elapsed_ms, first_non_finite,
}
use flight_telemetry.Detector.Observe.{
  observe_baro, observe_imu, observe_gps, judge_baro, judge_imu, judge_gps, push_axes,
  first_saturated,
}
use flight_telemetry.Detector.Check.{check, check_baro, check_imu, check_gps}
use flight_telemetry.Detector.Passed.{Passed, check-gate}
use flight_telemetry.Detector.Channels.{
  failed_reads, timeout_exact, observe_all, fresh_count, recovery_exact,
}
use flight_telemetry.Detector.Stuck.{Repeats, tracked, push_stuck_iff}
use flight_telemetry.Detector.Ledger.{Ledger, run_checks, events_take_turns}
use flight_telemetry.Examples.Data.{plain_ops, reading, readings}

first_check :
    let out = (check plain_ops (detector_init default_config) (reading 100)).0 in
    (out.baro_status ≡ nominal) × (out.imu_status ≡ nominal) × (out.gps_status ≡ nominal)
unfolding check check_baro check_imu check_gps observe_baro observe_imu observe_gps judge_baro
    judge_imu judge_gps push_axes first_saturated first_non_finite push transition comm_timed_out
    detector_init
first_check = (refl, refl, refl)

check-gate_example : Passed plain_ops imu (detector_init default_config) (reading 100)
check-gate_example =
    check-gate plain_ops imu (detector_init default_config) (reading 100) refl first_check.1

timeout_exact_example :
    let s' = failed_reads 500 (comm_timed_out fresh_channel true 1000 500).2 (1200 ∷ 1400 ∷ []) in
    (comm_timed_out s' false 1600 500).0 ≡ true
timeout_exact_example =
    timeout_exact 500 1000 1600 fresh_channel true (1200 ∷ 1400 ∷ []) (inl refl) (omega arith)
      (omega arith)

abbrev lost : ChannelState
lost = record fresh_channel { status = degraded; degraded_since_ms = 1000 }

-- A stale frame between two fresh ones.
abbrev waiting_frames : List (Observation × ℕ)
waiting_frames = (no_fault true, 1100) ∷ (no_fault false, 1200) ∷ (no_fault true, 1300) ∷ []

recovery_exact_example :
    let (waiting, events) = observe_all 3 gps (lost, []) waiting_frames in
    (waiting.status ≡ degraded)
    × (events ≡ [])
    × (transition 3 gps waiting (no_fault true) 1400 events ≡ (
      record lost { status = nominal; valid_run = 0 },
      record_event [] 1400 gps recovery (of_uint (elapsed_ms 1400 1000)),
    ))
unfolding fresh_count
recovery_exact_example =
    recovery_exact 3 gps lost [] waiting_frames (no_fault true) 1400 refl refl
      (refl, (refl, (refl, tt))) refl refl refl

push_stuck_iff_example :
    ((push (tracked 2 (0x3f80_0000 ∷ [])) 0x3f80_0000 2).0 ≡ true)
    ↔ Repeats 2 (0x3f80_0000 ∷ 0x3f80_0000 ∷ [])
push_stuck_iff_example = push_stuck_iff 2 0x3f80_0000 (0x3f80_0000 ∷ [])

events_take_turns_example : Ledger (run_checks plain_ops (detector_init default_config) readings)
events_take_turns_example = events_take_turns plain_ops default_config readings
