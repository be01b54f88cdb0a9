-- ===== src/Examples/Records.antt =====
-- Runs of `src/logging/` and `src/replay/`.
use flight_telemetry.Prelude.{
  ℕ, Bool, ◌≡◌, ◌≤◌, refl, true, false, inl, List, [], ◌∷◌, map, All, arith, ◌↔◌, ◌⊎◌, length,
}
use flight_telemetry.Log.{
  fault_event, make_log_header, simulated, logger_init, write_all, files, frame, LogFile, LogRecord,
  header_is_valid, header_problem, LogFileHeader,
}
use flight_telemetry.Log.Header.{header_of, header_is_valid_iff}
use flight_telemetry.Log.Rotation.{file_bytes, limit, files_bounded}
use flight_telemetry.Log.RoundTrip.{all_records, taken, write_all-records}
use flight_telemetry.Log.Reader.{
  frames_in, read_record, over_zero, Content, log, missing, whole, torn, open_reader, next_frame,
}
use flight_telemetry.Log.Frames.{NextFrame, next_frame_lem}
use flight_telemetry.Replay.{strip_to_raw, replay_init}
use flight_telemetry.Replay.Raw.{IsRaw}
use flight_telemetry.Replay.Drain.{session_frames}
use flight_telemetry.Replay.Session.{drain, drain_session}
use flight_telemetry.Detector.State.{detector_init, default_config}
use flight_telemetry.Processor.{default_tuning}
use flight_telemetry.Redundant.{redundant_init}
use flight_telemetry.Pipeline.{run}
use flight_telemetry.Pipeline.Reproduced.{detector_init-AllJudged, frames_of, run-strip}
use flight_telemetry.Pipeline.Logged.{log_files, replay_identical}
use flight_telemetry.Event.{event_of, voter, lane_fault_injected}
use flight_telemetry.Injections.{recorded, recorded_lane_faults}
use flight_telemetry.Injections.Told.{
  Told, nothing, then_told, frame_record, into_second, reapplied,
}
use flight_telemetry.Injections.RoundTrip.{recorded_lane_faults-logged}
use flight_telemetry.Examples.Data.{small_ops, reading, readings}

-- A header of version 2, with its frames of 104 bytes.
abbrev older : LogFileHeader
older = header_of 2 104 (make_log_header simulated simulated)

header_is_valid_iff_example : (header_is_valid older ≡ true) ↔ (
    (older ≡ header_of 1 104 older)
    ⊎ ((older ≡ header_of 2 104 older) ⊎ (older ≡ header_of 3 120 older)))
header_is_valid_iff_example = header_is_valid_iff older

-- Two frames into a limit of one, the second write refused.
abbrev bad_disk : List (LogRecord × Bool × Bool)
bad_disk = (frame (reading 100), true, true) ∷ (frame (reading 200), true, false) ∷ []

files_bounded_example :
    All
      (λ (f : LogFile). file_bytes f ≤ limit 100)
      (files (write_all bad_disk (logger_init 100 (make_log_header simulated simulated) true)))
files_bounded_example = files_bounded 100 (make_log_header simulated simulated) true bad_disk

abbrev two_records : List LogRecord
two_records = frame (reading 100) ∷ frame (reading 200) ∷ []

write_all-records_example :
    all_records (
      files (
        write_all
          (map taken two_records)
          (logger_init 100 (make_log_header simulated simulated) true)))
    ≡ two_records
write_all-records_example = write_all-records 100 (make_log_header simulated simulated) two_records

-- A file that does not open, then one torn after its first frame.
abbrev torn_session : List Content
torn_session =
    missing
    ∷ log (make_log_header simulated simulated) (whole (frame (reading 100)) ∷ torn ∷ [])
    ∷ []

next_frame_lem_example :
    let s =
      open_reader
        (log (make_log_header simulated simulated) (whole (frame (reading 100)) ∷ torn ∷ [])) in
    let (o, s') = next_frame s in NextFrame s o s'
next_frame_lem_example = next_frame_lem (
    open_reader
      (log (make_log_header simulated simulated) (whole (frame (reading 100)) ∷ torn ∷ [])))

torn_session-short : length (session_frames torn_session) ≤ 5
unfolding session_frames open_reader make_log_header header_problem frames_in read_record over_zero
torn_session-short = omega arith

drain_session_example :
    drain 5 (replay_init torn_session) ≡ map strip_to_raw (session_frames torn_session)
drain_session_example = drain_session 5 torn_session torn_session-short

reading-IsRaw : (ms : ℕ) → IsRaw (reading ms)
reading-IsRaw ms = record {
  baro_altitude_m = refl;
  pitch_deg = refl;
  roll_deg = refl;
  fused_altitude_m = refl;
  vertical_speed_mps = refl;
  baro_status = inl refl;
  imu_status = inl refl;
  gps_status = inl refl;
  baro_altitude_validity = refl;
  pitch_validity = refl;
  roll_validity = refl;
  fused_altitude_validity = refl;
  vertical_speed_validity = refl;
  voter_status = refl;
  reserved_d = refl;
}

run-strip_example :
    map strip_to_raw (
      frames_of (
        run small_ops
          (detector_init default_config)
          (redundant_init default_tuning 500 3)
          readings))
    ≡ readings
run-strip_example =
    run-strip small_ops (detector_init default_config) (redundant_init default_tuning 500 3)
      readings (detector_init-AllJudged default_config) (reading-IsRaw 100, (reading-IsRaw 200, tt))

replay_identical_example :
    let d = detector_init default_config in
    let r = redundant_init default_tuning 500 3 in
    let logged = run small_ops d r readings in
    run small_ops d r (drain 2 (replay_init (log_files 200 simulated simulated logged))) ≡ logged
replay_identical_example =
    replay_identical small_ops default_config default_tuning 500 3 200 2 simulated simulated
      readings (reading-IsRaw 100, (reading-IsRaw 200, tt)) (omega arith)

-- A frame, and the event of a fault injected into the second lane.
abbrev with_injection : List LogRecord
with_injection =
    frame (reading 100) ∷ fault_event (event_of 100 voter lane_fault_injected 0x4000_0000) ∷ []

with_injection-Told : Told with_injection (reapplied 2 100 ∷ [])
with_injection-Told =
    then_told (frame_record (reading 100) refl refl) (then_told (into_second 100 refl refl) nothing)

recorded_lane_faults-logged_example :
    recorded_lane_faults (log_files 100 simulated simulated with_injection)
    ≡ recorded (reapplied 2 100 ∷ [])
recorded_lane_faults-logged_example =
    recorded_lane_faults-logged 100 simulated simulated with_injection (reapplied 2 100 ∷ [])
      with_injection-Told
