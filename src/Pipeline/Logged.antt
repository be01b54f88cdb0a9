-- ===== src/Pipeline/Logged.antt =====
-- The loop of `src/main.cpp`, the logger of `src/logging/binary_logger.cpp` and the replay source of
-- `src/replay/log_replay_source.cpp` together: a log replayed is the log.
use flight_telemetry.Prelude.{
  ℕ, ◌≡◌, ◌≤◌, refl, sym, ap, ◌∙◌, true, List, [], ◌∷◌, ◌++◌, map, All, length, arith,
}
use flight_telemetry.Float.{FloatOps}
use flight_telemetry.Frame.{TelemetryFrame}
use flight_telemetry.Log.{
  LogRecord, frame, fault_event, LogFile, RunMode, make_log_header, logger_init, write_all, files,
  header_problem,
}
use flight_telemetry.Log.RoundTrip.{all_records, taken, write_all-records, write_all-header}
use flight_telemetry.Log.Reader.{
  Content, log, whole, open_reader, frames_in, read_record, over_zero, frames_left,
}
use flight_telemetry.Replay.{strip_to_raw, replay_init}
use flight_telemetry.Replay.Raw.{IsRaw}
use flight_telemetry.Replay.Drain.{session_frames}
use flight_telemetry.Replay.Session.{drain, drain_session}
use flight_telemetry.Detector.State.{FaultDetectorConfig, detector_init}
use flight_telemetry.Processor.{ProcessorConfig}
use flight_telemetry.Redundant.{redundant_init}
use flight_telemetry.Pipeline.{run}
use flight_telemetry.Pipeline.Reproduced.{frames_of, run-strip, detector_init-AllJudged}

-- A file that the logger wrote, as the reader finds it.
abbrev pub content_of : LogFile → Content
content_of file = log file.header (map whole file.records)

frames_in-whole : (rs : List LogRecord) → frames_in 3 (map whole rs) ≡ frames_of rs
unfolding frames_in read_record over_zero
frames_in-whole [] = refl
frames_in-whole (frame f ∷ rs) = ap (λ fs. f ∷ fs) (frames_in-whole rs)
frames_in-whole (fault_event e ∷ rs) = frames_in-whole rs

frames_of-append : (rs ss : List LogRecord) → frames_of (rs ++ ss) ≡ frames_of rs ++ frames_of ss
frames_of-append [] ss = refl
frames_of-append (frame f ∷ rs) ss = ap (λ fs. f ∷ fs) (frames_of-append rs ss)
frames_of-append (fault_event e ∷ rs) ss = frames_of-append rs ss

file_frames :
    (file : LogFile) (run_mode source_mode : RunMode)
    → file.header ≡ make_log_header run_mode source_mode
    → frames_left (open_reader (content_of file)) ≡ frames_of file.records
unfolding open_reader header_problem make_log_header
file_frames file run_mode source_mode e = rw e (frames_in-whole file.records)

session_frames-logged :
    (fs : List LogFile) (run_mode source_mode : RunMode)
    → All (λ (f : LogFile). f.header ≡ make_log_header run_mode source_mode) fs
    → session_frames (map content_of fs) ≡ frames_of (all_records fs)
unfolding session_frames
session_frames-logged [] run_mode source_mode h = refl
session_frames-logged (f ∷ fs) run_mode source_mode (e, h) =
    (λ t.
      file_frames f run_mode source_mode e t ++ session_frames-logged fs run_mode source_mode h t)
    ∙ sym (frames_of-append f.records (all_records fs))

-- The files of a log of these records, rotated at a limit.
abbrev pub log_files : ℕ → RunMode → RunMode → List LogRecord → List Content
log_files max_file_bytes run_mode source_mode rs = map content_of (
    files (
      write_all (map taken rs)
        (logger_init max_file_bytes (make_log_header run_mode source_mode) true)))

log_files-frames :
    (max_file_bytes : ℕ) (run_mode source_mode : RunMode) (rs : List LogRecord)
    → session_frames (log_files max_file_bytes run_mode source_mode rs) ≡ frames_of rs
log_files-frames max_file_bytes run_mode source_mode rs =
    let header = make_log_header run_mode source_mode in
    session_frames-logged _ run_mode source_mode
      (write_all-header max_file_bytes header true (map taken rs))
    ∙ ap frames_of (write_all-records max_file_bytes header rs)

length-map_strip : (fs : List TelemetryFrame) → length (map strip_to_raw fs) ≡ length fs
length-map_strip [] = refl
length-map_strip (f ∷ fs) = omega (arith, length-map_strip fs)

module _ (ops : FloatOps) where
  -- The raw frames of a run come back from its log.
  pub drain-logged :
      (config : FaultDetectorConfig) (tuning : ProcessorConfig)
      (timeout persistence max_file_bytes n : ℕ) (run_mode source_mode : RunMode)
      (raws : List TelemetryFrame)
      → All IsRaw raws
      → length raws ≤ n
      → let logged =
          run ops (detector_init config) (redundant_init tuning timeout persistence) raws in
        drain n (replay_init (log_files max_file_bytes run_mode source_mode logged)) ≡ raws
  drain-logged config tuning timeout persistence max_file_bytes n run_mode source_mode raws w h =
      let d = detector_init config in
      let r = redundant_init tuning timeout persistence in
      let logged = run ops d r raws in
      let frames = log_files-frames max_file_bytes run_mode source_mode logged in
      let back = run-strip ops d r raws (detector_init-AllJudged config) w in
      let count : length (frames_of logged) ≡ length raws =
        sym (length-map_strip (frames_of logged)) ∙ ap length back in
      drain_session n (log_files max_file_bytes run_mode source_mode logged)
        (omega (arith, h, count, ap length frames))
      ∙ ap (map strip_to_raw) frames
      ∙ back

  -- Replay is exact: log a run over raw frames that keep the source's contract, through any rotation limit
  -- and on a disk that takes every record; read the files back through the replay source; and the same
  -- pipeline over what comes back logs the same records, frames and events, bit for bit.
  pub replay_identical :
      (config : FaultDetectorConfig) (tuning : ProcessorConfig)
      (timeout persistence max_file_bytes n : ℕ) (run_mode source_mode : RunMode)
      (raws : List TelemetryFrame)
      → All IsRaw raws
      → length raws ≤ n
      → let d = detector_init config in
        let r = redundant_init tuning timeout persistence in
        let logged = run ops d r raws in
        run ops d r (drain n (replay_init (log_files max_file_bytes run_mode source_mode logged)))
        ≡ logged
  replay_identical config tuning timeout persistence max_file_bytes n run_mode source_mode raws w
        h =
      ap (run ops (detector_init config) (redundant_init tuning timeout persistence)) (
        drain-logged config tuning timeout persistence max_file_bytes n run_mode source_mode raws w
          h)
