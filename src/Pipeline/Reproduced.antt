-- ===== src/Pipeline/Reproduced.antt =====
-- The replay of what the loop of `src/main.cpp` logged: the detector of `src/processing/fault_detector.cpp`
-- never makes up NOT_AVAILABLE, so `strip_to_raw` gives the raw frames back.
use flight_telemetry.Prelude.{
  ℕ, ◌≡◌, inl, inr, refl, sym, ap, ◌∙◌, Bool, false, Bool-cases, arith, List, [], ◌∷◌, ◌++◌, map,
  All, append_assoc,
}
use flight_telemetry.Float.{FloatOps}
use flight_telemetry.Frame.{
  TelemetryFrame, ChannelStatus, nominal, degraded, no_data, not_available,
}
use flight_telemetry.Event.{FaultEvent, Channel}
use flight_telemetry.Detector.State.{
  FaultDetector, FaultDetectorConfig, detector_init, ChannelState, Observation, comm_timed_out,
  transition,
}
use flight_telemetry.Detector.Observe.{observe_baro, observe_imu, observe_gps}
use flight_telemetry.Detector.Check
use flight_telemetry.Detector.Check.{check, check_baro, check_imu, check_gps, judged, is_absent}
use flight_telemetry.Voter.{Voter, vote}
use flight_telemetry.Voter.Hold.{vote-raw}
use flight_telemetry.Lanes.{Three}
use flight_telemetry.Log.{LogRecord, frame, fault_event}
use flight_telemetry.Redundant
use flight_telemetry.Redundant.{RedundantProcessor, run_lanes}
use flight_telemetry.Redundant.Identical.{no_hook}
use flight_telemetry.Pipeline.{cycle, run}
use flight_telemetry.Replay.{strip_to_raw, asserted}
use flight_telemetry.Replay.Raw.{IsRaw, IsAsserted, asserted-same, strip_to_raw-same}

-- A judged status is never the one that only a source asserts.
abbrev IsJudged : ChannelState → Type 0
IsJudged s = is_absent s.status ≡ false

comm_timed_out-status :
    (s : ChannelState) (read_ok : Bool) (now timeout : ℕ)
    → (comm_timed_out s read_ok now timeout).2.status ≡ s.status
unfolding comm_timed_out
comm_timed_out-status s read_ok now timeout = ground arith

transition-IsJudged :
    (n : ℕ) (channel : Channel) (s : ChannelState) (obs : Observation) (now : ℕ)
    (events : List FaultEvent)
    → IsJudged s
    → IsJudged (transition n channel s obs now events).0
unfolding transition
transition-IsJudged n channel s obs now events h = ground (arith, h)

pub record AllJudged (d : FaultDetector) : Type 0 where
  pub baro : IsJudged d.baro_channel
  pub imu : IsJudged d.imu_channel
  pub gps : IsJudged d.gps_channel

pub detector_init-AllJudged : (config : FaultDetectorConfig) → AllJudged (detector_init config)
unfolding detector_init
detector_init-AllJudged config = record { baro = refl; imu = refl; gps = refl }

-- The frames among the records of a log.
abbrev pub frames_of : List LogRecord → List TelemetryFrame
frames_of [] = []
frames_of (frame f ∷ rest) = f ∷ frames_of rest
frames_of (fault_event e ∷ rest) = frames_of rest

module _ (ops : FloatOps) where
  -- `asserted` forgets the judgment and keeps the assertion.
  asserted-judged :
      (status : ChannelStatus) (s : ChannelState)
      → IsAsserted status
      → IsJudged s
      → asserted (judged ops status s) ≡ status
  asserted-judged nominal s w h = rw h refl
  asserted-judged degraded s (inl e) h = cc
  asserted-judged degraded s (inr e) h = cc
  asserted-judged no_data s (inl e) h = cc
  asserted-judged no_data s (inr e) h = cc
  asserted-judged not_available s w h = refl

  observe_baro-IsJudged :
      (d : FaultDetector) (raw : TelemetryFrame) (now : ℕ)
      → IsJudged d.baro_channel
      → IsJudged (observe_baro ops d raw now).1
  unfolding observe_baro comm_timed_out
  observe_baro-IsJudged d raw now h = ground (arith, h)

  observe_imu-IsJudged :
      (d : FaultDetector) (raw : TelemetryFrame) (now : ℕ)
      → IsJudged d.imu_channel
      → IsJudged (observe_imu ops d raw now).1
  unfolding observe_imu comm_timed_out
  observe_imu-IsJudged d raw now h = ground (arith, h)

  observe_gps-IsJudged :
      (d : FaultDetector) (raw : TelemetryFrame) (now : ℕ)
      → IsJudged d.gps_channel
      → IsJudged (observe_gps ops d raw now).1
  unfolding observe_gps comm_timed_out
  observe_gps-IsJudged d raw now h = ground (arith, h)

  check_baro-AllJudged :
      (d : FaultDetector) (raw : TelemetryFrame) → AllJudged d → AllJudged (check_baro ops d raw)
  unfolding check_baro
  check_baro-AllJudged d raw j =
      let own =
        transition-IsJudged d.config.recovery_count Channel.baro _ (observe_baro ops d raw _).0
          raw.timestamp_ms d.events (observe_baro-IsJudged d raw raw.timestamp_ms j.baro) in
      elim (Bool-cases (is_absent raw.baro_status)) [
        | inl e ↦ simp (e) j
        | inr e ↦ simp (e) (record { baro = own; imu = j.imu; gps = j.gps })
      ]

  check_imu-AllJudged :
      (d : FaultDetector) (raw : TelemetryFrame) → AllJudged d → AllJudged (check_imu ops d raw)
  unfolding check_imu
  check_imu-AllJudged d raw j =
      let own =
        transition-IsJudged d.config.recovery_count Channel.imu _ (observe_imu ops d raw _).0
          raw.timestamp_ms d.events (observe_imu-IsJudged d raw raw.timestamp_ms j.imu) in
      elim (Bool-cases (is_absent raw.imu_status)) [
        | inl e ↦ simp (e) j
        | inr e ↦ simp (e) (record { baro = j.baro; imu = own; gps = j.gps })
      ]

  check_gps-AllJudged :
      (d : FaultDetector) (raw : TelemetryFrame) → AllJudged d → AllJudged (check_gps ops d raw)
  unfolding check_gps
  check_gps-AllJudged d raw j =
      let own =
        transition-IsJudged d.config.recovery_count Channel.gps _ (observe_gps ops d raw _).0
          raw.timestamp_ms d.events (observe_gps-IsJudged d raw raw.timestamp_ms j.gps) in
      elim (Bool-cases (is_absent raw.gps_status)) [
        | inl e ↦ simp (e) j
        | inr e ↦ simp (e) (record { baro = j.baro; imu = j.imu; gps = own })
      ]

  pub check-AllJudged :
      (d : FaultDetector) (raw : TelemetryFrame) → AllJudged d → AllJudged (check ops d raw).1
  unfolding check
  check-AllJudged d raw j =
      check_gps-AllJudged _ raw (check_imu-AllJudged _ raw (check_baro-AllJudged d raw j))

  -- The detector's frame stripped is the raw frame.
  pub strip-check :
      (d : FaultDetector) (raw : TelemetryFrame)
      → AllJudged d
      → IsRaw raw
      → strip_to_raw (check ops d raw).0 ≡ raw
  unfolding check strip_to_raw
  strip-check d raw j w =
      let j' = check-AllJudged d raw j in
      let d' = (check ops d raw).1 in
      (λ t. record (strip_to_raw raw) {
        baro_status =
            (asserted-judged raw.baro_status d'.baro_channel w.baro_status j'.baro
                ∙ sym (asserted-same _ w.baro_status))
              t;
        imu_status =
            (asserted-judged raw.imu_status d'.imu_channel w.imu_status j'.imu
                ∙ sym (asserted-same _ w.imu_status))
              t;
        gps_status =
            (asserted-judged raw.gps_status d'.gps_channel w.gps_status j'.gps
                ∙ sym (asserted-same _ w.gps_status))
              t;
      })
      ∙ strip_to_raw-same raw w

  -- The processed frame stripped is the checked frame stripped.
  strip-vote :
      (v : Voter) (checked : TelemetryFrame) (outputs : Three TelemetryFrame)
      → strip_to_raw (vote v checked outputs).0 ≡ strip_to_raw checked
  unfolding strip_to_raw
  strip-vote v checked outputs = ap strip_to_raw (vote-raw v checked outputs)

  strip-processed :
      (r : RedundantProcessor) (checked : TelemetryFrame)
      → strip_to_raw (Redundant.process ops no_hook tt r checked).0 ≡ strip_to_raw checked
  unfolding Redundant.process
  strip-processed r checked = strip-vote r.voter checked _

  map-frames_of :
      (es : List FaultEvent) (rest : List LogRecord)
      → frames_of (map fault_event es ++ rest) ≡ frames_of rest
  map-frames_of [] rest = refl
  map-frames_of (e ∷ es) rest = map-frames_of es rest

  -- The records of a cycle hold one frame, its own.
  frames_of-cycle :
      (d : FaultDetector) (r : RedundantProcessor) (raw : TelemetryFrame) (rest : List LogRecord)
      → frames_of ((cycle ops d r raw).0 ++ rest)
        ≡ (Redundant.process ops no_hook tt r (check ops d raw).0).0 ∷ frames_of rest
  unfolding cycle
  frames_of-cycle d r raw rest =
      let (detected, _) = Check.take_events (check ops d raw).1 in
      let r1 = (Redundant.process ops no_hook tt r (check ops d raw).0).1 in
      let (voted, _) = Redundant.take_events r1 in
      ap (λ fs. (Redundant.process ops no_hook tt r (check ops d raw).0).0 ∷ fs)
        (ap frames_of (append_assoc (map fault_event detected) (map fault_event voted) rest)
          ∙ map-frames_of detected _
          ∙ map-frames_of voted rest)

  cycle-AllJudged :
      (d : FaultDetector) (r : RedundantProcessor) (raw : TelemetryFrame)
      → AllJudged d
      → AllJudged (cycle ops d r raw).1
  unfolding cycle Check.take_events
  cycle-AllJudged d r raw j =
      let j' = check-AllJudged d raw j in record { baro = j'.baro; imu = j'.imu; gps = j'.gps }

  -- The frames that a run logs, stripped, are the raw frames it read: in number, order and every bit.
  pub run-strip :
      (d : FaultDetector) (r : RedundantProcessor) (raws : List TelemetryFrame)
      → AllJudged d
      → All IsRaw raws
      → map strip_to_raw (frames_of (run ops d r raws)) ≡ raws
  unfolding run
  run-strip d r [] j w = refl
  run-strip d r (raw ∷ raws) j (w, ws) =
      let d' = (cycle ops d r raw).1 in
      let r' = (cycle ops d r raw).2 in
      let later = run-strip d' r' raws (cycle-AllJudged d r raw j) ws in
      let checked = (check ops d raw).0 in
      let own = strip-processed r checked ∙ strip-check d raw j w in
      ap (map strip_to_raw) (frames_of-cycle d r raw (run ops d' r' raws)) ∙ (λ t. own t ∷ later t)
