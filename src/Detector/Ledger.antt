-- ===== src/Detector/Ledger.antt =====
-- The events of `src/processing/fault_detector.cpp` over whole runs: per channel, faults and recoveries
-- take turns, and the latest one tells the status.
use flight_telemetry.Prelude.{
  ℕ, ◌+◌, ◌≡◌, ◌≢◌, refl, Bool, true, false, ◌&&◌, arith, Bool-cases, if◌then◌else◌, ◌==◌, leb,
  List, [], ◌∷◌, ◌++◌, inl, inr, append-nil,
}
use flight_telemetry.Float.{Float, FloatOps}
use flight_telemetry.Frame.{TelemetryFrame, degraded, no_data, not_available, status_eq}
use flight_telemetry.Event.{
  FaultEvent, Channel, FaultType, recovery, record_event, event_of, baro, imu, gps, voter,
}
use flight_telemetry.Detector.State.{
  FaultDetector, FaultDetectorConfig, ChannelState, Observation, detector_init, comm_timed_out,
  transition,
}
use flight_telemetry.Detector.Observe.{
  judge_baro, judge_imu, judge_gps, observe_baro, observe_imu, observe_gps,
}
use flight_telemetry.Detector.Check.{check, check_baro, check_imu, check_gps}

-- Events of one channel that take turns; the index says whether the latest is a fault.
pub data History : Bool → List FaultEvent → Type 0 where
  clear : History false []
  onset :
      (es : List FaultEvent) (e : FaultEvent)
      → History false es
      → e.type ≢ recovery
      → History true (es ++ (e ∷ []))
  recovered :
      (es : List FaultEvent) (e : FaultEvent)
      → History true es
      → e.type ≡ recovery
      → History false (es ++ (e ∷ []))

abbrev channel_byte : Channel → ℕ
channel_byte baro = 0
channel_byte imu = 1
channel_byte gps = 2
channel_byte voter = 3

abbrev of_channel : Channel → FaultEvent → Bool
of_channel c e = channel_byte c == channel_byte e.channel

-- The channel's own events, in order.
pub own : Channel → List FaultEvent → List FaultEvent
own c [] = []
own c (e ∷ es) = if of_channel c e then e ∷ own c es else own c es

own-append : (c : Channel) (xs ys : List FaultEvent) → own c (xs ++ ys) ≡ own c xs ++ own c ys
unfolding own
own-append c [] ys = refl
own-append c (x ∷ xs) ys = elim (Bool-cases (of_channel c x)) [
  | inl e ↦ rw (e, own-append c xs ys) refl
  | inr e ↦ rw (e, own-append c xs ys) refl
]

byte_refl : (n : ℕ) → (n == n) ≡ true
byte_refl n = ground arith

other_byte : (c d : Channel) → c ≢ d → (channel_byte c == channel_byte d) ≡ false
other_byte c d ne = ground arith

own-record_self :
    (c : Channel) (es : List FaultEvent) (now : ℕ) (t : FaultType) (v : Float)
    → own c (record_event es now c t v) ≡ own c es ++ (event_of now c t v ∷ [])
unfolding own
own-record_self c es now t v =
    rw (own-append c es (event_of now c t v ∷ []), byte_refl (channel_byte c)) refl

own-record_other :
    (c d : Channel) (es : List FaultEvent) (now : ℕ) (t : FaultType) (v : Float)
    → c ≢ d
    → own c (record_event es now d t v) ≡ own c es
unfolding own
own-record_other c d es now t v ne =
    rw (own-append c es (event_of now d t v ∷ []), other_byte c d ne) (append-nil _)

abbrev in_fault : ChannelState → Bool
in_fault s = status_eq s.status degraded

started : (s : ChannelState) → status_eq s.status no_data ≡ true → in_fault s ≡ false
started s n = ground arith

both : (a b : Bool) → a && b ≡ true → a ≡ true
both a b h = ground arith

transition-History :
    (m : ℕ) (c : Channel) (s : ChannelState) (obs : Observation) (now : ℕ) (es : List FaultEvent)
    → obs.type ≢ recovery
    → History (in_fault s) (own c es)
    → let (s', es') = transition m c s obs now es in History (in_fault s') (own c es')
unfolding transition
transition-History m c s obs now es t h = elim (Bool-cases obs.faulted) [
  | inl f ↦ elim (Bool-cases (in_fault s)) [
    | inl d ↦ simp (f, d) (rw d at h)
    | inr d ↦ simp (f, d, own-record_self) (onset _ _ (rw d at h) t)
  ]
  | inr f ↦ elim (Bool-cases (status_eq s.status no_data)) [
    | inl n ↦ elim (Bool-cases obs.read_ok) [
      | inl r ↦ simp (f, n, r) (rw (started s n) at h)
      | inr r ↦ simp (f, n, r) h
    ]
    | inr n ↦ elim (Bool-cases (in_fault s && obs.read_ok)) [
      | inl d ↦ elim (Bool-cases (leb m (s.valid_run + 1))) [
        | inl e ↦
            simp (f, n, d, e, own-record_self)
              (recovered _ _ (rw (both (in_fault s) obs.read_ok d) at h) refl)
        | inr e ↦ simp (f, n, d, e) h
      ]
      | inr d ↦ simp (f, n, d) h
    ]
  ]
]

transition-other :
    (m : ℕ) (c d : Channel) (s : ChannelState) (obs : Observation) (now : ℕ) (es : List FaultEvent)
    → c ≢ d
    → own c (transition m d s obs now es).1 ≡ own c es
unfolding transition
transition-other m c d s obs now es ne = elim (Bool-cases obs.faulted) [
  | inl f ↦ elim (Bool-cases (in_fault s)) [
    | inl e ↦ simp (f, e)
    | inr e ↦ simp (f, e) (own-record_other c d es now obs.type obs.value ne)
  ]
  | inr f ↦ elim (Bool-cases (status_eq s.status no_data)) [
    | inl e ↦ simp (f, e)
    | inr e ↦ elim (Bool-cases (in_fault s && obs.read_ok)) [
      | inl g ↦ elim (Bool-cases (leb m (s.valid_run + 1))) [
        | inl l ↦ simp (f, e, g, l) (own-record_other c d es now recovery _ ne)
        | inr l ↦ simp (f, e, g, l)
      ]
      | inr g ↦ simp (f, e, g)
    ]
  ]
]

comm_timed_out-status :
    (s : ChannelState) (ok : Bool) (now t : ℕ) → (comm_timed_out s ok now t).2.status ≡ s.status
unfolding comm_timed_out
comm_timed_out-status s ok now t = ground arith

module _ (ops : FloatOps) where
  judge_baro-type :
      (d : FaultDetector) (raw : TelemetryFrame)
      → (judge_baro ops d.config d.baro_pressure raw).0.type ≢ recovery
  unfolding judge_baro
  judge_baro-type d raw = ground arith

  judge_imu-type :
      (d : FaultDetector) (raw : TelemetryFrame)
      → (judge_imu ops d.config d.imu_axes raw).0.type ≢ recovery
  unfolding judge_imu
  judge_imu-type d raw = ground arith

  judge_gps-type : (raw : TelemetryFrame) → (judge_gps ops raw).type ≢ recovery
  unfolding judge_gps
  judge_gps-type raw = ground arith

  observe_baro-fault :
      (d : FaultDetector) (raw : TelemetryFrame) (now : ℕ)
      → ((observe_baro ops d raw now).0.type ≢ recovery)
        × ((observe_baro ops d raw now).1.status ≡ d.baro_channel.status)
  unfolding observe_baro
  observe_baro-fault d raw now = (
    ground (arith, judge_baro-type d raw),
    ground
        (arith, comm_timed_out-status d.baro_channel raw.baro_read_ok now d.config.i2c_timeout_ms),
  )

  observe_imu-fault :
      (d : FaultDetector) (raw : TelemetryFrame) (now : ℕ)
      → ((observe_imu ops d raw now).0.type ≢ recovery)
        × ((observe_imu ops d raw now).1.status ≡ d.imu_channel.status)
  unfolding observe_imu
  observe_imu-fault d raw now = (
    ground (arith, judge_imu-type d raw),
    ground (arith, comm_timed_out-status d.imu_channel raw.imu_read_ok now d.config.i2c_timeout_ms),
  )

  observe_gps-fault :
      (d : FaultDetector) (raw : TelemetryFrame) (now : ℕ)
      → ((observe_gps ops d raw now).0.type ≢ recovery)
        × ((observe_gps ops d raw now).1.status ≡ d.gps_channel.status)
  unfolding observe_gps
  observe_gps-fault d raw now = (
    ground (arith, judge_gps-type raw),
    ground
        (arith, comm_timed_out-status d.gps_channel raw.gps_read_ok now d.config.uart_timeout_ms),
  )

-- Per channel the events take turns, and the latest one agrees with the status.
pub record Ledger (d : FaultDetector) : Type 0 where
  pub baro_history : History (in_fault d.baro_channel) (own baro d.events)
  pub imu_history : History (in_fault d.imu_channel) (own imu d.events)
  pub gps_history : History (in_fault d.gps_channel) (own gps d.events)

-- The detector after a sequence of frames.
pub run_checks : FloatOps → FaultDetector → List TelemetryFrame → FaultDetector
run_checks ops d [] = d
run_checks ops d (raw ∷ frames) = run_checks ops (check ops d raw).1 frames

module _ (ops : FloatOps) where
  check_baro-Ledger :
      (d : FaultDetector) (raw : TelemetryFrame) → Ledger d → Ledger (check_baro ops d raw)
  unfolding check_baro
  check_baro-Ledger d raw l = elim (Bool-cases (status_eq raw.baro_status not_available)) [
    | inl absent ↦ rw absent l
    | inr present ↦
        let m = d.config.recovery_count in
        let now = raw.timestamp_ms in
        let (obs, observed, tracker) = observe_baro ops d raw now in
        let (type, status) = observe_baro-fault ops d raw now in
        rw present (record {
          baro_history =
              transition-History m baro observed obs now d.events type (rw status l.baro_history);
          imu_history =
              rw (transition-other m imu baro observed obs now d.events (λ e. cc)) l.imu_history;
          gps_history =
              rw (transition-other m gps baro observed obs now d.events (λ e. cc)) l.gps_history;
        })
  ]

  check_imu-Ledger :
      (d : FaultDetector) (raw : TelemetryFrame) → Ledger d → Ledger (check_imu ops d raw)
  unfolding check_imu
  check_imu-Ledger d raw l = elim (Bool-cases (status_eq raw.imu_status not_available)) [
    | inl absent ↦ rw absent l
    | inr present ↦
        let m = d.config.recovery_count in
        let now = raw.timestamp_ms in
        let (obs, observed, axes) = observe_imu ops d raw now in
        let (type, status) = observe_imu-fault ops d raw now in
        rw present (record {
          imu_history =
              transition-History m imu observed obs now d.events type (rw status l.imu_history);
          baro_history =
              rw (transition-other m baro imu observed obs now d.events (λ e. cc)) l.baro_history;
          gps_history =
              rw (transition-other m gps imu observed obs now d.events (λ e. cc)) l.gps_history;
        })
  ]

  check_gps-Ledger :
      (d : FaultDetector) (raw : TelemetryFrame) → Ledger d → Ledger (check_gps ops d raw)
  unfolding check_gps
  check_gps-Ledger d raw l = elim (Bool-cases (status_eq raw.gps_status not_available)) [
    | inl absent ↦ rw absent l
    | inr present ↦
        let m = d.config.recovery_count in
        let now = raw.timestamp_ms in
        let (obs, observed) = observe_gps ops d raw now in
        let (type, status) = observe_gps-fault ops d raw now in
        rw present (record {
          gps_history =
              transition-History m gps observed obs now d.events type (rw status l.gps_history);
          baro_history =
              rw (transition-other m baro gps observed obs now d.events (λ e. cc)) l.baro_history;
          imu_history =
              rw (transition-other m imu gps observed obs now d.events (λ e. cc)) l.imu_history;
        })
  ]

  check-Ledger : (d : FaultDetector) (raw : TelemetryFrame) → Ledger d → Ledger (check ops d raw).1
  unfolding check
  check-Ledger d raw l = check_gps-Ledger _ raw (check_imu-Ledger _ raw (check_baro-Ledger d raw l))

  run_checks-Ledger :
      (d : FaultDetector) (frames : List TelemetryFrame)
      → Ledger d
      → Ledger (run_checks ops d frames)
  unfolding run_checks
  run_checks-Ledger d [] l = l
  run_checks-Ledger d (raw ∷ frames) l =
      run_checks-Ledger (check ops d raw).1 frames (check-Ledger d raw l)

  detector_init-Ledger : (c : FaultDetectorConfig) → Ledger (detector_init c)
  unfolding detector_init own
  detector_init-Ledger c = record { baro_history = clear; imu_history = clear; gps_history = clear }

  -- After any frames, in every channel's events faults and recoveries take turns, beginning with a
  -- fault, and the channel is DEGRADED exactly when its latest event is a fault.
  pub events_take_turns :
      (c : FaultDetectorConfig) (frames : List TelemetryFrame)
      → Ledger (run_checks ops (detector_init c) frames)
  events_take_turns c frames = run_checks-Ledger _ frames (detector_init-Ledger c)
