-- ===== src/Detector/Gate.antt =====
-- What `FaultDetector::check` of `src/processing/fault_detector.cpp` lets through: a reading that reaches
-- the filters as NOMINAL and fresh has passed every test of its channel.
use flight_telemetry.Prelude.{ℕ, ◌≡◌, refl, true, false, arith, Bool-cases, List, inl, inr}
use flight_telemetry.Float.{FloatOps}
use flight_telemetry.Frame.{TelemetryFrame, nominal, degraded, status_eq, not_available}
use flight_telemetry.Event.{FaultEvent, Channel}
use flight_telemetry.Detector.State.{FaultDetector, ChannelState, Observation, transition}
use flight_telemetry.Detector.Observe.{
  judge_baro, judge_imu, judge_gps, observe_baro, observe_imu, observe_gps,
}
use flight_telemetry.Detector.Judged.{
  BaroPassed, ImuPassed, GpsPassed, judge_baro-passed, judge_imu-passed, judge_gps-passed,
}
use flight_telemetry.Detector.Check.{check, check_baro, check_imu, check_gps}

-- A fault leaves the channel DEGRADED, whatever it was.
transition_fault :
    (m : ℕ) (c : Channel) (s : ChannelState) (obs : Observation) (now : ℕ) (es : List FaultEvent)
    → obs.faulted ≡ true
    → (transition m c s obs now es).0.status ≡ degraded
unfolding transition
transition_fault m c s obs now es f = ground arith

transition_nominal :
    (m : ℕ) (c : Channel) (s : ChannelState) (obs : Observation) (now : ℕ) (es : List FaultEvent)
    → (transition m c s obs now es).0.status ≡ nominal
    → obs.faulted ≡ false
unfolding transition
transition_nominal m c s obs now es e = ground arith

module _ (ops : FloatOps) where
  observe_baro-judged :
      (d : FaultDetector) (raw : TelemetryFrame) (now : ℕ)
      → raw.baro_read_ok ≡ true
      → (observe_baro ops d raw now).0.faulted ≡ false
      → (judge_baro ops d.config d.baro_pressure raw).0.faulted ≡ false
  unfolding observe_baro
  observe_baro-judged d raw now ok e = ground arith

  check_baro-status :
      (d : FaultDetector) (raw : TelemetryFrame)
      → status_eq raw.baro_status not_available ≡ false
      → (check_baro ops d raw).baro_channel.status ≡ nominal
      → (observe_baro ops d raw raw.timestamp_ms).0.faulted ≡ false
  unfolding check_baro
  check_baro-status d raw present e = transition_nominal _ _ _ _ _ _ (rw present at e)

  -- The three channels do not touch one another's state.
  pub check_baro-keeps :
      (d : FaultDetector) (raw : TelemetryFrame)
      → let d' = check_baro ops d raw in
        (d'.config ≡ d.config)
        × (d'.imu_channel ≡ d.imu_channel)
        × (d'.imu_axes ≡ d.imu_axes)
        × (d'.gps_channel ≡ d.gps_channel)
  unfolding check_baro
  check_baro-keeps d raw = elim (Bool-cases (status_eq raw.baro_status not_available)) [
    | inl e ↦ rw e (refl, refl, refl, refl)
    | inr e ↦ rw e (refl, refl, refl, refl)
  ]

  pub check_imu-keeps :
      (d : FaultDetector) (raw : TelemetryFrame)
      → let d' = check_imu ops d raw in
        (d'.config ≡ d.config)
        × (d'.baro_channel ≡ d.baro_channel)
        × (d'.baro_pressure ≡ d.baro_pressure)
        × (d'.gps_channel ≡ d.gps_channel)
  unfolding check_imu
  check_imu-keeps d raw = elim (Bool-cases (status_eq raw.imu_status not_available)) [
    | inl e ↦ rw e (refl, refl, refl, refl)
    | inr e ↦ rw e (refl, refl, refl, refl)
  ]

  pub check_gps-keeps :
      (d : FaultDetector) (raw : TelemetryFrame)
      → let d' = check_gps ops d raw in
        (d'.config ≡ d.config)
        × (d'.baro_channel ≡ d.baro_channel)
        × (d'.imu_channel ≡ d.imu_channel)
        × (d'.baro_pressure ≡ d.baro_pressure)
        × (d'.imu_axes ≡ d.imu_axes)
  unfolding check_gps
  check_gps-keeps d raw = elim (Bool-cases (status_eq raw.gps_status not_available)) [
    | inl e ↦ rw e (refl, refl, refl, refl, refl)
    | inr e ↦ rw e (refl, refl, refl, refl, refl)
  ]

  -- A barometer reading that leaves the detector fresh and NOMINAL is finite, inside the four limits, and
  -- not stuck.
  pub check-baro_gate :
      (d : FaultDetector) (raw : TelemetryFrame)
      → raw.baro_read_ok ≡ true
      → (check ops d raw).0.baro_status ≡ nominal
      → BaroPassed ops d raw
  unfolding check
  check-baro_gate d raw ok e = elim (Bool-cases (status_eq raw.baro_status not_available)) [
    | inl absent ↦ cc (rw absent at e)
    | inr present ↦
        let (_, kept_imu, _, _) = check_imu-keeps (check_baro ops d raw) raw in
        let (_, kept_gps, _, _, _) =
          check_gps-keeps (check_imu ops (check_baro ops d raw) raw) raw in
        let own : (check_baro ops d raw).baro_channel.status ≡ nominal =
          rw (present, kept_gps, kept_imu) at e in
        judge_baro-passed ops d raw
          (observe_baro-judged d raw raw.timestamp_ms ok (check_baro-status d raw present own))
  ]

  observe_imu-judged :
      (d : FaultDetector) (raw : TelemetryFrame) (now : ℕ)
      → raw.imu_read_ok ≡ true
      → (observe_imu ops d raw now).0.faulted ≡ false
      → (judge_imu ops d.config d.imu_axes raw).0.faulted ≡ false
  unfolding observe_imu
  observe_imu-judged d raw now ok e = ground arith

  check_imu-status :
      (d : FaultDetector) (raw : TelemetryFrame)
      → status_eq raw.imu_status not_available ≡ false
      → (check_imu ops d raw).imu_channel.status ≡ nominal
      → (observe_imu ops d raw raw.timestamp_ms).0.faulted ≡ false
  unfolding check_imu
  check_imu-status d raw present e = transition_nominal _ _ _ _ _ _ (rw present at e)

  -- An IMU sample that leaves the detector fresh and NOMINAL is finite on six axes, off the rails on the
  -- three accelerometer axes, and stuck on none.
  pub check-imu_gate :
      (d : FaultDetector) (raw : TelemetryFrame)
      → raw.imu_read_ok ≡ true
      → (check ops d raw).0.imu_status ≡ nominal
      → ImuPassed ops d.config.stuck_count d.imu_axes raw
  unfolding check
  check-imu_gate d raw ok e = elim (Bool-cases (status_eq raw.imu_status not_available)) [
    | inl absent ↦ cc (rw absent at e)
    | inr present ↦
        let b = check_baro ops d raw in
        let (_, _, kept, _, _) = check_gps-keeps (check_imu ops b raw) raw in
        let own : (check_imu ops b raw).imu_channel.status ≡ nominal = rw (present, kept) at e in
        let passed =
          judge_imu-passed ops b raw
            (observe_imu-judged b raw raw.timestamp_ms ok (check_imu-status b raw present own)) in
        let (config, _, axes, _) = check_baro-keeps d raw in rw (config, axes) at passed
  ]

  observe_gps-judged :
      (d : FaultDetector) (raw : TelemetryFrame) (now : ℕ)
      → raw.gps_read_ok ≡ true
      → (observe_gps ops d raw now).0.faulted ≡ false
      → (judge_gps ops raw).faulted ≡ false
  unfolding observe_gps
  observe_gps-judged d raw now ok e = ground arith

  check_gps-status :
      (d : FaultDetector) (raw : TelemetryFrame)
      → status_eq raw.gps_status not_available ≡ false
      → (check_gps ops d raw).gps_channel.status ≡ nominal
      → (observe_gps ops d raw raw.timestamp_ms).0.faulted ≡ false
  unfolding check_gps
  check_gps-status d raw present e = transition_nominal _ _ _ _ _ _ (rw present at e)

  -- A fix that leaves the detector fresh and NOMINAL is finite in its five fields.
  pub check-gps_gate :
      (d : FaultDetector) (raw : TelemetryFrame)
      → raw.gps_read_ok ≡ true
      → (check ops d raw).0.gps_status ≡ nominal
      → GpsPassed ops raw
  unfolding check
  check-gps_gate d raw ok e = elim (Bool-cases (status_eq raw.gps_status not_available)) [
    | inl absent ↦ cc (rw absent at e)
    | inr present ↦
        let i = check_imu ops (check_baro ops d raw) raw in
        judge_gps-passed ops raw (
          observe_gps-judged i raw raw.timestamp_ms ok
            (check_gps-status i raw present (rw present at e)))
  ]
