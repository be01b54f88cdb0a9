-- ===== src/Processor/Seeding.antt =====
-- The seed of the attitude filter in `src/processing/processor.cpp`, by the history of the frames.
use flight_telemetry.Prelude.{
  ℕ, ◌≡◌, refl, Bool, true, false, not, ◌&&◌, ◌||◌, arith, if◌then◌else◌, Option, none, some, List,
  [], ◌∷◌, ◌∙◌, ltb,
}
use flight_telemetry.Float.{FloatOps}
use flight_telemetry.Frame.{
  TelemetryFrame, ChannelStatus, nominal, status_eq, new_vehicle, has_flag,
}
use flight_telemetry.Detector.State.{elapsed_ms}
use flight_telemetry.Attitude
use flight_telemetry.Attitude.{complementary_filter, is_usable}
use flight_telemetry.Processor.{
  ProcessorConfig, TelemetryProcessor, processor_init, sample, begin_frame, take_baro, take_imu,
  imu_interval, take_altitude, advance,
}

-- Whether a frame passed the test since the current vehicle's first frame; the latest frame comes first.
unfoldable pub ever : (TelemetryFrame → Bool) → List TelemetryFrame → Bool
ever test [] = false
ever test (raw ∷ past) = test raw || (not (has_flag raw new_vehicle) && ever test past)

-- A reading that is used: this frame's, of a channel that the detector trusts.
abbrev pub is_used : ChannelStatus → Bool → Bool
is_used status read_ok = status_eq status nominal && read_ok

abbrev pub baro_used : TelemetryFrame → Bool
baro_used raw = is_used raw.baro_status raw.baro_read_ok

abbrev pub imu_used : TelemetryFrame → Bool
imu_used raw = is_used raw.imu_status raw.imu_read_ok

abbrev pub gps_used : TelemetryFrame → Bool
gps_used raw = is_used raw.gps_status raw.gps_read_ok

-- The time of the vehicle's latest used IMU sample.
pub last_sample : List TelemetryFrame → Option ℕ
last_sample [] = none
last_sample (raw ∷ past) =
    let earlier = last_sample past in
    if imu_used raw
    then some raw.timestamp_ms
    else if has_flag raw new_vehicle
    then none
    else earlier

-- More than the timeout since that sample.
abbrev pub is_outage : ℕ → ℕ → Option ℕ → Bool
is_outage timeout now none = false
is_outage timeout now (some last) = ltb timeout (elapsed_ms now last)

module _ (ops : FloatOps) where
  -- A used sample whose accelerations measure gravity.
  abbrev pub shows_tilt : TelemetryFrame → Bool
  shows_tilt raw = imu_used raw && is_usable ops (sample raw)

  -- Whether a sample that shows the tilt came since the vehicle's first frame and the latest outage
  -- that a used sample ended.
  pub aligned : ℕ → List TelemetryFrame → Bool
  aligned timeout [] = false
  aligned timeout (raw ∷ past) =
      let kept = not (has_flag raw new_vehicle) && aligned timeout past in
      let ended = imu_used raw && is_outage timeout raw.timestamp_ms (last_sample past) in
      shows_tilt raw || (kept && not ended)

  -- An aligned filter was seeded.
  aligned-ever :
      (timeout : ℕ) (past : List TelemetryFrame)
      → aligned timeout past ≡ true
      → ever shows_tilt past ≡ true
  unfolding aligned ever
  aligned-ever timeout [] e = e
  aligned-ever timeout (raw ∷ past) e = ground (arith, aligned-ever timeout past)

  -- What the state remembers of the samples.
  pub record Seeds (timeout : ℕ) (p : TelemetryProcessor) (past : List TelemetryFrame)
      : Type 0 where
    pub timeout_ms : p.imu_timeout_ms ≡ timeout
    pub last : p.imu_last_fresh_ms ≡ last_sample past
    pub aligned_now : p.attitude_filter.initialized ≡ aligned timeout past
    pub seeded : p.attitude_ever_seeded ≡ ever shows_tilt past

  update-initialized :
      (f : Attitude.ComplementaryFilter) (s : Attitude.ImuSample) (dt : ℕ)
      → (Attitude.update ops f s dt).initialized ≡ (f.initialized || is_usable ops s)
  unfolding Attitude.update
  update-initialized f s dt = ground arith

  imu_interval-initialized :
      (p : TelemetryProcessor) (raw : TelemetryFrame)
      → (imu_interval ops p raw).0.initialized ≡ (
          p.attitude_filter.initialized
          && not (is_outage p.imu_timeout_ms raw.timestamp_ms p.imu_last_fresh_ms))
  unfolding imu_interval Attitude.reset
  imu_interval-initialized p raw = ground arith

  -- What the altitude's steps leave alone.
  take_altitude-attitude :
      (p : TelemetryProcessor) (raw : TelemetryFrame)
      → let q = take_altitude ops p raw in
        (q.imu_timeout_ms ≡ p.imu_timeout_ms)
        × (q.imu_last_fresh_ms ≡ p.imu_last_fresh_ms)
        × (q.attitude_filter ≡ p.attitude_filter)
        × (q.attitude_ever_seeded ≡ p.attitude_ever_seeded)
  unfolding take_altitude
  take_altitude-attitude p raw = (ground arith, ground arith, ground arith, ground arith)

  take_imu-facts :
      (p : TelemetryProcessor) (raw : TelemetryFrame)
      → let q = take_imu ops p raw in
        let ended = is_outage p.imu_timeout_ms raw.timestamp_ms p.imu_last_fresh_ms in
        let kept = p.attitude_filter.initialized && not (imu_used raw && ended) in
        (q.imu_timeout_ms ≡ p.imu_timeout_ms)
        × (q.imu_last_fresh_ms
            ≡ (if imu_used raw then some raw.timestamp_ms else p.imu_last_fresh_ms))
        × (q.attitude_filter.initialized ≡ (shows_tilt raw || kept))
        × (q.attitude_ever_seeded
            ≡ (p.attitude_ever_seeded || (imu_used raw && (shows_tilt raw || kept))))
  unfolding take_imu
  take_imu-facts p raw =
      let start = imu_interval-initialized p raw in
      let seed =
        update-initialized (imu_interval ops p raw).0 (sample raw) (imu_interval ops p raw).1 in
      (ground arith, ground arith, ground (arith, start, seed), ground (arith, start, seed))

  begun-facts :
      (p : TelemetryProcessor) (raw : TelemetryFrame)
      → let q = take_baro ops (begin_frame p raw) raw in
        let is_new = has_flag raw new_vehicle in
        (q.imu_timeout_ms ≡ p.imu_timeout_ms)
        × (q.imu_last_fresh_ms ≡ (if is_new then none else p.imu_last_fresh_ms))
        × (q.attitude_filter.initialized ≡ (not is_new && p.attitude_filter.initialized))
        × (q.attitude_ever_seeded ≡ (not is_new && p.attitude_ever_seeded))
  unfolding begin_frame take_baro complementary_filter
  begun-facts p raw = (ground arith, ground arith, ground arith, ground arith)

  -- The facts of a frame's steps, put together.
  advance-seeds :
      (p : TelemetryProcessor) (raw : TelemetryFrame)
      → let q = advance ops p raw in
        let is_new = has_flag raw new_vehicle in
        let last : Option ℕ = if is_new then none else p.imu_last_fresh_ms in
        let ended = is_outage p.imu_timeout_ms raw.timestamp_ms last in
        let kept = (not is_new && p.attitude_filter.initialized) && not (imu_used raw && ended) in
        (q.imu_timeout_ms ≡ p.imu_timeout_ms)
        × (q.imu_last_fresh_ms ≡ (if imu_used raw then some raw.timestamp_ms else last))
        × (q.attitude_filter.initialized ≡ (shows_tilt raw || kept))
        × (q.attitude_ever_seeded ≡ (
            (not is_new && p.attitude_ever_seeded) || (imu_used raw && (shows_tilt raw || kept))))
  unfolding advance
  advance-seeds p raw =
      let begun = take_baro ops (begin_frame p raw) raw in
      let (t, l, f, e) = begun-facts p raw in
      let (t', l', f', e') = take_imu-facts begun raw in
      let (t'', l'', f'', e'') = take_altitude-attitude (take_imu ops begun raw) raw in
      (
        t'' ∙ t' ∙ t,
        rw (l'', l', l) refl,
        rw (f'', f', t, l, f) refl,
        rw (e'', e', t, l, f, e) refl,
      )

  pub init-Seeds : (c : ProcessorConfig) (timeout : ℕ) → Seeds timeout (processor_init c timeout) []
  unfolding processor_init complementary_filter aligned ever last_sample
  init-Seeds c timeout = record {
    timeout_ms = refl;
    last = refl;
    aligned_now = refl;
    seeded = refl;
  }

  pub advance-Seeds :
      (timeout : ℕ) (p : TelemetryProcessor) (raw : TelemetryFrame) (past : List TelemetryFrame)
      → Seeds timeout p past
      → Seeds timeout (advance ops p raw) (raw ∷ past)
  unfolding last_sample aligned ever
  advance-Seeds timeout p raw past h =
      let (t, l, f, e) = advance-seeds p raw in
      let seen = aligned-ever timeout past in
      record {
        timeout_ms = t ∙ h.timeout_ms;
        last = ground (arith, l, h.last);
        aligned_now = f ∙ rw (h.timeout_ms, h.last, h.aligned_now) (ground arith);
        seeded = e ∙ rw (h.timeout_ms, h.last, h.aligned_now, h.seeded) (ground (arith, seen));
      }
