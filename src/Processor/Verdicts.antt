-- ===== src/Processor/Verdicts.antt =====
-- The validities of `src/processing/processor.cpp` against the history of the frames.
use flight_telemetry.Prelude.{
  ℕ, ◌≡◌, refl, Bool, true, false, not, ◌&&◌, ◌||◌, arith, if◌then◌else◌, Option, none, some, List,
  [], ◌∷◌, ◌∙◌, ap,
}
use flight_telemetry.Float.{FloatOps}
use flight_telemetry.Frame.{
  TelemetryFrame, Validity, nominal, no_computed_data, failure_warning, normal, status_eq,
  new_vehicle, has_flag,
}
use flight_telemetry.Processor.Seeding.{
  ever, baro_used, gps_used, shows_tilt, aligned, Seeds, init-Seeds, advance-Seeds,
}
use flight_telemetry.Processor.{
  ProcessorConfig, TelemetryProcessor, processor_init, baro_fresh, gps_fresh, begin_frame,
  take_baro, take_imu, predicted, take_altitude, advance, process, judge, compute, baro_verdict,
  attitude_verdict, fused_verdict,
}

abbrev has_value {ℓ} : {A : Type ℓ} → Option A → Bool
has_value none = false
has_value (some a) = true

module _ (ops : FloatOps) where
  -- A lane's state after the frames.
  pub advance_all : TelemetryProcessor → List TelemetryFrame → TelemetryProcessor
  advance_all p [] = p
  advance_all p (raw ∷ past) = advance ops (advance_all p past) raw

  predicted-has_value :
      (p : TelemetryProcessor) (raw : TelemetryFrame)
      → has_value (predicted ops p raw)
        ≡ (has_value p.altitude_filter || (baro_fresh raw || gps_fresh raw))
  unfolding predicted
  predicted-has_value p raw = ground arith

  take_altitude-has_value :
      (p : TelemetryProcessor) (raw : TelemetryFrame)
      → has_value (take_altitude ops p raw).altitude_filter
        ≡ (has_value p.altitude_filter || (baro_fresh raw || gps_fresh raw))
  unfolding take_altitude
  take_altitude-has_value p raw = ground (arith, predicted-has_value p raw)

  take_altitude-gps :
      (p : TelemetryProcessor) (raw : TelemetryFrame)
      → (take_altitude ops p raw).gps_ever_fresh ≡ (p.gps_ever_fresh || gps_fresh raw)
  unfolding take_altitude
  take_altitude-gps p raw = ground (arith, predicted-has_value p raw)

  take_altitude-baro :
      (p : TelemetryProcessor) (raw : TelemetryFrame)
      → (take_altitude ops p raw).baro_ever_fresh ≡ p.baro_ever_fresh
  unfolding take_altitude
  take_altitude-baro p raw = ground arith

  before_altitude : TelemetryProcessor → TelemetryFrame → TelemetryProcessor
  before_altitude p raw = take_imu ops (take_baro ops (begin_frame p raw) raw) raw

  before_altitude-facts :
      (p : TelemetryProcessor) (raw : TelemetryFrame)
      → let q = before_altitude p raw in
        let kept = not (has_flag raw new_vehicle) in
        (q.baro_ever_fresh ≡ (baro_fresh raw || (kept && p.baro_ever_fresh)))
        × (q.gps_ever_fresh ≡ (kept && p.gps_ever_fresh))
        × (has_value q.altitude_filter ≡ (kept && has_value p.altitude_filter))
  unfolding before_altitude begin_frame take_baro take_imu
  before_altitude-facts p raw = (ground arith, ground arith, ground arith)

  -- What the state remembers of the past.
  record Remembers (p : TelemetryProcessor) (past : List TelemetryFrame) : Type 0 where
    baro : p.baro_ever_fresh ≡ ever baro_used past
    gps : p.gps_ever_fresh ≡ ever gps_used past
    filter : has_value p.altitude_filter ≡ (ever baro_used past || ever gps_used past)

  advance-facts :
      (p : TelemetryProcessor) (raw : TelemetryFrame)
      → let q = advance ops p raw in
        let kept = not (has_flag raw new_vehicle) in
        (q.baro_ever_fresh ≡ (baro_fresh raw || (kept && p.baro_ever_fresh)))
        × (q.gps_ever_fresh ≡ ((kept && p.gps_ever_fresh) || gps_fresh raw))
        × (has_value q.altitude_filter
            ≡ ((kept && has_value p.altitude_filter) || (baro_fresh raw || gps_fresh raw)))
  unfolding advance before_altitude
  advance-facts p raw =
      let q = before_altitude p raw in
      let (baro, gps, filter) = before_altitude-facts p raw in
      (
        take_altitude-baro q raw ∙ baro,
        take_altitude-gps q raw ∙ ap (λ (b : Bool). b || gps_fresh raw) gps,
        take_altitude-has_value q raw
            ∙ ap (λ (b : Bool). b || (baro_fresh raw || gps_fresh raw)) filter,
      )

  remember :
      (kept b g eb eg : Bool)
      → ((kept && (eb || eg)) || (b || g)) ≡ ((b || (kept && eb)) || (g || (kept && eg)))
  remember kept b g eb eg = ground arith

  or_comm : (a b : Bool) → (a || b) ≡ (b || a)
  or_comm a b = ground arith

  advance-Remembers :
      (p : TelemetryProcessor) (raw : TelemetryFrame) (past : List TelemetryFrame)
      → Remembers p past
      → Remembers (advance ops p raw) (raw ∷ past)
  unfolding ever
  advance-Remembers p raw past r =
      let (baro, gps, filter) = advance-facts p raw in
      let kept = not (has_flag raw new_vehicle) in
      let b = ever baro_used past in
      let g = ever gps_used past in
      record {
        baro = baro ∙ rw r.baro refl;
        gps = gps ∙ rw r.gps (or_comm (kept && g) (gps_fresh raw));
        filter = filter ∙ rw r.filter (remember kept (baro_fresh raw) (gps_fresh raw) b g);
      }

  advance_all-Remembers :
      (c : ProcessorConfig) (timeout : ℕ) (past : List TelemetryFrame)
      → Remembers (advance_all (processor_init c timeout) past) past
  unfolding advance_all processor_init ever
  advance_all-Remembers c timeout [] = record { baro = refl; gps = refl; filter = refl }
  advance_all-Remembers c timeout (raw ∷ past) =
      advance-Remembers (advance_all (processor_init c timeout) past) raw past
        (advance_all-Remembers c timeout past)

-- The verdicts that the history of a vehicle and the present statuses call for.
pub altitude_verdict : List TelemetryFrame → TelemetryFrame → Validity
altitude_verdict history out =
    if ever baro_used history
    then (if status_eq out.baro_status nominal then normal else failure_warning)
    else no_computed_data

pub estimate_verdict : List TelemetryFrame → TelemetryFrame → Validity
estimate_verdict history out =
    let baro = ever baro_used history in
    let gps = ever gps_used history in
    if baro || gps
    then (if (baro && status_eq out.baro_status nominal)
          || (gps && status_eq out.gps_status nominal)
        then normal
        else failure_warning)
    else no_computed_data

baro_verdict-history :
    (p : TelemetryProcessor) (history : List TelemetryFrame) (out : TelemetryFrame)
    → p.baro_ever_fresh ≡ ever baro_used history
    → baro_verdict p out ≡ altitude_verdict history out
unfolding baro_verdict altitude_verdict
baro_verdict-history p history out e = rw e (ground arith)

fused_verdict-history :
    (p : TelemetryProcessor) (history : List TelemetryFrame) (out : TelemetryFrame)
    → p.baro_ever_fresh ≡ ever baro_used history
    → p.gps_ever_fresh ≡ ever gps_used history
    → has_value p.altitude_filter ≡ (ever baro_used history || ever gps_used history)
    → fused_verdict p out ≡ estimate_verdict history out
unfolding fused_verdict estimate_verdict
fused_verdict-history p history out e f g = ground arith

pub tilt_verdict : FloatOps → ℕ → List TelemetryFrame → TelemetryFrame → Validity
tilt_verdict ops timeout history out =
    if ever (shows_tilt ops) history
    then (if status_eq out.imu_status nominal && aligned ops timeout history
        then normal
        else failure_warning)
    else no_computed_data

module _ (ops : FloatOps) where
  attitude_verdict-history :
      (timeout : ℕ) (p : TelemetryProcessor) (history : List TelemetryFrame) (out : TelemetryFrame)
      → Seeds ops timeout p history
      → attitude_verdict p out ≡ tilt_verdict ops timeout history out
  unfolding attitude_verdict tilt_verdict
  attitude_verdict-history timeout p history out h = rw (h.seeded, h.aligned_now) (ground arith)

  advance_all-Seeds :
      (c : ProcessorConfig) (timeout : ℕ) (past : List TelemetryFrame)
      → Seeds ops timeout (advance_all ops (processor_init c timeout) past) past
  unfolding advance_all
  advance_all-Seeds c timeout [] = init-Seeds ops c timeout
  advance_all-Seeds c timeout (raw ∷ past) =
      advance-Seeds ops timeout (advance_all ops (processor_init c timeout) past) raw past
        (advance_all-Seeds c timeout past)

  -- After any frames the five verdicts are those of the history since the current vehicle's first frame.
  -- Each is no data until a used reading: the barometer's for the altitude, the barometer's or the GPS's
  -- for the two fused values, and for pitch and roll an IMU sample that shows the tilt. From then on each
  -- is a warning unless a channel that was read is NOMINAL now; for pitch and roll also unless the filter
  -- was seeded since the last outage longer than the timeout.
  pub process-verdicts :
      (c : ProcessorConfig) (timeout : ℕ) (past : List TelemetryFrame) (raw : TelemetryFrame)
      → let out = (process ops (advance_all ops (processor_init c timeout) past) raw).0 in
        (out.baro_altitude_validity ≡ altitude_verdict (raw ∷ past) raw)
        × (out.fused_altitude_validity ≡ estimate_verdict (raw ∷ past) raw)
        × (out.vertical_speed_validity ≡ estimate_verdict (raw ∷ past) raw)
        × (out.pitch_validity ≡ tilt_verdict ops timeout (raw ∷ past) raw)
        × (out.roll_validity ≡ tilt_verdict ops timeout (raw ∷ past) raw)
  unfolding process judge compute altitude_verdict estimate_verdict tilt_verdict
  process-verdicts c timeout past raw =
      let p = advance ops (advance_all ops (processor_init c timeout) past) raw in
      let r = advance-Remembers ops _ raw past (advance_all-Remembers ops c timeout past) in
      let seeds = advance-Seeds ops timeout _ raw past (advance_all-Seeds c timeout past) in
      let out = compute ops p raw in
      let fused = fused_verdict-history p (raw ∷ past) out r.baro r.gps r.filter in
      let tilt = attitude_verdict-history timeout p (raw ∷ past) out seeds in
      (baro_verdict-history p (raw ∷ past) out r.baro, fused, fused, tilt, tilt)
