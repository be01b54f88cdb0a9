-- ===== src/Detector/Channels.antt =====
-- The timeout and the recovery of one channel in `src/processing/fault_detector.cpp`, over sequences of
-- frames.
use flight_telemetry.Prelude.{
  ℕ, ◌+◌, ◌-◌, ◌≤◌, ◌<◌, ◌^◌, ◌≡◌, ◌⊎◌, refl, Bool, true, false, arith, Bool-cases, if◌then◌else◌,
  ltb, leb, List, [], ◌∷◌, inl, inr, All, ◌∙◌,
}
use native.Mathlib.Nat.{add-zero, zero-add, add_assoc}
use flight_telemetry.Float.{of_uint}
use flight_telemetry.Frame.{nominal, degraded}
use flight_telemetry.Event.{FaultEvent, Channel, recovery, record_event}
use flight_telemetry.Detector.State.{
  ChannelState, Observation, comm_timed_out, transition, elapsed_ms,
}

-- The channel's clock after reads that failed at the given times.
pub failed_reads : ℕ → ChannelState → List ℕ → ChannelState
failed_reads timeout s [] = s
failed_reads timeout s (now ∷ times) =
    failed_reads timeout (comm_timed_out s false now timeout).2 times

failed_read-clock :
    (timeout : ℕ) (s : ChannelState) (now : ℕ)
    → s.has_last_ok ≡ true
    → (comm_timed_out s false now timeout).2 ≡ s
unfolding comm_timed_out
failed_read-clock timeout s now h = rw h refl

failed_reads-clock :
    (timeout : ℕ) (s : ChannelState) (times : List ℕ)
    → s.has_last_ok ≡ true
    → failed_reads timeout s times ≡ s
unfolding failed_reads
failed_reads-clock timeout s [] h = refl
failed_reads-clock timeout s (now ∷ times) h =
    rw (failed_read-clock timeout s now h) (failed_reads-clock timeout s times h)

elapsed_ms-eq : (now start : ℕ) → start ≤ now → now < 2 ^ 64 → elapsed_ms now start ≡ now - start
elapsed_ms-eq now start h k = omega arith

starts_clock :
    (timeout start : ℕ) (s : ChannelState) (read_ok : Bool)
    → (read_ok ≡ true) ⊎ (s.has_last_ok ≡ false)
    → let s' = (comm_timed_out s read_ok start timeout).2 in
      (s'.has_last_ok ≡ true) × (s'.last_ok_ms ≡ start)
unfolding comm_timed_out
starts_clock timeout start s read_ok h = ground arith

timed_out_at :
    (timeout now : ℕ) (s : ChannelState)
    → s.has_last_ok ≡ true
    → (comm_timed_out s false now timeout).0 ≡ ltb timeout (elapsed_ms now s.last_ok_ms)
unfolding comm_timed_out
timed_out_at timeout now s h = rw h refl

-- The clock starts at a good read, or at the first read of a channel that never had one. If every later
-- read fails, the one at `now` is a timeout exactly when more than the timeout has passed since.
pub timeout_exact :
    (timeout start now : ℕ) (s : ChannelState) (read_ok : Bool) (times : List ℕ)
    → (read_ok ≡ true) ⊎ (s.has_last_ok ≡ false)
    → start ≤ now
    → now < 2 ^ 64
    → let s' = failed_reads timeout (comm_timed_out s read_ok start timeout).2 times in
      (comm_timed_out s' false now timeout).0 ≡ ltb timeout (now - start)
timeout_exact timeout start now s read_ok times h le lt =
    let s' = (comm_timed_out s read_ok start timeout).2 in
    let (ready, at) = starts_clock timeout start s read_ok h in
    rw (failed_reads-clock timeout s' times ready)
      (timed_out_at timeout now s' ready ∙ rw (at, elapsed_ms-eq now start le lt) refl)

-- A channel fed a run of observations.
pub observe_all :
    ℕ
    → Channel
    → ChannelState × List FaultEvent
    → List (Observation × ℕ)
    → ChannelState × List FaultEvent
observe_all m c t [] = t
observe_all m c (s, es) ((obs, now) ∷ rest) = observe_all m c (transition m c s obs now es) rest

unfoldable pub fresh_count : List (Observation × ℕ) → ℕ
fresh_count [] = 0
fresh_count ((obs, now) ∷ rest) = (if obs.read_ok then 1 else 0) + fresh_count rest

abbrev pub Faultless : List (Observation × ℕ) → Type 0
Faultless = All (λ (p : Observation × ℕ). p.0.faulted ≡ false)

clean_step-fresh :
    (m : ℕ) (c : Channel) (s : ChannelState) (obs : Observation) (now : ℕ) (es : List FaultEvent)
    → s.status ≡ degraded
    → obs.faulted ≡ false
    → obs.read_ok ≡ true
    → s.valid_run + 1 < m
    → transition m c s obs now es ≡ (record s { valid_run = s.valid_run + 1 }, es)
unfolding transition
clean_step-fresh m c s obs now es d f r lt =
    simp (d, f, r)
      (elim (Bool-cases (leb m (s.valid_run + 1))) [
        | inl e ↦ absurd (ground arith)
        | inr e ↦ rw e refl
      ])

clean_step-stale :
    (m : ℕ) (c : Channel) (s : ChannelState) (obs : Observation) (now : ℕ) (es : List FaultEvent)
    → s.status ≡ degraded
    → obs.faulted ≡ false
    → obs.read_ok ≡ false
    → transition m c s obs now es ≡ (s, es)
unfolding transition
clean_step-stale m c s obs now es d f r = simp (d, f, r)

clean_step-last :
    (m : ℕ) (c : Channel) (s : ChannelState) (obs : Observation) (now : ℕ) (es : List FaultEvent)
    → s.status ≡ degraded
    → obs.faulted ≡ false
    → obs.read_ok ≡ true
    → s.valid_run + 1 ≡ m
    → transition m c s obs now es ≡ (
      record s { status = nominal; valid_run = 0 },
      record_event es now c recovery (of_uint (elapsed_ms now s.degraded_since_ms)),
    )
unfolding transition
clean_step-last m c s obs now es d f r e =
    simp (d, f, r)
      (elim (Bool-cases (leb m (s.valid_run + 1))) [
        | inl h ↦ rw h refl
        | inr h ↦ absurd (ground arith)
      ])

clean_run :
    (m : ℕ) (c : Channel) (s : ChannelState) (es : List FaultEvent)
    (frames : List (Observation × ℕ))
    → s.status ≡ degraded
    → Faultless frames
    → s.valid_run + fresh_count frames < m
    → observe_all m c (s, es) frames
      ≡ (record s { valid_run = s.valid_run + fresh_count frames }, es)
unfolding observe_all fresh_count
clean_run m c s es [] d _ lt = rw (add-zero s.valid_run) refl
clean_run m c s es ((obs, now) ∷ frames) d (f, fs) lt = elim (Bool-cases obs.read_ok) [
  | inl r ↦
      let s' = record s { valid_run = s.valid_run + 1 } in
      let step = clean_step-fresh m c s obs now es d f r (ground arith) in
      let rest = clean_run m c s' es frames d fs (ground arith) in
      simp (step, r, add_assoc) (simp add_assoc at rest)
  | inr r ↦
      let step = clean_step-stale m c s obs now es d f r in
      let rest = clean_run m c s es frames d fs (ground arith) in simp (step, r, zero-add) rest
]

-- A channel just degraded stays so, with no event, while it has fewer than `m` fresh readings without a
-- fault, stale frames in between counting neither way; the next fresh one that makes them `m` is the
-- recovery, with its event and the time since the fault.
pub recovery_exact :
    (m : ℕ) (c : Channel) (s : ChannelState) (es : List FaultEvent)
    (frames : List (Observation × ℕ)) (obs : Observation) (now : ℕ)
    → s.status ≡ degraded
    → s.valid_run ≡ 0
    → Faultless frames
    → obs.faulted ≡ false
    → obs.read_ok ≡ true
    → fresh_count frames + 1 ≡ m
    → let (waiting, events) = observe_all m c (s, es) frames in
      (waiting.status ≡ degraded)
      × (events ≡ es)
      × (transition m c waiting obs now events ≡ (
        record s { status = nominal; valid_run = 0 },
        record_event es now c recovery (of_uint (elapsed_ms now s.degraded_since_ms)),
      ))
recovery_exact m c s es frames obs now d z fs f r e =
    let n = fresh_count frames in
    let waiting : ChannelState = record s { valid_run = s.valid_run + n } in
    let run = clean_run m c s es frames d fs (omega arith) in
    rw run (d, refl, clean_step-last m c waiting obs now es d f r (omega arith))
