-- ===== src/Injector/Confined.antt =====
-- The injector of `src/processing/lane_fault_injector.cpp` around the three lanes of
-- `src/processing/redundant_processor.cpp`: faults on one lane stay in that lane.
use flight_telemetry.Prelude.{
  ℕ, ◌≡◌, ◌≢◌, refl, ◌∙◌, ap, Bool, true, false, not, ◌&&◌, ◌==◌, if◌then◌else◌, some, List, [],
  ◌∷◌, map, All,
}
use flight_telemetry.Float.{FloatOps, of_uint}
use flight_telemetry.Frame.{TelemetryFrame}
use flight_telemetry.Lanes.{Lane, first, second, third, number}
use flight_telemetry.Event.{FaultEvent, record_event, voter, lane_fault_injected}
use flight_telemetry.Voter.Agreement.{IsNumeric}
use flight_telemetry.Processor.{ProcessorConfig, processor_init}
use flight_telemetry.Redundant.{
  LaneFaultHook, RedundantProcessor, redundant_init, run_lane, run_lanes, process, process_all,
}
use flight_telemetry.Redundant.Masking.{LeavesAlone, lane_all, with_status, process_all_masks}
use flight_telemetry.Injector.{
  LaneFault, Scheduled, LaneFaultInjector, injector_init, injector_hook, perturb_inputs,
  perturb_outputs, perturb_output, active, alter,
}

-- Every scheduled fault is on lane `k`.
abbrev pub OnLane : Lane → List Scheduled → Type 0
OnLane k faults = All (λ (s : Scheduled). s.fault.lane ≡ number k) faults

other_lane : (m k : Lane) → m ≢ k → (number k == number m) ≡ false
other_lane first first d = elim (d refl) [ ]
other_lane first second d = refl
other_lane first third d = refl
other_lane second first d = refl
other_lane second second d = elim (d refl) [ ]
other_lane second third d = refl
other_lane third first d = refl
other_lane third second d = refl
other_lane third third d = elim (d refl) [ ]

perturb_inputs-other :
    (m k : Lane) (faults : List Scheduled) (frame : TelemetryFrame)
    → m ≢ k
    → OnLane k faults
    → perturb_inputs m faults frame ≡ frame
unfolding perturb_inputs
perturb_inputs-other m k [] frame d on = refl
perturb_inputs-other m k (s ∷ rest) frame d (e, on) =
    rw (e, other_lane m k d) (perturb_inputs-other m k rest frame d on)

perturb_outputs-other :
    (m k : Lane) (t : ℕ) (have : Bool) (stale : TelemetryFrame) (faults : List Scheduled)
    (frame : TelemetryFrame) (events : List FaultEvent)
    → m ≢ k
    → OnLane k faults
    → (perturb_outputs m t have stale faults frame events).0 ≡ frame
unfolding perturb_outputs
perturb_outputs-other m k t have stale [] frame events d on = refl
perturb_outputs-other m k t have stale (s ∷ rest) frame events d (e, on) =
    rw (e, other_lane m k d) (perturb_outputs-other m k t have stale rest frame events d on)

-- The two lanes beside `k`.
others : (k : Lane) → (i : Lane) × (j : Lane) × ((i ≢ j) × (i ≢ k) × (j ≢ k))
others first = (second, third, (λ e. cc, λ e. cc, λ e. cc))
others second = (first, third, (λ e. cc, λ e. cc, λ e. cc))
others third = (first, second, (λ e. cc, λ e. cc, λ e. cc))

-- What the loop does to one scheduled fault.
announced-lane :
    (b : Bool) (s : Scheduled)
    → (if b then (record s { announced = true }) else s).fault.lane ≡ s.fault.lane
announced-lane true s = refl
announced-lane false s = refl

-- The loop keeps the faults and changes only who has been announced.
perturb_outputs-OnLane :
    (m k : Lane) (t : ℕ) (have : Bool) (stale : TelemetryFrame) (faults : List Scheduled)
    (frame : TelemetryFrame) (events : List FaultEvent)
    → OnLane k faults
    → OnLane k (perturb_outputs m t have stale faults frame events).1
unfolding perturb_outputs
perturb_outputs-OnLane m k t have stale [] frame events on = tt
perturb_outputs-OnLane m k t have stale (s ∷ rest) frame events (e, on) =
    let fault = s.fault in
    let applies = fault.lane == number m && active fault t in
    let announces = applies && (fault.recorded && not s.announced) in
    let events' =
      if announces
      then record_event events t voter lane_fault_injected (of_uint (number m))
      else events in
    let frame' = if applies then alter fault have stale frame else frame in
    (announced-lane announces s ∙ e, perturb_outputs-OnLane m k t have stale rest frame' events' on)

-- The injector's states whose faults are all on lane `k`, a hook state of their own.
abbrev Confined : Lane → Type 0
Confined k = (s : LaneFaultInjector) × OnLane k s.faults

unfoldable confined_hook : (k : Lane) → LaneFaultHook (Confined k)
unfolding injector_hook perturb_output
confined_hook k = record {
  perturb_input = λ (s, on) m f. (perturb_inputs m s.faults f, (s, on));
  perturb_output = λ (s, on) m f.
      let (out, s') = perturb_output s m f in
      (out, (s', perturb_outputs-OnLane m k _ _ _ s.faults f s.events on));
}

confined_hook-LeavesAlone : (m k : Lane) → m ≢ k → LeavesAlone (some (confined_hook k)) m
unfolding confined_hook perturb_output
confined_hook-LeavesAlone m k d = record {
  input = λ (s, on) f. perturb_inputs-other m k s.faults f d on;
  output = λ (s, on) f. perturb_outputs-other m k _ _ _ s.faults f s.events d on;
}

module _ (ops : FloatOps) where
  -- The proof that a state carries does not touch the frames.
  process_all-confined :
      (k : Lane) (s : LaneFaultInjector) (on : OnLane k s.faults) (r : RedundantProcessor)
      (frames : List TelemetryFrame)
      → process_all ops (some injector_hook) s r frames
        ≡ process_all ops (some (confined_hook k)) (s, on) r frames
  unfolding process_all process run_lanes run_lane injector_hook perturb_output confined_hook
  process_all-confined k s on r [] = refl
  process_all-confined k s on r (checked ∷ frames) =
      let (out, r', s') = process ops (some (confined_hook k)) (s, on) r checked in
      ap (λ fs. out ∷ fs) (process_all-confined k s'.0 s'.1 r' frames)

  injector_init-OnLane :
      (k : Lane) (faults : List LaneFault)
      → All (λ (f : LaneFault). f.lane ≡ number k) faults
      → OnLane k (injector_init faults).faults
  unfolding injector_init
  injector_init-OnLane k [] on = tt
  injector_init-OnLane k (f ∷ fs) (e, on) = (e, injector_init-OnLane k fs on)

  -- Injected faults of any number, kind and time, all on one lane, leave the emitted frames those of one
  -- processor alone, all fields but the voter status, over any frames on which that processor computes
  -- no NaN.
  pub injected_faults_masked :
      (k : Lane) (tuning : ProcessorConfig) (timeout persistence : ℕ) (faults : List LaneFault)
      (frames : List TelemetryFrame)
      → All (λ (f : LaneFault). f.lane ≡ number k) faults
      → All IsNumeric (lane_all ops (processor_init tuning timeout) frames)
      → map (with_status 0) (
          process_all ops
            (some injector_hook)
            (injector_init faults)
            (redundant_init tuning timeout persistence)
            frames)
        ≡ map (with_status 0) (lane_all ops (processor_init tuning timeout) frames)
  injected_faults_masked k tuning timeout persistence faults frames on n =
      let (i, j, (distinct, left, right)) = others k in
      let on' = injector_init-OnLane k faults on in
      ap (map (with_status 0)) (
        process_all-confined k (injector_init faults) on'
          (redundant_init tuning timeout persistence) frames)
      ∙ process_all_masks ops (some (confined_hook k)) i j tuning timeout persistence
          (injector_init faults, on') frames distinct (confined_hook-LeavesAlone i k left)
          (confined_hook-LeavesAlone j k right) n
