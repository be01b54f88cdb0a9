-- ===== src/Detector/Stuck.antt =====
-- `FaultDetector::StuckTracker` of `src/processing/fault_detector.cpp` over a sequence of readings.
use flight_telemetry.Prelude.{
  ℕ, zero, suc, ◌+◌, ◌≤◌, ◌≡◌, ◌↔◌, refl, true, arith, Bool-cases, if◌then◌else◌, leb, List, [],
  ◌∷◌, inl, inr,
}
use flight_telemetry.Float.{Float, float_eq}
use flight_telemetry.Detector.State.{StuckTracker, fresh_tracker, push}

-- The tracker after a sequence of readings, the latest first, from a fresh start.
pub tracked : ℕ → List Float → StuckTracker
tracked n [] = fresh_tracker
tracked n (v ∷ vs) = (push (tracked n vs) v n).1

-- The latest `n` readings exist, and each equals the one before it.
abbrev pub Repeats : ℕ → List Float → Type 0
Repeats zero vs = Unit
Repeats (suc n) [] = ⊥
Repeats (suc zero) (v ∷ vs) = Unit
Repeats (suc (suc n)) (v ∷ []) = ⊥
Repeats (suc (suc n)) (v ∷ w ∷ vs) = (float_eq v w ≡ true) × Repeats (suc n) (w ∷ vs)

tracked-cons :
    (n : ℕ) (v w : Float) (vs : List Float)
    → (tracked n (v ∷ w ∷ vs)).run ≡ (if float_eq v w then (tracked n (w ∷ vs)).run + 1 else 1)
unfolding tracked push
tracked-cons n v w vs = refl

tracked_positive : (n : ℕ) (v : Float) (vs : List Float) → 1 ≤ (tracked n (v ∷ vs)).run
unfolding tracked push
tracked_positive n v vs = ground arith

tracked_one : (n : ℕ) (v : Float) → (tracked n (v ∷ [])).run ≡ 1
unfolding tracked push
tracked_one n v = refl

-- The run is at least `m` exactly when the latest `m` readings repeat.
tracked_run :
    (n m : ℕ) (v : Float) (vs : List Float) → (m ≤ (tracked n (v ∷ vs)).run) ↔ Repeats m (v ∷ vs)
tracked_run n zero v vs = (λ _. tt, λ _. omega arith)
tracked_run n (suc zero) v vs = (λ _. tt, λ _. tracked_positive n v vs)
tracked_run n (suc (suc m)) v [] = (λ h. absurd (omega (arith, tracked_one n v)), λ h. absurd h)
tracked_run n (suc (suc m)) v (w ∷ vs) =
    let (from, to) = tracked_run n (suc m) w vs in
    elim (Bool-cases (float_eq v w)) [
      | inl e ↦
          rw (tracked-cons n v w vs, e)
            (λ h. (refl, from (omega arith)), λ (_, h). omega (arith, to h))
      | inr e ↦ rw (tracked-cons n v w vs, e) (λ h. absurd (omega arith), λ (f, _). cc)
    ]

push-tracked :
    (n : ℕ) (v : Float) (vs : List Float)
    → (push (tracked n vs) v n).0 ≡ leb n (tracked n (v ∷ vs)).run
unfolding tracked push
push-tracked n v vs = refl

leb_iff : (a b : ℕ) → (leb a b ≡ true) ↔ (a ≤ b)
leb_iff a b = ground arith

-- A push reports a stuck sensor exactly when the latest `n` readings, this one included, are equal as
-- floats; so never for a NaN among them, if `n` is at least two.
pub push_stuck_iff :
    (n : ℕ) (v : Float) (vs : List Float)
    → ((push (tracked n vs) v n).0 ≡ true) ↔ Repeats n (v ∷ vs)
push_stuck_iff n v vs =
    let (from, to) = leb_iff n (tracked n (v ∷ vs)).run in
    let (repeats, runs) = tracked_run n n v vs in
    rw (push-tracked n v vs) (λ h. repeats (from h), λ h. to (runs h))
