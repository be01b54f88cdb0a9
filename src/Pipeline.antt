-- ===== src/Pipeline.antt =====
-- One cycle of the loop in `src/main.cpp` (`run`), without a lane fault: the detector, the three lanes and
-- the voter, and what is logged. Publishing, printing and waiting change nothing of it and are not here.
pub mod Reproduced
pub mod Logged
use flight_telemetry.Prelude.{ℕ, Option, none, List, [], ◌∷◌, ◌++◌, map}
use flight_telemetry.Float.{FloatOps}
use flight_telemetry.Frame.{TelemetryFrame}
use flight_telemetry.Log.{LogRecord, frame, fault_event}
use flight_telemetry.Detector.State.{FaultDetector}
use flight_telemetry.Detector.Check
use flight_telemetry.Detector.Check.{check}
use flight_telemetry.Redundant
use flight_telemetry.Redundant.{RedundantProcessor, LaneFaultHook}
use flight_telemetry.Redundant.Identical.{no_hook}

module _ (ops : FloatOps) where
  -- The records of a cycle: the processed frame, the detector's events, the voter's.
  unfoldable pub cycle :
      FaultDetector
      → RedundantProcessor
      → TelemetryFrame
      → List LogRecord × FaultDetector × RedundantProcessor
  cycle d r raw =
      let (checked, d1) = check ops d raw in
      let (processed, r1, _) = Redundant.process ops no_hook tt r checked in
      let (detected, d2) = Check.take_events d1 in
      let (voted, r2) = Redundant.take_events r1 in
      (frame processed ∷ (map fault_event detected ++ map fault_event voted), d2, r2)

  -- The records of a run.
  unfoldable pub run : FaultDetector → RedundantProcessor → List TelemetryFrame → List LogRecord
  run d r [] = []
  run d r (raw ∷ raws) = let (records, d', r') = cycle d r raw in records ++ run d' r' raws
