-- ===== src/Detector.antt =====
-- `src/processing/fault_detector.cpp`: the detector of sensor faults, ahead of the lanes.
pub mod State
pub mod Observe
pub mod Check
pub mod Judged
pub mod Gate
pub mod Passed
pub mod Channels
pub mod Stuck
pub mod Ledger
