-- ===== src/Examples.antt =====
-- Concrete runs of the parts of `src/`: each of the claims at one input.
pub mod Data
pub mod Redundancy
pub mod Voting
pub mod Detection
pub mod Processing
pub mod Records
pub mod Timing
pub mod Sentences
pub mod Traffic
pub mod Adsb
pub mod Sensors
