-- ===== src/Lib.antt =====
-- A model of the telemetry pipeline: sources hand out raw frames, a fault detector judges the channels,
-- three lanes compute the derived fields, a voter merges them, a logger writes frames and events into
-- rotated files, and a replay source reads them back. Of the sources it has the GPS receiver, the ADS-B
-- source with its client and its selector, and the source that injects sensor faults. The C++ is under
-- src/ of the repository.
--
--   Prelude    shared names; Lists, Tests (Boolean tests), Int (signed integers), Options (do blocks)
--   Bytes      texts as lists of bytes, and the exclusive or of bytes
--   Double     IEEE 754 doubles; `DoubleOps` is the parameter for their arithmetic, strtod and strtol
--   Float      IEEE 754 bit patterns; classification and comparison are written out. `FloatOps` is the
--              parameter for rounding arithmetic, sqrt, pow, atan2 and the float and double conversions.
--   Frame      src/telemetry_frame.h, src/telemetry_frame.cpp
--   Event      the fault events of src/processing/fault_detector.h
--   Detector   src/processing/fault_detector.cpp: State (trackers, timeouts, `transition`), Observe (the
--              three `observe_*`), Check (`check`); Judged, Gate, Passed, Channels, Stuck and Ledger are about them
--   Lanes      `lanes_agree` and `find_representative` of src/processing/voter.cpp
--   Voter      src/processing/voter.cpp: `vote`, `count`, the tally; Agreement, Majority, Masking,
--              Exclusion, Runs and Hold are about them
--   Kalman, Attitude, Altitude   src/processing/kalman_filter.cpp, complementary_filter.cpp, altitude.cpp
--   Processor  src/processing/processor.cpp: `process` as `advance` (the state) and `compute` and `judge`
--              (the output); Seeding, Verdicts, Freshness and Restart are about it
--   Redundant  src/processing/redundant_processor.cpp and lane_fault_hook.h; Masking and Identical
--   Injector   src/processing/lane_fault_injector.cpp; Confined
--   Log        src/logging/log_format.cpp, binary_logger.cpp, src/run_mode.h; Reader is log_reader.cpp;
--              Header, Rotation, RoundTrip and Frames are about them
--   Replay     src/replay/log_replay_source.cpp; Raw, Drain and Session are about it
--   Injections src/replay/recorded_injections.cpp; Told and RoundTrip are about it
--   Scheduler  src/timing/fixed_rate_scheduler.cpp; Grid is about it
--   Pipeline   a cycle of `run` in src/main.cpp; Reproduced and Logged put all the parts together
--   Nmea       src/drivers/nmea.cpp: checksum and fields; Parse has the numbers and the two sentences;
--              Checksum, Fields and Parsed are about it
--   Gps        src/drivers/nmea_gps.cpp: `take_gga` and `take_rmc` (lines to epochs); Feed has `feed` (bytes
--              to lines), `complete_line` and `poll`; Framing, Epochs, Balance and Polls are about it
--   Selector   src/drivers/aircraft_selector.cpp: `nearest_from` and the tests of an aircraft; Update has
--              `update`, a function for each of its cases; Nearest, Kept and Absent are about it
--   Json, OpenSkyJson   src/drivers/opensky_json.cpp over parsed JSON; Rows
--   OpenSky    src/drivers/opensky_client.cpp, src/drivers/http_client.cpp; Fetch has `fetch_states`;
--              Outcomes is about it
--   AdsbSource src/drivers/adsb_source.cpp: the slot (`publish`, `take`); Polling has `poll` and `start`,
--              Reading has `read_frame`; Slot is the slot as a queue, Orders the two threads' steps in
--              every order, Frames the frames
--   FaultSource   src/drivers/fault_injecting_source.cpp: the channel modes; Modes has the setters, Apply the
--              field modes and `read_frame`; Channels, Judged and Held are about it
--   Mpu6050    src/drivers/mpu6050.cpp: `init` and `read` over an I2C bus; Rates is about its divider
--   Bmp280     src/drivers/bmp280.cpp: the integer compensation, `init` and `read` over the same bus
--   Examples   concrete inputs
--
-- `Gps.Feed.poll` calls `read` of a serial port, a record that the device's driver would fill;
-- `OpenSky` calls a record `Service` of the network and the clock, and a parser of JSON;
-- `AdsbSource.Polling.poll` calls `fetch_states` and hands its document to `Selector.update`.
--
-- State is passed explicitly. Counters on ℕ do not wrap, but for the elapsed times and the scheduler's
-- numbers, which are taken modulo 2^64 as on `uint64_t`. `next_frame` and `has_next` run on fuel taken
-- from what is left to read (the pieces of the file; the files), and their theorems show that it is
-- enough. `drain` takes its number of turns from its caller. The loop of `Gps.Feed.poll` runs on one
-- turn more than the bytes it may read, which `Gps.Polls` shows to be enough.
--
-- Not modelled: the bytes of a record (a log is a header and records, with torn and unknown pieces),
-- the names of files, texts for printing, the options, src/config, src/transport, the live source
-- and the simulator of src/drivers, its HTTP client over libcurl, and, of src/timing, all but the
-- scheduler. What a stream answers is an argument of the logger, what a clock
-- answers one of the scheduler. The two URLs of the OpenSky client are given, and the thread of the
-- ADS-B source is the steps that it takes.
pub mod Prelude
pub mod Float
pub mod Frame
pub mod Event
pub mod Lanes
pub mod Voter
pub mod Detector
pub mod Kalman
pub mod Attitude
pub mod Altitude
pub mod Processor
pub mod Redundant
pub mod Injector
pub mod Log
pub mod Replay
pub mod Scheduler
pub mod Pipeline
pub mod Injections
pub mod Bytes
pub mod Double
pub mod Nmea
pub mod Gps
pub mod Selector
pub mod Json
pub mod OpenSkyJson
pub mod OpenSky
pub mod AdsbSource
pub mod FaultSource
pub mod Mpu6050
pub mod Bmp280
pub mod Examples
