-- ===== src/Detector/Passed.antt =====
-- The gate of `FaultDetector::check` in `src/processing/fault_detector.cpp`, channel by channel.
use flight_telemetry.Prelude.{◌≡◌, Bool, true}
use flight_telemetry.Float.{FloatOps}
use flight_telemetry.Frame.{TelemetryFrame, ChannelStatus, nominal}
use flight_telemetry.Event.{Channel, baro, imu, gps, voter}
use flight_telemetry.Detector.State.{FaultDetector}
use flight_telemetry.Detector.Judged.{BaroPassed, ImuPassed, GpsPassed}
use flight_telemetry.Detector.Check.{check}
use flight_telemetry.Detector.Gate.{check-baro_gate, check-imu_gate, check-gps_gate}

-- The flag and the status of a sensor's channel; the voter has neither.
abbrev pub channel_read : Channel → TelemetryFrame → Bool
channel_read baro f = f.baro_read_ok
channel_read imu f = f.imu_read_ok
channel_read gps f = f.gps_read_ok
channel_read voter f = true

abbrev pub channel_status : Channel → TelemetryFrame → ChannelStatus
channel_status baro f = f.baro_status
channel_status imu f = f.imu_status
channel_status gps f = f.gps_status
channel_status voter f = nominal

-- The tests of a reading, by its channel.
abbrev pub Passed : FloatOps → Channel → FaultDetector → TelemetryFrame → Type 0
Passed ops baro d raw = BaroPassed ops d raw
Passed ops imu d raw = ImuPassed ops d.config.stuck_count d.imu_axes raw
Passed ops gps d raw = GpsPassed ops raw
Passed ops voter d raw = Unit

-- A sensor's reading that leaves the detector fresh and NOMINAL has passed its tests. A barometer reading
-- is finite, inside the four limits, and its pressure does not trip the stuck tracker. An IMU sample is
-- finite on six axes, off both rails on the three accelerometer axes, and trips no tracker of the six
-- axes. A fix is finite in its five fields.
pub check-gate :
    (ops : FloatOps) (c : Channel) (d : FaultDetector) (raw : TelemetryFrame)
    → channel_read c raw ≡ true
    → channel_status c (check ops d raw).0 ≡ nominal
    → Passed ops c d raw
check-gate ops baro d raw ok e = check-baro_gate ops d raw ok e
check-gate ops imu d raw ok e = check-imu_gate ops d raw ok e
check-gate ops gps d raw ok e = check-gps_gate ops d raw ok e
check-gate ops voter d raw ok e = tt
