-- ===== src/Detector/Check.antt =====
-- `FaultDetector::check` of `src/processing/fault_detector.cpp` and the names of its events.
use Prim.Native.String.{String}
use flight_telemetry.Prelude.{Bool, List, [], if◌then◌else◌}
use flight_telemetry.Float.{FloatOps}
use flight_telemetry.Frame.{TelemetryFrame, ChannelStatus, not_available, status_eq}
use flight_telemetry.Event.{
  FaultEvent, Channel, FaultType, comm_timeout, stuck, out_of_range, recovery, baro, imu, gps,
}
use flight_telemetry.Detector.State.{ChannelState, FaultDetector, transition}
use flight_telemetry.Detector.Observe.{observe_baro, observe_imu, observe_gps}

abbrev pub is_absent : ChannelStatus → Bool
is_absent status = status_eq status not_available

module _ (ops : FloatOps) where
  unfoldable pub check_baro : FaultDetector → TelemetryFrame → FaultDetector
  check_baro d raw =
      let now_ms = raw.timestamp_ms in
      let (obs, observed, tracker) = observe_baro ops d raw now_ms in
      let (state, events) = transition d.config.recovery_count baro observed obs now_ms d.events in
      if is_absent raw.baro_status
      then d
      else record d { baro_channel = state; baro_pressure = tracker; events = events }

  unfoldable pub check_imu : FaultDetector → TelemetryFrame → FaultDetector
  check_imu d raw =
      let now_ms = raw.timestamp_ms in
      let (obs, observed, axes) = observe_imu ops d raw now_ms in
      let (state, events) = transition d.config.recovery_count imu observed obs now_ms d.events in
      if is_absent raw.imu_status
      then d
      else record d { imu_channel = state; imu_axes = axes; events = events }

  unfoldable pub check_gps : FaultDetector → TelemetryFrame → FaultDetector
  check_gps d raw =
      let now_ms = raw.timestamp_ms in
      let (obs, observed) = observe_gps ops d raw now_ms in
      let (state, events) = transition d.config.recovery_count gps observed obs now_ms d.events in
      if is_absent raw.gps_status then d else record d { gps_channel = state; events = events }

  abbrev pub judged : ChannelStatus → ChannelState → ChannelStatus
  judged asserted state = if is_absent asserted then not_available else state.status

  unfoldable pub check : FaultDetector → TelemetryFrame → TelemetryFrame × FaultDetector
  check d raw =
      let d' = check_gps (check_imu (check_baro d raw) raw) raw in
      (
        record raw {
          baro_status = judged raw.baro_status d'.baro_channel;
          imu_status = judged raw.imu_status d'.imu_channel;
          gps_status = judged raw.gps_status d'.gps_channel;
        },
        d',
      )

unfoldable pub take_events : FaultDetector → List FaultEvent × FaultDetector
take_events d = (d.events, record d { events = [] })

abbrev pub channel_name : Channel → String
channel_name baro = "BARO"
channel_name imu = "IMU"
channel_name gps = "GPS"
channel_name Channel.voter = "VOTER"

abbrev pub fault_type_name : FaultType → String
fault_type_name comm_timeout = "COMM_TIMEOUT"
fault_type_name stuck = "STUCK"
fault_type_name out_of_range = "OUT_OF_RANGE"
fault_type_name recovery = "RECOVERY"
fault_type_name FaultType.lane_disagreement = "LANE_DISAGREEMENT"
fault_type_name FaultType.lane_faulted = "LANE_FAULTED"
fault_type_name FaultType.no_majority = "NO_MAJORITY"
fault_type_name FaultType.lane_overrun = "LANE_OVERRUN"
fault_type_name FaultType.lane_fault_injected = "LANE_FAULT_INJECTED"
