-- ===== src/AdsbSource/Reading.antt =====
-- A frame of the source, of `src/drivers/adsb_source.cpp`: `read_frame`.
use flight_telemetry.Prelude.{
  ℕ, ◌+◌, ◌-◌, ◌/◌, ◌%◌, ◌^◌, Bool, true, false, ◌||◌, if◌then◌else◌, Option, none, some, ◌++◌, map,
  length, sub_int,
}
use flight_telemetry.Float.{Float}
use flight_telemetry.Double.{DoubleOps}
use flight_telemetry.Frame.{
  TelemetryFrame, zero_frame, set_flag, new_vehicle, vertical_rate, pressure_altitude, nominal,
  not_available,
}
use flight_telemetry.AdsbSource.{
  AdsbReading, AdsbSource, PollReport, is_later, is_newly_selected, max_int, min_int, stamped, take,
}

module _ (ops : DoubleOps) where
  -- A vector of a report: held, and fresh, once.
  unfoldable pub take_vector : AdsbReading → AdsbSource → Bool × AdsbSource
  take_vector vector s =
      let c = s.counters in
      let age = sub_int vector.server_time vector.time_position in
      let taken = record s {
        held = some vector;
        counters = record c {
          readings = c.readings + 1;
          age_min_s = min_int c.age_min_s age;
          age_max_s = max_int c.age_max_s age;
          age_sum_s = ops.add c.age_sum_s (ops.of_int age);
        };
      } in
      if is_newly_selected s.identity vector || is_later s.held vector
      then (true, taken)
      else (false, s)

  -- What a report's vector gives the frame: whether it is fresh and of a new vehicle.
  abbrev pub take_selected : Option AdsbReading → AdsbSource → Bool × Bool × AdsbSource
  take_selected none s = (false, false, s)
  take_selected (some vector) s =
      let (fresh, s') = take_vector vector s in (fresh, is_newly_selected s.identity vector, s')

  -- The counters and the switch records of a report, stamped with the frame's time.
  unfoldable pub merge_report : ℕ → PollReport → AdsbSource → AdsbSource
  merge_report timestamp report s =
      let c = s.counters in
      record s {
        switches = s.switches ++ map (stamped timestamp) report.changes;
        counters = record c {
          reports = c.reports + 1;
          client = some report.client;
          aircraft = if report.response then report.aircraft else c.aircraft;
          candidates = if report.response then report.candidates else c.candidates;
          changes = c.changes + length report.changes;
        };
      }

  unfoldable pub take_report : ℕ → Option PollReport → AdsbSource → Bool × Bool × AdsbSource
  take_report timestamp none s = (false, false, s)
  take_report timestamp (some report) s =
      let (fresh, new, s') = take_selected report.selected (merge_report timestamp report s) in
      (fresh, new, record s' { identity = report.identity })

  abbrev pub put_rate : Option Float → TelemetryFrame → TelemetryFrame
  put_rate none f = f
  put_rate (some rate) f = set_flag (record f { gps_vertical_rate_mps = rate }) vertical_rate

  abbrev pub put_pressure : Option Float → TelemetryFrame → TelemetryFrame
  put_pressure none f = f
  put_pressure (some altitude) f =
      set_flag (record f { gps_pressure_altitude_m = altitude }) pressure_altitude

  -- The held vector on every frame.
  unfoldable pub put_held : Option AdsbReading → TelemetryFrame → TelemetryFrame
  put_held none f = f
  put_held (some v) f = put_pressure v.pressure_altitude_m (
      put_rate v.vertical_rate_mps (record f {
        latitude = v.latitude;
        longitude = v.longitude;
        gps_altitude_m = v.gps_altitude_m;
        ground_speed_mps = v.ground_speed_mps;
        course_deg = v.track_deg;
      }))

  -- Milliseconds since the first frame, rounded to the nearest, by `uint64_t`.
  abbrev pub frame_time : ℕ → ℕ → ℕ
  frame_time first now = (now + 2 ^ 64 - first + 500_000) % 2 ^ 64 / 1_000_000

  -- `read_frame` at the clock's reading.
  unfoldable pub read_frame : ℕ → AdsbSource → TelemetryFrame × AdsbSource
  read_frame now_ns s =
      let first : ℕ = elim s.first_read_ns [ none ↦ now_ns | some t ↦ t ] in
      let timestamp = frame_time first now_ns in
      let stamped_frame = record zero_frame {
        timestamp_ms = timestamp;
        sequence = s.next_sequence;
      } in
      let (report, taken) =
        take (record s {
          first_read_ns = some first;
          next_sequence = (s.next_sequence + 1) % 2 ^ 32;
        }) in
      let (fresh, new, s') = take_report timestamp report taken in
      let flagged = if new then set_flag stamped_frame new_vehicle else stamped_frame in
      let shown = put_held s'.held flagged in
      (
        record shown {
          gps_read_ok = fresh;
          baro_status = not_available;
          imu_status = not_available;
          gps_status = nominal;
        },
        s',
      )
