-- ===== src/Examples/Adsb.antt =====
-- Runs of `src/drivers/adsb_source.cpp`.
use flight_telemetry.Prelude.{◌≡◌, true, [], ◌∷◌, ◌++◌, none, some, pos}
use flight_telemetry.Frame.{TelemetryFrame, not_available, has_flag, new_vehicle}
use flight_telemetry.Replay.Raw.{IsRaw}
use flight_telemetry.Selector.{initial}
use flight_telemetry.OpenSky.{fetched}
use flight_telemetry.AdsbSource.{
  AdsbReading, AdsbSource, PollReport, SwitchRecord, adsb_init, publish,
}
use flight_telemetry.AdsbSource.Reading.{read_frame}
use flight_telemetry.AdsbSource.Slot.{mailbox, send, deliver, switches_of, slot-refines}
use flight_telemetry.AdsbSource.Orders.{
  Accounts, Reach-Accounts, polled, started, polls, publishes, reads,
}
use flight_telemetry.AdsbSource.Frames.{freshness, read_frame-IsRaw}
use flight_telemetry.Examples.Data.{toy_doubles}
use flight_telemetry.Examples.Traffic.{settings, who, client, closed, no_parser, no_counts}

abbrev vector : AdsbReading
vector = record {
  identity = who;
  latitude = 10;
  longitude = 0;
  gps_altitude_m = 300;
  ground_speed_mps = 70;
  track_deg = 280;
  vertical_rate_mps = some 0xc000_0000;
  pressure_altitude_m = none;
  time_position = pos 100;
  server_time = pos 105;
}

abbrev first_switch : SwitchRecord
first_switch = record {
  timestamp_ms = 0;
  poll = 1;
  change = record { previous = none; current = some who; reason = initial; distance_m = 10 };
}

-- The first aircraft selected.
abbrev first_report : PollReport
first_report = record {
  poll = 1;
  status = fetched;
  http_status = 200;
  response = true;
  aircraft = 2;
  candidates = 2;
  selected = some vector;
  identity = some who;
  changes = first_switch ∷ [];
  client = no_counts;
  next_delay_ms = pos 10_000;
}

abbrev loaded : AdsbSource
loaded = record (adsb_init client) { pending = some first_report }

slot-refines_example :
    (mailbox (publish first_report loaded)
      ≡ send (switches_of (first_switch ∷ [])) (mailbox loaded))
    × (mailbox (read_frame toy_doubles 5 loaded).1 ≡ deliver (mailbox loaded))
slot-refines_example = slot-refines toy_doubles first_report 5 loaded

read_frame-IsRaw_example :
    let frame : TelemetryFrame = (read_frame toy_doubles 5 loaded).0 in
    IsRaw frame
    × (frame.baro_status ≡ not_available)
    × (frame.imu_status ≡ not_available)
    × ((frame.gps_read_ok, has_flag frame new_vehicle) ≡ freshness loaded.pending none none)
read_frame-IsRaw_example = read_frame-IsRaw toy_doubles 5 loaded

-- A poll, its publication and a frame.
Reach-Accounts_example :
    let s = (polled toy_doubles settings (pos 10_000) no_parser closed (adsb_init client) 0).1 in
    let r = (polled toy_doubles settings (pos 10_000) no_parser closed (adsb_init client) 0).0 in
    Accounts toy_doubles settings
      (pos 10_000)
      no_parser
      closed
      ([] ++ switches_of r.changes)
      1
      (record { source = (read_frame toy_doubles 5 (publish r s)).1; inflight = none })
Reach-Accounts_example =
    Reach-Accounts toy_doubles settings (pos 10_000) no_parser closed
      (reads 5 (publishes (polls 0 started)))
