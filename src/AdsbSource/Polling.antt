-- ===== src/AdsbSource/Polling.antt =====
-- A poll of the service, of `src/drivers/adsb_source.cpp`: `poll`, `poll_once` and `start`.
use flight_telemetry.Prelude.{
  Bool, true, false, if◌then◌else◌, Option, none, some, [], length, ℤ, pos, ltb_int, times_int,
}
use flight_telemetry.Double.{DoubleOps}
use flight_telemetry.Bytes.{Bytes}
use flight_telemetry.Json.{Json}
use flight_telemetry.Selector.{SelectorConfig, candidate}
use flight_telemetry.Selector.Update.{update}
use flight_telemetry.OpenSky.{FetchStatus, token_refused, rate_limited, FetchResult, Service}
use flight_telemetry.OpenSky.Fetch.{fetch_states}
use flight_telemetry.AdsbSource.{
  AdsbSource, PollReport, changes_of, count_if, is_fetched, publish, selected_reading,
}

module _ (ops : DoubleOps) where
  module _ (config : SelectorConfig) (poll_interval_ms : ℤ) where
    -- The census and the selection of a response.
    abbrev respond : FetchResult → PollReport → AdsbSource → PollReport × AdsbSource
    respond result report s =
        let (change, selector) = update ops config result.document s.selector in
        (
          record report {
            response = true;
            aircraft = length result.document.states;
            candidates = count_if (candidate ops config) result.document.states;
            changes = changes_of report.poll change;
            selected = selected_reading selector result.document.time;
          },
          record s { selector = selector },
        )

    abbrev delay_of : FetchStatus → Option ℤ → ℤ
    delay_of rate_limited (some seconds) =
        if ltb_int (pos 0) seconds then times_int seconds 1_000 else poll_interval_ms
    delay_of _ _ = poll_interval_ms

    -- `poll`, once the client has the result.
    unfoldable pub poll_report : FetchResult → AdsbSource → PollReport × AdsbSource
    poll_report result s =
        let report : PollReport = record {
          poll = s.client.counters.polls;
          status = result.status;
          http_status = result.http_status;
          response = false;
          aircraft = 0;
          candidates = 0;
          selected = none;
          identity = none;
          changes = [];
          client = s.client.counters;
          next_delay_ms = delay_of result.status result.retry_after_s;
        } in
        let (report', s') =
          if is_fetched result.status then respond result report s else (report, s) in
        (record report' { identity = s'.selector.selected }, s')

    module _ {ℓ} {W : Type ℓ} (parse : Bytes → Option Json) (service : Service W) where
      unfoldable pub poll : AdsbSource → W → PollReport × AdsbSource × W
      poll s w =
          let (result, client, w') = fetch_states ops parse service s.client w in
          let (report, s') = poll_report result (record s { client = client }) in (report, s', w')

      -- The delay before the next poll.
      unfoldable pub poll_once : AdsbSource → W → ℤ × AdsbSource × W
      poll_once s w =
          let (report, s', w') = poll s w in (report.next_delay_ms, publish report s', w')

      abbrev is_refused : FetchStatus → Bool
      is_refused token_refused = true
      is_refused _ = false

      -- The first poll, on the calling thread; the delay with which the worker starts, unless the token
      -- endpoint refused the credentials.
      unfoldable pub start : AdsbSource → W → Option ℤ × AdsbSource × W
      start s w =
          let (report, s', w') = poll s w in
          let started = publish report s' in
          if is_refused report.status
          then (none, started, w')
          else (some report.next_delay_ms, started, w')
