-- ===== src/Examples/Traffic.antt =====
-- Runs of `src/drivers/aircraft_selector.cpp` and `src/drivers/opensky_client.cpp`.
use flight_telemetry.Prelude.{
  ℕ, ◌+◌, ◌≡◌, refl, true, false, List, [], ◌∷◌, none, some, Option, arith, pos,
}
use flight_telemetry.Bytes.{Bytes, codes}
use flight_telemetry.Json.{Json}
use flight_telemetry.Selector.{
  AircraftState, AircraftIdentity, AircraftSelector, SelectorConfig, StatesDocument, selector_init,
  find_address, nearest_from,
}
use flight_telemetry.Selector.Update.{update, updates}
use flight_telemetry.Selector.Nearest.{IsChosen, nearest_from-IsChosen}
use flight_telemetry.Selector.Kept.{Reports, IsKept, after, update-IsKept}
use flight_telemetry.Selector.Absent.{silent, LeftAfter, updates-tolerance}
use flight_telemetry.OpenSky.{HttpResponse, OpenSkyClient, OpenSkyCounters, Service}
use flight_telemetry.OpenSky.Fetch.{fetch_states}
use flight_telemetry.OpenSky.Outcomes.{outcomes, with_outcome, fetch_states-outcomes}
use flight_telemetry.Examples.Data.{toy_doubles}

abbrev pub settings : SelectorConfig
settings = record {
  reference = record { latitude = 0; longitude = 0 };
  switch_margin_m = 5;
  gone_after_polls = pos 3;
  ceiling_m = 1_000;
}

-- Airborne, complete and descending, at a latitude.
abbrev arrival : Bytes → ℕ → AircraftState
arrival address latitude = record {
  icao24 = address;
  callsign = [];
  time_position = some (pos 100);
  last_contact = pos 100;
  longitude = some 0;
  latitude = some latitude;
  baro_altitude_m = none;
  on_ground = false;
  velocity_mps = some 70;
  true_track_deg = some 280;
  vertical_rate_mps = some 0xc000_0000;
  geo_altitude_m = some 300;
}

abbrev pub two_arrivals : List AircraftState
two_arrivals = arrival (codes "a1b2c3") 20 ∷ arrival (codes "d4e5f6") 10 ∷ []

abbrev empty_sky : StatesDocument
empty_sky = record { time = pos 0; states = []; rows_skipped = 0 }

abbrev pub busy_sky : StatesDocument
busy_sky = record { time = pos 105; states = two_arrivals; rows_skipped = 0 }

nearest_from-IsChosen_example :
    IsChosen toy_doubles settings two_arrivals (nearest_from toy_doubles settings none two_arrivals)
nearest_from-IsChosen_example = nearest_from-IsChosen toy_doubles settings two_arrivals

update-IsKept_example :
    Reports
      (after toy_doubles settings (busy_sky ∷ [])).selected
      (update toy_doubles settings empty_sky (after toy_doubles settings (busy_sky ∷ [])))
    × IsKept toy_doubles settings
        (update toy_doubles settings empty_sky (after toy_doubles settings (busy_sky ∷ []))).1
update-IsKept_example = update-IsKept toy_doubles settings (busy_sky ∷ []) empty_sky

abbrev pub who : AircraftIdentity
who = record { icao24 = codes "d4e5f6"; callsign = [] }

abbrev holding : AircraftSelector
holding = record selector_init { selected = some who }

updates-tolerance_example :
    ((updates toy_doubles settings (empty_sky ∷ empty_sky ∷ []) holding).0
      ≡ silent (empty_sky ∷ empty_sky ∷ []))
    × ((updates toy_doubles settings (empty_sky ∷ empty_sky ∷ []) holding).1.selected ≡ some who)
    × LeftAfter toy_doubles settings who
        (update toy_doubles settings empty_sky
          (updates toy_doubles settings (empty_sky ∷ empty_sky ∷ []) holding).1).0
unfolding find_address
updates-tolerance_example =
    updates-tolerance toy_doubles settings who 3 (empty_sky ∷ empty_sky ∷ []) empty_sky holding refl
      refl (refl, (refl, tt)) refl (omega arith)

abbrev pub no_counts : OpenSkyCounters
no_counts = record {
  polls = 0;
  ok = 0;
  auth = 0;
  token_refused = 0;
  token_unavailable = 0;
  unauthorized = 0;
  rate_limited = 0;
  http_errors = 0;
  transport_errors = 0;
  malformed = 0;
  token_requests = 0;
  rows_skipped = 0;
  last_retry_after_s = none;
  last_http_status = 0;
  last_error_code = pos 0;
}

abbrev pub client : OpenSkyClient
client = record {
  credentials = record { client_id = codes "id"; client_secret = codes "secret" };
  token_url = codes "/token";
  states_url = codes "/states";
  token = codes "old";
  has_token = true;
  token_expires_at_ns = 1_000;
  counters = no_counts;
}

abbrev answer : ℕ → HttpResponse
answer status = record {
  transport_ok = true;
  status = status;
  body = [];
  headers = [];
  error = [];
  error_code = pos 0;
}

-- A service whose states need a token that its token endpoint refuses; its clock is its state.
abbrev pub closed : Service ℕ
closed = record {
  get = λ now url token. (answer 401, now);
  post_form = λ now url form. (answer 403, now);
  now_ns = λ now. (now, now + 1);
}

abbrev pub no_parser : Bytes → Option Json
no_parser body = none

fetch_states-outcomes_example :
    let (result, c', w') = fetch_states toy_doubles no_parser closed client 0 in
    (outcomes c' ≡ with_outcome result.status (outcomes client))
    × (c'.counters.polls ≡ client.counters.polls + 1)
fetch_states-outcomes_example = fetch_states-outcomes toy_doubles no_parser closed client 0
