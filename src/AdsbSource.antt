-- ===== src/AdsbSource.antt =====
-- `src/drivers/adsb_source.h` and `src/drivers/adsb_source.cpp`: a poll of the service, the slot between the poll
-- thread and the loop, and the frame of a reading. Each operation that holds the slot's lock is one step. Counters
-- and ages do not wrap, and the frames' count does.
pub mod Reading
pub mod Polling
pub mod Slot
pub mod Orders
pub mod Frames
use flight_telemetry.Prelude.{
  ℕ, ◌+◌, ◌-◌, ◌*◌, ◌/◌, ◌%◌, ◌^◌, Bool, true, false, not, ◌&&◌, ◌||◌, if◌then◌else◌, Option, none,
  some, List, [], ◌∷◌, ◌++◌, map, length, ℤ, pos, negsuc, ltb_int, sub_int, times_int,
}
use flight_telemetry.Float.{Float, Double}
use flight_telemetry.Double.{DoubleOps}
use flight_telemetry.Bytes.{Bytes, same}
use flight_telemetry.Json.{Json}
use flight_telemetry.Frame.{
  TelemetryFrame, zero_frame, set_flag, new_vehicle, vertical_rate, pressure_altitude, nominal,
  not_available,
}
use flight_telemetry.Selector.{
  AircraftState, AircraftIdentity, AircraftSelector, SelectionChange, SelectorConfig,
  StatesDocument, selector_init, candidate, degrees, is_present,
}
use flight_telemetry.Selector.Update.{update}
use flight_telemetry.OpenSky.{
  FetchStatus, fetched, token_refused, rate_limited, transport_error, FetchResult, OpenSkyCounters,
  OpenSkyClient, Service,
}
use flight_telemetry.OpenSky.Fetch.{fetch_states}

pub record AdsbReading : Type 0 where
  pub identity : AircraftIdentity
  pub latitude : Double
  pub longitude : Double
  pub gps_altitude_m : Float
  pub ground_speed_mps : Float
  pub track_deg : Float
  pub vertical_rate_mps : Option Float
  pub pressure_altitude_m : Option Float
  pub time_position : ℤ
  pub server_time : ℤ

pub record SwitchRecord : Type 0 where
  pub timestamp_ms : ℕ
  pub poll : ℕ
  pub change : SelectionChange

pub record PollReport : Type 0 where
  pub poll : ℕ
  pub status : FetchStatus
  pub http_status : ℕ
  pub response : Bool
  pub aircraft : ℕ
  pub candidates : ℕ
  pub selected : Option AdsbReading
  pub identity : Option AircraftIdentity
  pub changes : List SwitchRecord
  pub client : OpenSkyCounters
  pub next_delay_ms : ℤ

pub record AdsbCounters : Type 0 where
  pub client : Option OpenSkyCounters
  pub reports : ℕ
  pub overwritten : ℕ
  pub readings : ℕ
  pub changes : ℕ
  pub aircraft : ℕ
  pub candidates : ℕ
  pub age_min_s : ℤ
  pub age_max_s : ℤ
  pub age_sum_s : Double

-- The poll thread's state, the slot, and the loop's own.
pub record AdsbSource : Type 0 where
  pub selector : AircraftSelector
  pub client : OpenSkyClient
  pub pending : Option PollReport
  pub overwritten : ℕ
  pub first_read_ns : Option ℕ
  pub held : Option AdsbReading
  pub identity : Option AircraftIdentity
  pub switches : List SwitchRecord
  pub counters : AdsbCounters
  pub next_sequence : ℕ

abbrev pub adsb_init : OpenSkyClient → AdsbSource
adsb_init client = record {
  selector = selector_init;
  client = client;
  pending = none;
  overwritten = 0;
  first_read_ns = none;
  held = none;
  identity = none;
  switches = [];
  counters = record {
    client = none;
    reports = 0;
    overwritten = 0;
    readings = 0;
    changes = 0;
    aircraft = 0;
    candidates = 0;
    age_min_s = pos (2 ^ 63 - 1);
    age_max_s = negsuc (2 ^ 63 - 1);
    age_sum_s = 0;
  };
  next_sequence = 0;
}

-- The value of an optional that a usable state has.
abbrev pub given {ℓ} : {A : Type ℓ} → Option A → A → A
given none d = d
given (some a) d = a

abbrev pub same_identity : AircraftIdentity → AircraftIdentity → Bool
same_identity a b = same a.icao24 b.icao24 && same a.callsign b.callsign

abbrev pub reading_of : AircraftIdentity → AircraftState → ℤ → AdsbReading
reading_of identity state server_time = record {
  identity = identity;
  latitude = degrees state.latitude;
  longitude = degrees state.longitude;
  gps_altitude_m = given state.geo_altitude_m 0;
  ground_speed_mps = given state.velocity_mps 0;
  track_deg = given state.true_track_deg 0;
  vertical_rate_mps = state.vertical_rate_mps;
  pressure_altitude_m = state.baro_altitude_m;
  time_position = given state.time_position (pos 0);
  server_time = server_time;
}

-- `selected` of a report: both optionals are there when the vector is.
abbrev pub selected_reading : AircraftSelector → ℤ → Option AdsbReading
selected_reading s time = elim s.selected_state [
  | none ↦ none
  | some state ↦ elim s.selected [ none ↦ none | some who ↦ some (reading_of who state time) ]
]

abbrev pub changes_of : ℕ → Option SelectionChange → List SwitchRecord
changes_of poll none = []
changes_of poll (some c) = record { timestamp_ms = 0; poll = poll; change = c } ∷ []

abbrev pub count_if {ℓ} : {A : Type ℓ} → (A → Bool) → List A → ℕ
count_if p [] = 0
count_if p (a ∷ rest) = if p a then count_if p rest + 1 else count_if p rest

-- A later report supersedes one that was not taken, with its changes first and its vector if it has none.
unfoldable pub merged : PollReport → PollReport → PollReport
merged old report = record report {
  changes = old.changes ++ report.changes;
  selected = elim report.selected [ none ↦ old.selected | some v ↦ some v ];
}

unfoldable pub publish : PollReport → AdsbSource → AdsbSource
publish report s = elim s.pending [
  | none ↦ record s { pending = some report }
  | some old ↦ record s { pending = some (merged old report); overwritten = s.overwritten + 1 }
]

unfoldable pub take : AdsbSource → Option PollReport × AdsbSource
take s = (
  s.pending,
  record s { pending = none; counters = record s.counters { overwritten = s.overwritten } },
)

abbrev pub stamped : ℕ → SwitchRecord → SwitchRecord
stamped timestamp r = record r { timestamp_ms = timestamp }

-- `std::min` and `std::max` on the ages.
abbrev pub min_int : ℤ → ℤ → ℤ
min_int a b = if ltb_int b a then b else a

abbrev pub max_int : ℤ → ℤ → ℤ
max_int a b = if ltb_int a b then b else a

abbrev pub is_newly_selected : Option AircraftIdentity → AdsbReading → Bool
is_newly_selected none vector = true
is_newly_selected (some who) vector = not (same_identity who vector.identity)

abbrev pub is_later : Option AdsbReading → AdsbReading → Bool
is_later none vector = false
is_later (some held) vector =
    same_identity held.identity vector.identity && ltb_int held.time_position vector.time_position

abbrev pub is_fetched : FetchStatus → Bool
is_fetched fetched = true
is_fetched _ = false
