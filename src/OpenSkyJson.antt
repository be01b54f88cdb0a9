-- ===== src/OpenSkyJson.antt =====
-- `src/drivers/opensky_json.h` and `src/drivers/opensky_json.cpp`: the documents of the OpenSky service and the
-- credentials. The parser of nlohmann/json is a parameter that gives no document for one that is discarded.
pub mod Rows
use Prim.Native.Nat.{bit_and}
use flight_telemetry.Prelude.{
  ℕ, ◌+◌, Bool, true, false, not, ◌&&◌, ◌||◌, ltb, leb, ◌==◌, if◌then◌else◌, Option, none, some,
  List, [], ◌∷◌, ◌++◌, ℤ, pos,
}
use flight_telemetry.Float.{Float, Double}
use flight_telemetry.Double.{DoubleOps}
use flight_telemetry.Bytes.{Bytes, codes, is_empty}
use flight_telemetry.Json.{
  Json, null, array, object, Elements, nil, cons, Members, size, element, lookup, number_of,
  integer_of, text_of, boolean_of,
}
use flight_telemetry.Selector.{AircraftState, StatesDocument}

pub record StatesParse : Type 0 where
  pub ok : Bool
  pub document : StatesDocument
  pub problem : Bytes

pub record TokenParse : Type 0 where
  pub ok : Bool
  pub access_token : Bytes
  pub expires_in_s : ℤ
  pub problem : Bytes

pub record Credentials : Type 0 where
  pub client_id : Bytes
  pub client_secret : Bytes

pub record CredentialsLoad : Type 0 where
  pub ok : Bool
  pub credentials : Credentials
  pub problem : Bytes

abbrev pub min_state_elements : ℕ
min_state_elements = 14

abbrev pub default_expires_in_s : ℤ
default_expires_in_s = pos 1800

abbrev integer_at : Elements → ℕ → Option ℤ
integer_at row index = if leb (size row) index then none else integer_of (element row index)

abbrev or_default {ℓ} : {A : Type ℓ} → Option A → A → A
or_default none d = d
or_default (some a) d = a

-- `find_first_not_of(' ')` and `find_last_not_of(' ')`.
abbrev pub drop_spaces : Bytes → Bytes
drop_spaces [] = []
drop_spaces (b ∷ bs) = let later = drop_spaces bs in if b == b' ' then later else b ∷ bs

abbrev pub trim_end : Bytes → Bytes
trim_end [] = []
trim_end (b ∷ bs) = let later = trim_end bs in if is_empty later && b == b' ' then [] else b ∷ later

abbrev pub trimmed : Bytes → Bytes
trimmed t = trim_end (drop_spaces t)

abbrev pub empty_document : StatesDocument
empty_document = record { time = pos 0; states = []; rows_skipped = 0 }

abbrev pub no_states : Bytes → StatesParse
no_states problem = record { ok = false; document = empty_document; problem = problem }

abbrev pub no_token : Bytes → TokenParse
no_token problem = record { ok = false; access_token = []; expires_in_s = pos 0; problem = problem }

unfoldable pub parse_token_document : Option Json → TokenParse
parse_token_document (some (object members)) = elim (lookup members (codes "access_token")) [
  | some (Json.text token) ↦
      let lifetime : ℤ = elim (lookup members (codes "expires_in")) [
        | some (Json.integer n) ↦ or_default (integer_of (Json.integer n)) default_expires_in_s
        | _ ↦ default_expires_in_s
      ] in
      if is_empty token
      then no_token (codes "the token response's access_token is empty")
      else record { ok = true; access_token = token; expires_in_s = lifetime; problem = [] }
  | _ ↦ no_token (codes "the token response has no access_token")
]
parse_token_document _ = no_token (codes "the token response is not a JSON object")

abbrev pub no_credentials : Bytes → CredentialsLoad
no_credentials problem = record {
  ok = false;
  credentials = record { client_id = []; client_secret = [] };
  problem = problem;
}

abbrev pub credential : Members → Bytes → Bytes → Bytes × Bytes
credential members name key = elim (lookup members key) [
  | some (Json.text []) ↦ ([], name ++ codes ": empty key " ++ key)
  | some (Json.text (b ∷ bs)) ↦ (b ∷ bs, [])
  | _ ↦ ([], name ++ codes ": missing key " ++ key)
]

unfoldable pub parse_credentials_document : Option Json → Bytes → CredentialsLoad
parse_credentials_document (some (object members)) name =
    let (id, id_problem) = credential members name (codes "clientId") in
    let (secret, secret_problem) = credential members name (codes "clientSecret") in
    if not (is_empty id_problem)
    then no_credentials id_problem
    else if not (is_empty secret_problem)
    then no_credentials secret_problem
    else record {
      ok = true;
      credentials = record { client_id = id; client_secret = secret };
      problem = [];
    }
parse_credentials_document _ name = no_credentials (name ++ codes ": not a JSON object")

-- What `stat` says of a path, and whether it can be opened with what is in it.
pub record FileInfo : Type 0 where
  pub regular : Bool
  pub mode : ℕ
  pub contents : Option Bytes

module _ (ops : DoubleOps) where
  abbrev number_at : Elements → ℕ → Option Double
  number_at row index = if leb (size row) index then none else number_of ops (element row index)

  abbrev number_at_f : Elements → ℕ → Option Float
  number_at_f row index = elim (number_at row index) [ none ↦ none | some x ↦ some (ops.narrow x) ]

  -- A row that is an array, with its address and its flag.
  abbrev pub state_of : Elements → Bytes → Bool → AircraftState
  state_of row address on_ground = record {
    icao24 = address;
    callsign = trimmed (or_default (text_of (element row 1)) []);
    time_position = integer_at row 3;
    last_contact = or_default (integer_at row 4) (pos 0);
    longitude = number_at row 5;
    latitude = number_at row 6;
    baro_altitude_m = number_at_f row 7;
    on_ground = on_ground;
    velocity_mps = number_at_f row 9;
    true_track_deg = number_at_f row 10;
    vertical_rate_mps = number_at_f row 11;
    geo_altitude_m = number_at_f row 13;
  }

  unfoldable pub parse_row : Json → Option AircraftState
  parse_row (array row) =
      if ltb (size row) min_state_elements then none else elim (text_of (element row 0)) [
        | none ↦ none
        | some address ↦ elim (boolean_of (element row 8)) [
          | none ↦ none
          | some on_ground ↦ some (state_of row address on_ground)
        ]
      ]
  parse_row _ = none

  -- One turn of the loop: appended, or counted.
  unfoldable pub put_row : Json → StatesDocument → StatesDocument
  put_row row d = elim (parse_row row) [
    | some state ↦ record d { states = d.states ++ (state ∷ []) }
    | none ↦ record d { rows_skipped = d.rows_skipped + 1 }
  ]

  unfoldable pub parse_rows : Elements → StatesDocument → StatesDocument
  parse_rows nil d = d
  parse_rows (cons row rest) d = parse_rows rest (put_row row d)

  unfoldable pub parse_states_document : Option Json → StatesParse
  parse_states_document none = no_states (codes "the body is not JSON")
  parse_states_document (some (object members)) = elim (lookup members (codes "time")) [
    | some (Json.integer t) ↦
        let d = record empty_document { time = or_default (integer_of (Json.integer t)) (pos 0) } in
        elim (lookup members (codes "states")) [
          | none ↦ record { ok = true; document = d; problem = [] }
          | some null ↦ record { ok = true; document = d; problem = [] }
          | some (array rows) ↦ record { ok = true; document = parse_rows rows d; problem = [] }
          | _ ↦ record {
            ok = false;
            document = d;
            problem = codes "states is neither an array nor null";
          }
        ]
    | _ ↦ no_states (codes "time is missing or not a whole number")
  ]
  parse_states_document _ = no_states (codes "the document is not an object")

module _ (parse : Bytes → Option Json) where
  unfoldable pub parse_states : DoubleOps → Bytes → StatesParse
  parse_states ops body = parse_states_document ops (parse body)

  unfoldable pub parse_token : Bytes → TokenParse
  parse_token body = parse_token_document (parse body)

  unfoldable pub parse_credentials : Bytes → Bytes → CredentialsLoad
  parse_credentials body name = parse_credentials_document (parse body) name

  -- The file of a path, if `stat` finds one: S_IRGRP and S_IROTH are 32 and 4.
  unfoldable pub load_credentials_file : Bytes → Option FileInfo → CredentialsLoad
  load_credentials_file name none =
      no_credentials (codes "cannot read credentials file " ++ name ++ codes ": no such file")
  load_credentials_file name (some info) =
      if not info.regular
      then no_credentials
          (codes "cannot read credentials file " ++ name ++ codes ": not a regular file")
      else if not (bit_and info.mode 36 == 0)
      then no_credentials (
          codes "credentials file "
          ++ name
          ++ codes " is readable by other users; make it mode 600")
      else elim info.contents [
        | none ↦
            no_credentials
              (codes "cannot read credentials file " ++ name ++ codes ": permission denied")
        | some body ↦ parse_credentials body name
      ]
