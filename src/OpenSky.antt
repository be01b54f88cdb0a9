-- ===== src/OpenSky.antt =====
-- `src/drivers/opensky_client.h` and `src/drivers/opensky_client.cpp`, with the responses of
-- `src/drivers/http_client.h`: the token's life and one fetch of the states. The network and the clock are a record
-- of operations over a state of their own. Counters do not wrap. The two
-- URLs are those that the constructor makes of the endpoints and the box.
pub mod Fetch
pub mod Outcomes
use flight_telemetry.Prelude.{
  ℕ, ◌+◌, ◌-◌, ◌*◌, ◌/◌, ◌%◌, Bool, true, false, not, ◌&&◌, ◌||◌, ltb, leb, ◌==◌, if◌then◌else◌,
  Option, none, some, List, [], ◌∷◌, ◌++◌, length, ℤ, pos, negsuc, ltb_int, ◌^◌,
}
use flight_telemetry.Float.{Double}
use flight_telemetry.Double.{DoubleOps}
use flight_telemetry.Bytes.{Bytes, codes, same, is_empty}
use flight_telemetry.Json.{Json}
use flight_telemetry.OpenSkyJson.{Credentials, parse_states, parse_token, empty_document}
use flight_telemetry.Selector.{StatesDocument}

pub record HttpResponse : Type 0 where
  pub transport_ok : Bool
  pub status : ℕ
  pub body : Bytes
  pub headers : List (Bytes × Bytes)
  pub error : Bytes
  pub error_code : ℤ

pub data FetchStatus : Type 0 where
  fetched token_refused token_unavailable unauthorized rate_limited http_error transport_error :
      FetchStatus
  malformed : FetchStatus

pub record FetchResult : Type 0 where
  pub status : FetchStatus
  pub document : StatesDocument
  pub retry_after_s : Option ℤ
  pub http_status : ℕ
  pub detail : Bytes

pub record OpenSkyCounters : Type 0 where
  pub polls : ℕ
  pub ok : ℕ
  pub auth : ℕ
  pub token_refused : ℕ
  pub token_unavailable : ℕ
  pub unauthorized : ℕ
  pub rate_limited : ℕ
  pub http_errors : ℕ
  pub transport_errors : ℕ
  pub malformed : ℕ
  pub token_requests : ℕ
  pub rows_skipped : ℕ
  pub last_retry_after_s : Option ℤ
  pub last_http_status : ℕ
  pub last_error_code : ℤ

pub data TokenOutcome : Type 0 where
  granted refused unavailable : TokenOutcome

pub record OpenSkyClient : Type 0 where
  pub credentials : Credentials
  pub token_url : Bytes
  pub states_url : Bytes
  pub token : Bytes
  pub has_token : Bool
  pub token_expires_at_ns : ℕ
  pub counters : OpenSkyCounters

abbrev pub token_refresh_margin_s : ℕ
token_refresh_margin_s = 60

abbrev pub failure : FetchStatus → HttpResponse → FetchResult
failure status response = record {
  status = status;
  document = empty_document;
  retry_after_s = none;
  http_status = if response.transport_ok then response.status else 0;
  detail = if response.transport_ok then [] else response.error;
}

abbrev pub unreserved : ℕ → Bool
unreserved c =
    leb b'A' c && leb c b'Z'
    || leb b'a' c && leb c b'z'
    || leb b'0' c && leb c b'9'
    || c == b'-'
    || c == b'.'
    || c == b'_'
    || c == b'~'

abbrev pub hex : ℕ → ℕ
hex n = if ltb n 10 then n + b'0' else n - 10 + b'A'

unfoldable pub form_encode : Bytes → Bytes
form_encode [] = []
form_encode (c ∷ cs) =
    let rest = form_encode cs in
    if unreserved c then c ∷ rest else b'%' ∷ hex (c / 16) ∷ hex (c % 16) ∷ rest

-- The first header of a name.
abbrev pub header : List (Bytes × Bytes) → Bytes → Option Bytes
header [] name = none
header ((key, value) ∷ rest) name =
    let later = header rest name in if same key name then some value else later

-- `c_str()[i]`, the end a NUL.
abbrev pub char_at : Bytes → ℕ → ℕ
char_at [] i = 0
char_at (b ∷ bs) i = let later = char_at bs (i - 1) in if i == 0 then b else later

abbrev pub is_success : HttpResponse → Bool
is_success r = leb 200 r.status && ltb r.status 300

abbrev pub is_unauthorized : HttpResponse → Bool
is_unauthorized r = r.transport_ok && r.status == 401

-- `usable_s`, once the margin is taken off.
abbrev pub usable_s : ℤ → ℕ
usable_s (pos n) = if ltb token_refresh_margin_s n then n - token_refresh_margin_s else 0
usable_s (negsuc n) = 0

-- The network and the clock; a `get` has the URL and the bearer token, a `post_form` the URL and the form.
pub record Service {ℓ} (W : Type ℓ) : Type ℓ where
  pub get : W → Bytes → Bytes → HttpResponse × W
  pub post_form : W → Bytes → Bytes → HttpResponse × W
  pub now_ns : W → ℕ × W

abbrev pub token_form : Credentials → Bytes
token_form c =
    codes "grant_type=client_credentials&client_id="
    ++ form_encode c.client_id
    ++ codes "&client_secret="
    ++ form_encode c.client_secret

abbrev pub no_token_result : FetchStatus → OpenSkyClient → FetchResult
no_token_result status c = record {
  status = status;
  document = empty_document;
  retry_after_s = none;
  http_status = c.counters.last_http_status;
  detail = [];
}

abbrev pub count_unavailable : OpenSkyClient → OpenSkyClient
count_unavailable c = record c {
  counters = record c.counters { token_unavailable = c.counters.token_unavailable + 1 };
}
