-- ===== src/Json.antt =====
-- Parsed JSON, as `src/drivers/opensky_json.cpp` reads it through nlohmann/json: an integer is one of `int64_t` or
-- `uint64_t`, and a real is a finite double.
use flight_telemetry.Prelude.{
  ℕ, ◌+◌, ◌-◌, ◌^◌, Bool, ltb, ◌==◌, if◌then◌else◌, Option, none, some, ℤ, pos, negsuc,
}
use flight_telemetry.Float.{Double}
use flight_telemetry.Double.{DoubleOps}
use flight_telemetry.Bytes.{Bytes, same}

mutual
  pub data Json : Type 0 where
    null : Json
    boolean : Bool → Json
    integer : ℤ → Json
    real : Double → Json
    text : Bytes → Json
    array : Elements → Json
    object : Members → Json

  pub data Elements : Type 0 where
    nil : Elements
    cons : Json → Elements → Elements

  pub data Members : Type 0 where
    end : Members
    member : Bytes → Json → Members → Members

abbrev pub size : Elements → ℕ
size nil = 0
size (cons x xs) = size xs + 1

-- `row[i]`; null out of range, which the code tests first.
abbrev pub element : Elements → ℕ → Json
element nil i = null
element (cons x xs) i = let later = element xs (i - 1) in if i == 0 then x else later

-- `contains` and `operator[]`.
abbrev pub lookup : Members → Bytes → Option Json
lookup end key = none
lookup (member name value rest) key =
    let later = lookup rest key in if same name key then some value else later

-- `get<int64_t>`: an integer from 2^63 on wraps.
abbrev pub int64_of : ℤ → ℤ
int64_of (pos n) = if ltb n (2 ^ 63) then pos n else negsuc (2 ^ 64 - 1 - n)
int64_of (negsuc n) = negsuc n

abbrev pub number_of : DoubleOps → Json → Option Double
number_of ops (integer n) = some (ops.of_int n)
number_of ops (real x) = some x
number_of ops _ = none

abbrev pub integer_of : Json → Option ℤ
integer_of (integer n) = some (int64_of n)
integer_of _ = none

abbrev pub text_of : Json → Option Bytes
text_of (text t) = some t
text_of _ = none

abbrev pub boolean_of : Json → Option Bool
boolean_of (boolean b) = some b
boolean_of _ = none
