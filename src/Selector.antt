-- ===== src/Selector.antt =====
-- `src/drivers/aircraft_selector.h` and `src/drivers/aircraft_selector.cpp`, with the rows of
-- `src/drivers/opensky_json.h` that it reads: which aircraft the ADS-B source presents. Its setting
-- `gone_after_polls` is signed; the count of misses does not wrap.
pub mod Update
pub mod Nearest
pub mod Kept
pub mod Absent
use flight_telemetry.Prelude.{
  ℕ, ◌+◌, Bool, true, false, not, ◌&&◌, ◌||◌, ltb, ◌==◌, if◌then◌else◌, Option, none, some, List,
  [], ◌∷◌, ℤ, pos, ltb_int,
}
use flight_telemetry.Float.{Float, Double, float_lt}
use flight_telemetry.Double.{DoubleOps, double_lt, double_le, double_eq}
use flight_telemetry.Bytes.{Bytes, same}

pub record AircraftState : Type 0 where
  pub icao24 : Bytes
  pub callsign : Bytes
  pub time_position : Option ℤ
  pub last_contact : ℤ
  pub longitude : Option Double
  pub latitude : Option Double
  pub baro_altitude_m : Option Float
  pub on_ground : Bool
  pub velocity_mps : Option Float
  pub true_track_deg : Option Float
  pub vertical_rate_mps : Option Float
  pub geo_altitude_m : Option Float

pub record StatesDocument : Type 0 where
  pub time : ℤ
  pub states : List AircraftState
  pub rows_skipped : ℕ

pub record AdsbReference : Type 0 where
  pub latitude : Double
  pub longitude : Double

pub data SwitchReason : Type 0 where
  initial nearer landed left incomplete above : SwitchReason

pub record AircraftIdentity : Type 0 where
  pub icao24 : Bytes
  pub callsign : Bytes

pub record SelectionChange : Type 0 where
  pub previous : Option AircraftIdentity
  pub current : Option AircraftIdentity
  pub reason : SwitchReason
  pub distance_m : Double

pub record SelectorConfig : Type 0 where
  pub reference : AdsbReference
  pub switch_margin_m : Double
  pub gone_after_polls : ℤ
  pub ceiling_m : Double

pub record AircraftSelector : Type 0 where
  pub selected : Option AircraftIdentity
  pub selected_state : Option AircraftState
  pub selected_distance_m : Double
  pub misses : ℕ

abbrev pub selector_init : AircraftSelector
selector_init = record {
  selected = none;
  selected_state = none;
  selected_distance_m = 0;
  misses = 0;
}

abbrev pub identity_of : AircraftState → AircraftIdentity
identity_of a = record { icao24 = a.icao24; callsign = a.callsign }

abbrev pub is_present {ℓ} : {A : Type ℓ} → Option A → Bool
is_present none = false
is_present (some a) = true

unfoldable pub usable : AircraftState → Bool
usable a =
    not a.on_ground
    && is_present a.latitude
    && is_present a.longitude
    && is_present a.geo_altitude_m
    && is_present a.velocity_mps
    && is_present a.true_track_deg
    && is_present a.time_position

-- The order of `std::string`.
unfoldable pub text_lt : Bytes → Bytes → Bool
text_lt [] [] = false
text_lt [] (b ∷ bs) = true
text_lt (a ∷ as') [] = false
text_lt (a ∷ as') (b ∷ bs) = ltb a b || (a == b && text_lt as' bs)

abbrev pub pi : Double
pi = 0x4009_21fb_5444_2d18

abbrev pub meters_per_degree : Double
meters_per_degree = 0x40fb_25ae_d389_3eac

abbrev pub half_turn : Double
half_turn = 0x4066_8000_0000_0000

-- The degrees of a usable state, whose optionals are there.
abbrev pub degrees : Option Double → Double
degrees none = 0
degrees (some d) = d

-- `std::find_if` by the address.
unfoldable pub find_address : Bytes → List AircraftState → Option AircraftState
find_address address [] = none
find_address address (a ∷ rest) =
    let later = find_address address rest in if same a.icao24 address then some a else later

abbrev pub descending : Option Float → Bool
descending none = false
descending (some rate) = float_lt rate 0

abbrev pub change {ℓ} : {S : Type ℓ} → SelectionChange × S → Option SelectionChange × S
change (c, s) = (some c, s)

module _ (ops : DoubleOps) (config : SelectorConfig) where
  -- Only for a usable state: its geometric altitude is there.
  unfoldable pub under_ceiling : AircraftState → Bool
  under_ceiling a = elim a.geo_altitude_m [
    | none ↦ false
    | some altitude ↦ double_le (ops.of_float altitude) config.ceiling_m
  ]

  unfoldable pub candidate : AircraftState → Bool
  candidate a = usable a && under_ceiling a && descending a.vertical_rate_mps

  unfoldable pub distance_m : Double → Double → Double
  distance_m latitude longitude =
      let r = config.reference in
      let north = ops.mul (ops.sub latitude r.latitude) meters_per_degree in
      let east =
        ops.mul (ops.mul (ops.sub longitude r.longitude) meters_per_degree)
          (ops.cos (ops.div (ops.mul r.latitude pi) half_turn)) in
      ops.hypot north east

  abbrev pub distance_of : AircraftState → Double
  distance_of a = distance_m (degrees a.latitude) (degrees a.longitude)

  -- The test on a candidate at `d` with the nearest so far.
  abbrev pub is_nearer : AircraftState → Double → AircraftState → Double → Bool
  is_nearer a d best best_m =
      double_lt d best_m || (double_eq d best_m && text_lt a.icao24 best.icao24)

  -- One turn of the loop over the states.
  unfoldable pub consider :
      AircraftState → Option (AircraftState × Double) → Option (AircraftState × Double)
  consider a best =
      let d = distance_of a in
      if not (candidate a) then best else elim best [
        | none ↦ some (a, d)
        | some (b, b_m) ↦ if is_nearer a d b b_m then some (a, d) else some (b, b_m)
      ]

  unfoldable pub nearest_from :
      Option (AircraftState × Double) → List AircraftState → Option (AircraftState × Double)
  nearest_from best [] = best
  nearest_from best (a ∷ rest) = nearest_from (consider a best) rest
