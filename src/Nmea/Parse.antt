-- ===== src/Nmea/Parse.antt =====
-- Angles, numbers and the two sentences, of `src/drivers/nmea.cpp`.
use flight_telemetry.Prelude.{
  ℕ, ◌+◌, Bool, true, false, not, ◌&&◌, ◌||◌, ltb, ◌==◌, if◌then◌else◌, Option, none, some, List,
  length, ℤ, pos, ltb_int, ◌>>=◌, ◌>>◌, guard,
}
use flight_telemetry.Float.{Float, Double, is_finite_double}
use flight_telemetry.Double.{DoubleOps, double_lt, double_le, negate}
use flight_telemetry.Bytes.{Bytes, codes, same, is_empty}
use flight_telemetry.Nmea.{Gga, Position, Rmc, absent, field_at, malformed, present}

module _ (ops : DoubleOps) where
  open ops use {strtod, strtol, sub, mul, div, add, floor, narrow}

  unfoldable pub parse_number : Bytes → Option Double
  parse_number text =
      let (value, read) = strtod text in
      if is_empty text
      then none
      else if not (read == length text)
      then none
      else if is_finite_double value
      then some value
      else none

  unfoldable pub parse_count : Bytes → ℤ → ℤ → Option ℤ
  parse_count text min max =
      let (value, read) = strtol text in
      if is_empty text
      then some (pos 0)
      else if not (read == length text)
      then none
      else if ltb_int value min || ltb_int max value
      then none
      else some value

  -- 100.0, 60.0, 90.0 and 180.0 as doubles.
  unfoldable pub to_degrees : Bytes → Bytes → Option Double
  unfolding parse_number
  to_degrees ddmm hemisphere =
      let north_south = same hemisphere (codes "N") || same hemisphere (codes "S") in
      let east_west = same hemisphere (codes "E") || same hemisphere (codes "W") in
      let is_negative = same hemisphere (codes "S") || same hemisphere (codes "W") in
      if not north_south && not east_west then none else elim (parse_number ddmm) [
        | none ↦ none
        | some value ↦
            let whole_degrees = floor (div value 0x4059_0000_0000_0000) in
            let minutes = sub value (mul whole_degrees 0x4059_0000_0000_0000) in
            let degrees = add whole_degrees (div minutes 0x404e_0000_0000_0000) in
            let limit = if north_south then 0x4056_8000_0000_0000 else 0x4066_8000_0000_0000 in
            if double_lt value 0
            then none
            else if double_le 0x404e_0000_0000_0000 minutes
            then none
            else if double_lt limit degrees
            then none
            else some (if is_negative then negate degrees else degrees)
      ]

  -- 1852.0 / 3600.0.
  unfoldable pub knots_to_mps : Double → Float
  knots_to_mps knots = narrow (mul knots 0x3fe0_7654_320f_edcc)

  unfoldable pub read_position : List Bytes → ℕ → ℕ → Position
  read_position f lat_index lon_index =
      let lat_present = not (is_empty (field_at f lat_index)) in
      let lon_present = not (is_empty (field_at f lon_index)) in
      if not lat_present && not lon_present
      then absent
      else if not lat_present || not lon_present
      then malformed
      else elim (to_degrees (field_at f lat_index) (field_at f (lat_index + 1))) [
        | none ↦ malformed
        | some latitude ↦ elim (to_degrees (field_at f lon_index) (field_at f (lon_index + 1))) [
          | none ↦ malformed
          | some longitude ↦ present latitude longitude
        ]
      ]

  -- 360.0 as a double; the field indices are those of the source.
  abbrev course_limit : Double
  course_limit = 0x4076_8000_0000_0000

  abbrev has_place : Position → Bool
  has_place absent = false
  has_place malformed = false
  has_place (present latitude longitude) = true

  abbrev place_of : Position → Double × Double
  place_of absent = (0, 0)
  place_of malformed = (0, 0)
  place_of (present latitude longitude) = (latitude, longitude)

  -- A position unless it is malformed.
  unfoldable pub position_in : List Bytes → ℕ → ℕ → Option Position
  unfolding read_position
  position_in f lat_index lon_index = elim (read_position f lat_index lon_index) [
    | absent ↦ some absent
    | malformed ↦ none
    | present latitude longitude ↦ some (present latitude longitude)
  ]

  -- A number that may be empty, then zero; `ok` is a range.
  unfoldable pub optional_number : Bytes → (Double → Bool) → (Double → Float) → Option Float
  unfolding parse_number
  optional_number text ok convert =
      if is_empty text
      then some 0
      else do value ← parse_number text; guard (ok value); some (convert value)

  unfoldable pub parse_gga : List Bytes → Option Gga
  unfolding parse_count position_in optional_number field_at
  parse_gga f = do
    guard (not (ltb (length f) 10))
    quality ← parse_count (field_at f 6) (pos 0) (pos 9)
    satellites ← parse_count (field_at f 7) (pos 0) (pos 99)
    position ← position_in f 2 4
    altitude ← optional_number (field_at f 9) (λ value. true) narrow
    let has_position = has_place position && not (is_empty (field_at f 9))
    guard (not (not (ltb_int quality (pos 1)) && not has_position))
    some (record {
      utc_time = field_at f 1;
      has_position = has_position;
      latitude_deg = (place_of position).0;
      longitude_deg = (place_of position).1;
      altitude_m = altitude;
      fix_quality = quality;
      satellites = satellites;
    })

  unfoldable pub parse_rmc : List Bytes → Option Rmc
  unfolding position_in optional_number field_at knots_to_mps
  parse_rmc f = do
    guard (not (ltb (length f) 9))
    let status = field_at f 2
    guard (same status (codes "A") || same status (codes "V") || is_empty status)
    let valid = same status (codes "A")
    position ← position_in f 3 5
    speed ← optional_number (field_at f 7) (λ knots. not (double_lt knots 0)) knots_to_mps
    course ←
        optional_number (field_at f 8)
          (λ course. not (double_lt course 0 || double_lt course_limit course)) narrow
    guard (not (valid && not (has_place position)))
    some (record {
      utc_time = field_at f 1;
      valid = valid;
      has_position = has_place position;
      latitude_deg = (place_of position).0;
      longitude_deg = (place_of position).1;
      speed_mps = speed;
      course_deg = course;
    })
