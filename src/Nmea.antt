-- ===== src/Nmea.antt =====
-- `src/drivers/nmea.h` and `src/drivers/nmea.cpp`: the NMEA sentences of a GPS receiver. A `string_view` is a
-- list of bytes.
pub mod Parse
pub mod Checksum
pub mod Fields
pub mod Parsed
use flight_telemetry.Prelude.{
  ℕ, ◌+◌, ◌-◌, ◌*◌, Bool, true, false, not, ◌&&◌, ◌||◌, ltb, leb, ◌==◌, if◌then◌else◌, Option, none,
  some, List, [], ◌∷◌, length, ℤ, pos, ltb_int, ◌>>=◌, ◌>>◌, guard,
}
use flight_telemetry.Float.{Float, Double, is_finite_double}
use flight_telemetry.Double.{DoubleOps, double_lt, double_le, negate}
use flight_telemetry.Bytes.{Bytes, codes, same, is_empty, split_at, xor_of}

pub data Formatter : Type 0 where
  other gga rmc : Formatter

pub record Gga : Type 0 where
  pub utc_time : Bytes
  pub has_position : Bool
  pub latitude_deg : Double
  pub longitude_deg : Double
  pub altitude_m : Float
  pub fix_quality : ℤ
  pub satellites : ℤ

pub record Rmc : Type 0 where
  pub utc_time : Bytes
  pub valid : Bool
  pub has_position : Bool
  pub latitude_deg : Double
  pub longitude_deg : Double
  pub speed_mps : Float
  pub course_deg : Float

abbrev pub dollar : ℕ
dollar = b'$'

abbrev pub star : ℕ
star = b'*'

abbrev pub comma : ℕ
comma = b','

unfoldable pub hex_digit : ℕ → Option ℕ
hex_digit c =
    if leb b'0' c && leb c b'9'
    then some (c - b'0')
    else if leb b'A' c && leb c b'F'
    then some (c - b'A' + 10)
    else if leb b'a' c && leb c b'f'
    then some (c - b'a' + 10)
    else none

-- The two digits after the "*", which end the sentence.
unfoldable pub checksum_value : Bytes → Option ℕ
unfolding hex_digit
checksum_value [] = none
checksum_value (h ∷ []) = none
checksum_value (h ∷ l ∷ []) = elim (hex_digit h) [
  | none ↦ none
  | some high ↦ elim (hex_digit l) [ none ↦ none | some low ↦ some (high * 16 + low) ]
]
checksum_value (h ∷ l ∷ x ∷ more) = none

unfoldable pub checksum_ok : Bytes → Bool
unfolding split_at checksum_value xor_of
checksum_ok [] = false
checksum_ok (c ∷ rest) =
    if c == dollar
    then elim (split_at star rest) [
      | none ↦ false
      | some (body, digits) ↦ elim (checksum_value digits) [
        | none ↦ false
        | some value ↦ xor_of 0 body == value
      ]
    ]
    else false

-- The loop of `fields`: the field being read, then the rest of the body.
unfoldable pub fields_from : Bytes → List Bytes
fields_from [] = [] ∷ []
fields_from (b ∷ bs) =
    let rest = fields_from bs in
    if b == comma
    then [] ∷ rest
    else elim rest [ [] ↦ (b ∷ []) ∷ [] | field ∷ more ↦ (b ∷ field) ∷ more ]

unfoldable pub fields : Bytes → List Bytes
unfolding split_at fields_from
fields [] = []
fields (c ∷ rest) =
    if c == dollar
    then elim (split_at star rest) [ none ↦ [] | some (body, digits) ↦ fields_from body ]
    else []

unfoldable pub formatter : Bytes → Formatter
formatter (a ∷ b ∷ x ∷ y ∷ z ∷ []) =
    if same (x ∷ y ∷ z ∷ []) (codes "GGA")
    then gga
    else if same (x ∷ y ∷ z ∷ []) (codes "RMC")
    then rmc
    else other
formatter address = other

-- `f[i]`, an index below the size that the parsers test first.
unfoldable pub field_at : List Bytes → ℕ → Bytes
field_at [] i = []
field_at (f ∷ fs) i = if i == 0 then f else field_at fs (i - 1)

pub data Position : Type 0 where
  absent malformed : Position
  present : Double → Double → Position
