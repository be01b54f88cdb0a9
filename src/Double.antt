-- ===== src/Double.antt =====
-- The doubles of the drivers, as IEEE 754 bit patterns below 2^64. Classification, comparison and sign are
-- written out; rounding arithmetic and the C library's functions are a parameter, `DoubleOps`.
use flight_telemetry.Prelude.{ℕ, ◌+◌, ◌-◌, ◌%◌, Bool, not, ◌&&◌, ltb, leb, ◌==◌, if◌then◌else◌, ℤ}
use flight_telemetry.Bytes.{Bytes}
use flight_telemetry.Float.{Float, Double}

-- `strtod` and `strtol` (base 10) give the value and how many bytes they read of a text up to its first
-- NUL; `narrow` is the conversion to `float`, `of_float` the one from it, `of_int` the one from `int64_t`.
pub record DoubleOps : Type 0 where
  pub add : Double → Double → Double
  pub sub : Double → Double → Double
  pub mul : Double → Double → Double
  pub div : Double → Double → Double
  pub floor : Double → Double
  pub cos : Double → Double
  pub hypot : Double → Double → Double
  pub narrow : Double → Float
  pub of_float : Float → Double
  pub of_int : ℤ → Double
  pub strtod : Bytes → Double × ℕ
  pub strtol : Bytes → ℤ × ℕ

abbrev pub double_magnitude : Double → ℕ
double_magnitude x = x % 0x8000_0000_0000_0000

abbrev pub double_is_negative : Double → Bool
double_is_negative x = leb 0x8000_0000_0000_0000 x

abbrev pub double_is_nan : Double → Bool
double_is_nan x = ltb 0x7ff0_0000_0000_0000 (double_magnitude x)

-- The place of a double that is not NaN among the others, the two zeros at one place.
abbrev pub double_place : Double → ℕ
double_place x =
    if double_is_negative x
    then 0x8000_0000_0000_0000 - double_magnitude x
    else 0x8000_0000_0000_0000 + double_magnitude x

-- The comparisons of C++: false whenever a side is NaN.
abbrev pub double_lt : Double → Double → Bool
double_lt a b =
    not (double_is_nan a) && not (double_is_nan b) && ltb (double_place a) (double_place b)

abbrev pub double_le : Double → Double → Bool
double_le a b =
    not (double_is_nan a) && not (double_is_nan b) && leb (double_place a) (double_place b)

abbrev pub double_eq : Double → Double → Bool
double_eq a b = not (double_is_nan a) && not (double_is_nan b) && double_place a == double_place b

-- Unary minus flips the sign bit.
abbrev pub negate : Double → Double
negate x = if double_is_negative x then x - 0x8000_0000_0000_0000 else x + 0x8000_0000_0000_0000
