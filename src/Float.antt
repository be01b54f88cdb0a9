-- ===== src/Float.antt =====
-- The floats of the program, as IEEE 754 bit patterns: `src/processing/voter.cpp` reads them so.
-- A `float` is a number below 2^32 and a `double` one below 2^64. Classification, comparison and the
-- conversion of an unsigned integer are written out. The rounding arithmetic, the library's `sqrt`,
-- `pow` and `atan2` and the conversions between the two types are a parameter, `FloatOps`.
use flight_telemetry.Prelude.{
  ℕ, zero, suc, ◌+◌, ◌-◌, ◌*◌, ◌/◌, ◌%◌, ◌^◌, ◌≡◌, Bool, true, false, not, ◌&&◌, ◌||◌, ltb, leb,
  ◌==◌, if◌then◌else◌, arith,
}

abbrev pub Float : Type 0
Float = ℕ

abbrev pub Double : Type 0
Double = ℕ

-- What the code does with floats and leaves to the processor and the C library.
pub record FloatOps : Type 0 where
  pub add : Float → Float → Float
  pub sub : Float → Float → Float
  pub mul : Float → Float → Float
  pub div : Float → Float → Float
  pub pow : Float → Float → Float
  pub sqrt : Float → Float
  pub atan2 : Float → Float → Float
  pub widen : Float → Double
  pub narrow : Double → Float

-- The pattern without its sign bit.
abbrev pub magnitude : Float → ℕ
magnitude x = x % 0x8000_0000

abbrev pub is_negative : Float → Bool
is_negative x = leb 0x8000_0000 x

-- `std::isnan` and `std::isfinite`: the exponent is all ones from 0x7f800000 on.
abbrev pub is_nan : Float → Bool
is_nan x = ltb 0x7f80_0000 (magnitude x)

abbrev pub is_finite : Float → Bool
is_finite x = ltb (magnitude x) 0x7f80_0000

abbrev pub is_finite_double : Double → Bool
is_finite_double x = ltb (x % 0x8000_0000_0000_0000) 0x7ff0_0000_0000_0000

-- `<` on numbers that are not NaN: sign and magnitude.
abbrev pub ordered_lt : Float → Float → Bool
ordered_lt a b =
    if is_negative a
    then (if is_negative b
        then ltb (magnitude b) (magnitude a)
        else ltb 0 (magnitude a + magnitude b))
    else if is_negative b
    then false
    else ltb (magnitude a) (magnitude b)

-- The comparisons of C++: a NaN is below, above and equal to nothing, and the two zeros are equal.
abbrev pub float_lt : Float → Float → Bool
float_lt a b = not (is_nan a) && not (is_nan b) && ordered_lt a b

abbrev pub float_eq : Float → Float → Bool
float_eq a b = not (is_nan a) && not (is_nan b) && (a == b || magnitude a + magnitude b == 0)

abbrev pub float_le : Float → Float → Bool
float_le a b = float_lt a b || float_eq a b

-- The place of the highest bit of `n`, for a fuel that is at least its width.
log2 : ℕ → ℕ → ℕ
log2 zero n = 0
log2 (suc fuel) n = elim (ltb n 2) [ true ↦ 0 | false ↦ suc (log2 fuel (n / 2)) ]

-- Round to nearest, ties to even, at `s` dropped bits; a carry runs on into the exponent.
round_at : ℕ → ℕ → ℕ
round_at zero n = n
round_at (suc s) n =
    let quotient = n / 2 ^ suc s in
    let remainder = n % 2 ^ suc s in
    if ltb (2 ^ s) remainder || (remainder == 2 ^ s && quotient % 2 == 1)
    then quotient + 1
    else quotient

-- `static_cast<float>` of an unsigned integer below 2^64.
unfoldable pub of_uint : ℕ → Float
unfolding log2 round_at
of_uint zero = 0
of_uint (suc n) =
    let width = log2 64 (suc n) in
    (126 + width) * 2 ^ 23
    + (if ltb width 24 then suc n * 2 ^ (23 - width) else round_at (width - 23) (suc n))

-- `static_cast<float>(std::size_t)` of the lane numbers, and two rounded values.
of_uint_small : (of_uint 1 ≡ 0x3f80_0000) × (of_uint 2 ≡ 0x4000_0000) × (of_uint 3 ≡ 0x4040_0000)
unfolding of_uint
of_uint_small = omega arith

of_uint_rounds : (of_uint 16_777_217 ≡ 0x4b80_0000) × (of_uint 16_777_219 ≡ 0x4b80_0002)
unfolding of_uint
of_uint_rounds = omega arith
