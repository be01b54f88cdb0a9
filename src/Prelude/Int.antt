-- ===== src/Prelude/Int.antt =====
-- The signed integers of the source, over the native numbers, and their order.
use Prim.Native.Nat.{ℕ, ◌+◌, ◌-◌, ◌*◌, ◌/◌, ◌%◌, ◌^◌}
use mathlib.Core.Bool.{Bool, true, false}
use flight_telemetry.Prelude.Tests.{ltb, ◌==◌, if◌then◌else◌}

pub data ℤ : Type 0 where
  pos negsuc : ℕ → ℤ

abbrev pub ltb_int : ℤ → ℤ → Bool
ltb_int (pos a) (pos b) = ltb a b
ltb_int (pos a) (negsuc b) = false
ltb_int (negsuc a) (pos b) = true
ltb_int (negsuc a) (negsuc b) = ltb b a

abbrev sub_nat : ℕ → ℕ → ℤ
sub_nat a b = if ltb a b then negsuc (b - a - 1) else pos (a - b)

abbrev pub sub_int : ℤ → ℤ → ℤ
sub_int (pos a) (pos b) = sub_nat a b
sub_int (pos a) (negsuc b) = pos (a + b + 1)
sub_int (negsuc a) (pos b) = negsuc (a + b)
sub_int (negsuc a) (negsuc b) = sub_nat b a

-- By a natural number.
abbrev pub times_int : ℤ → ℕ → ℤ
times_int (pos a) n = pos (a * n)
times_int (negsuc a) n = if n == 0 then pos 0 else negsuc ((a + 1) * n - 1)

abbrev pub negated : ℤ → ℤ
negated (pos n) = if n == 0 then pos 0 else negsuc (n - 1)
negated (negsuc n) = pos (n + 1)

abbrev pub add_int : ℤ → ℤ → ℤ
add_int (pos a) (pos b) = pos (a + b)
add_int (pos a) (negsuc b) = sub_nat a (b + 1)
add_int (negsuc a) (pos b) = sub_nat b (a + 1)
add_int (negsuc a) (negsuc b) = negsuc (a + b + 1)

abbrev pub mul_int : ℤ → ℤ → ℤ
mul_int a (pos b) = times_int a b
mul_int a (negsuc b) = negated (times_int a (b + 1))

-- `>>` by k places: it rounds down, as an arithmetic shift does.
abbrev pub shr_int : ℤ → ℕ → ℤ
shr_int (pos a) k = pos (a / 2 ^ k)
shr_int (negsuc a) k = negsuc (a / 2 ^ k)

-- `/`, which rounds towards zero; the divisor is not zero.
abbrev pub quot_int : ℤ → ℤ → ℤ
quot_int (pos a) (pos b) = pos (a / b)
quot_int (pos a) (negsuc b) = negated (pos (a / (b + 1)))
quot_int (negsuc a) (pos b) = negated (pos ((a + 1) / b))
quot_int (negsuc a) (negsuc b) = pos ((a + 1) / (b + 1))

-- `static_cast<uint32_t>`.
abbrev pub to_uint32 : ℤ → ℕ
to_uint32 (pos a) = a % 2 ^ 32
to_uint32 (negsuc a) = 2 ^ 32 - 1 - a % 2 ^ 32
