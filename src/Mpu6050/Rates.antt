-- ===== src/Mpu6050/Rates.antt =====
-- The sample rates of `src/drivers/mpu6050.cpp`.
use native.Mathlib.Nat.{
  div-add-mod, mul-mod_right, mul-div_right, mul-le-mul_right, mul-le-mul_left,
}
use flight_telemetry.Prelude.{
  ℕ, zero, suc, ◌+◌, ◌-◌, ◌*◌, ◌/◌, ◌%◌, ◌≡◌, ◌≤◌, ◌↔◌, sym, ◌∙◌, false, not, ◌||◌, ltb, ◌==◌, none,
  some, pos, arith, refl, subst, if◌then◌else◌, Bool-cases, inl, inr,
}
use flight_telemetry.Mpu6050.{sample_rate_divider}

-- A divider is a byte, and one more than it times the rate is 1 kHz.
abbrev pub Divides : ℕ → ℕ → Type 0
Divides rate divider = (rate * (divider + 1) ≡ 1000) × (divider ≤ 255)

factor_positive : (a b : ℕ) → a * b ≡ 1000 → 1 ≤ b
factor_positive a zero h = absurd (omega (arith, h))
factor_positive a (suc b) h = omega arith

-- A rate with a divider is in the range that the source tests.
Divides-low : (rate divider : ℕ) → Divides rate divider → 4 ≤ rate
Divides-low rate divider (p, b) = elim (Bool-cases (ltb rate 4)) [
  | inr e ↦ ground (arith, e)
  | inl e ↦
      let few : rate ≤ 3 = ground (arith, e) in
      let most : rate * (divider + 1) ≤ 3 * (divider + 1) = mul-le-mul_right (divider + 1) few in
      absurd (omega (arith, most, p, b))
]

Divides-high : (rate divider : ℕ) → Divides rate divider → rate ≤ 1000
Divides-high rate divider (p, b) =
    let least : rate * 1 ≤ rate * (divider + 1) = mul-le-mul_left rate (omega arith) in
    omega (arith, least, p)

-- The test and the division of the source, for a quotient and a remainder.
given_divider :
    (rate quotient remainder divider : ℕ)
    → rate * quotient + remainder ≡ 1000
    → (if ltb rate 4 || ltb 1000 rate || not (remainder == 0)
        then none
        else some ((quotient - 1) % 256))
      ≡ some divider
    → Divides rate divider
given_divider rate quotient remainder divider d e =
    elim (Bool-cases (ltb rate 4 || ltb 1000 rate || not (remainder == 0))) [
      | inl refused ↦ let n : none ≡ some divider = sym (rw refused refl) ∙ e in absurd cc
      | inr passes ↦
          let s : some ((quotient - 1) % 256) ≡ some divider = sym (rw passes refl) ∙ e in
          let v : (quotient - 1) % 256 ≡ divider = cc in
          let low : 4 ≤ rate = ground (arith, passes) in
          let even : remainder ≡ 0 = ground (arith, passes) in
          let product : rate * quotient ≡ 1000 = omega (arith, d, even) in
          let four : 4 * quotient ≤ rate * quotient = mul-le-mul_right quotient low in
          let most : quotient ≤ 250 = omega (arith, four, product) in
          let some_quotient : 1 ≤ quotient = factor_positive rate quotient product in
          let next : quotient ≡ divider + 1 = omega (arith, v, most, some_quotient) in
          (subst (λ (n : ℕ). rate * n ≡ 1000) next product, omega (arith, next, most))
    ]

divider_given :
    (rate divider : ℕ)
    → 4 ≤ rate
    → rate ≤ 1000
    → divider ≤ 255
    → (if ltb rate 4 || ltb 1000 rate || not (0 == 0) then none else some ((divider + 1 - 1) % 256))
      ≡ some divider
divider_given rate divider low high b =
    let same_byte : (divider + 1 - 1) % 256 ≡ divider = omega (arith, b) in
    let passes : (ltb rate 4 || ltb 1000 rate || not (0 == 0)) ≡ false =
      ground (arith, low, high) in
    rw (passes, same_byte) refl

-- A rate has a divider exactly when the chip's 1 kHz is the rate times one more than a byte, and then that
-- byte is the divider.
pub sample_rate_divider_iff :
    (rate divider : ℕ) → (sample_rate_divider (pos rate) ≡ some divider) ↔ Divides rate divider
unfolding sample_rate_divider
sample_rate_divider_iff rate divider = (
  λ e. given_divider rate (1000 / rate) (1000 % rate) divider (div-add-mod 1000 rate) e,
  λ (p, b).
      let high : rate ≤ 1000 = Divides-high rate divider (p, b) in
      let low : 4 ≤ rate = Divides-low rate divider (p, b) in
      let quotient : 1000 / rate ≡ divider + 1 =
        subst (λ (n : ℕ). n / rate ≡ divider + 1) p
          (mul-div_right (divider + 1) (omega (arith, low))) in
      let remainder : 1000 % rate ≡ 0 =
        subst (λ (n : ℕ). n % rate ≡ 0) p (mul-mod_right rate (divider + 1)) in
      rw (quotient, remainder) (divider_given rate divider low high b),
)
