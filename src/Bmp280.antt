-- ===== src/Bmp280.antt =====
-- `src/drivers/bmp280.h` and `src/drivers/bmp280.cpp`: the driver of the barometer. Its signed integers
-- do not wrap, since their overflow is undefined; the result of the pressure is cut to 32 bits as the
-- source cuts it. The texts of the errors are left out.
use flight_telemetry.Prelude.{
  ℕ, ◌+◌, ◌*◌, ◌/◌, ◌^◌, Bool, true, false, not, ◌||◌, ◌==◌, if◌then◌else◌, Option, none, some,
  List, [], ◌∷◌, ℤ, pos, negsuc, add_int, sub_int, mul_int, times_int, shr_int, quot_int, to_uint32,
}
use flight_telemetry.Float.{Float, of_uint}
use flight_telemetry.Bytes.{Bytes}
use flight_telemetry.Mpu6050.{I2cBus, ScaleOps, be16, byte_at, write_each}

pub record BaroReading : Type 0 where
  pub pressure_hpa : Float
  pub temperature_c : Float

pub record Bmp280Calibration : Type 0 where
  pub dig_T1 : ℕ
  pub dig_T2 : ℤ
  pub dig_T3 : ℤ
  pub dig_P1 : ℕ
  pub dig_P2 : ℤ
  pub dig_P3 : ℤ
  pub dig_P4 : ℤ
  pub dig_P5 : ℤ
  pub dig_P6 : ℤ
  pub dig_P7 : ℤ
  pub dig_P8 : ℤ
  pub dig_P9 : ℤ

pub record Bmp280 : Type 0 where
  pub address : ℕ
  pub chip_id : ℕ
  pub calibration : Bmp280Calibration
  pub initialized : Bool

abbrev le16 : ℕ → ℕ → ℕ
le16 lo hi = lo + hi * 256

-- The same word as two's complement.
abbrev le16s : ℕ → ℕ → ℤ
le16s lo hi = be16 hi lo

-- The three parts have no bit in common.
abbrev raw20 : ℕ → ℕ → ℕ → ℕ
raw20 msb lsb xlsb = msb * 2 ^ 12 + lsb * 2 ^ 4 + xlsb / 2 ^ 4

-- The temperature in hundredths of a degree, and `t_fine`.
unfoldable pub compensate_temperature : Bmp280Calibration → ℕ → ℤ × ℤ
compensate_temperature cal adc_t =
    let t1 = pos cal.dig_T1 in
    let var1 = shr_int (mul_int (sub_int (pos (adc_t / 2 ^ 3)) (times_int t1 2)) cal.dig_T2) 11 in
    let above = sub_int (pos (adc_t / 2 ^ 4)) t1 in
    let var2 = shr_int (mul_int (shr_int (mul_int above above) 12) cal.dig_T3) 14 in
    let t_fine = add_int var1 var2 in (shr_int (add_int (times_int t_fine 5) (pos 128)) 8, t_fine)

-- The divisor of the pressure: `var1` of the formula's first half.
abbrev pressure_divisor : Bmp280Calibration → ℤ → ℤ
pressure_divisor cal var1 =
    let scaled =
      add_int (shr_int (mul_int (mul_int var1 var1) cal.dig_P3) 8)
        (times_int (mul_int var1 cal.dig_P2) (2 ^ 12)) in
    shr_int (times_int (add_int (pos (2 ^ 47)) scaled) cal.dig_P1) 33

-- `var2` of the formula's first half.
abbrev pressure_offset : Bmp280Calibration → ℤ → ℤ
pressure_offset cal var1 =
    add_int
      (add_int (mul_int (mul_int var1 var1) cal.dig_P6)
        (times_int (mul_int var1 cal.dig_P5) (2 ^ 17)))
      (times_int cal.dig_P4 (2 ^ 35))

-- The pressure in Pa times 256.
unfoldable pub compensate_pressure : Bmp280Calibration → ℕ → ℤ → ℕ
compensate_pressure cal adc_p t_fine =
    let start = sub_int t_fine (pos 128000) in
    let divisor = pressure_divisor cal start in
    let raised = times_int (sub_int (pos 1048576) (pos adc_p)) (2 ^ 31) in
    let p = quot_int (times_int (sub_int raised (pressure_offset cal start)) 3125) divisor in
    let var1 = shr_int (mul_int (mul_int cal.dig_P9 (shr_int p 13)) (shr_int p 13)) 25 in
    let var2 = shr_int (mul_int cal.dig_P8 p) 19 in
    let corrected = shr_int (add_int (add_int p var1) var2) 8 in
    if is_zero divisor then 0 else to_uint32 (add_int corrected (times_int cal.dig_P7 16))
  where
    is_zero : ℤ → Bool
    is_zero (pos n) = n == 0
    is_zero (negsuc n) = false

-- The twelve words of the burst, in the order of the datasheet's table.
abbrev calibration_of : Bytes → Bmp280Calibration
calibration_of raw =
    let word = λ (i : ℕ). le16s (byte_at raw i) (byte_at raw (i + 1)) in
    record {
      dig_T1 = le16 (byte_at raw 0) (byte_at raw 1);
      dig_T2 = word 2;
      dig_T3 = word 4;
      dig_P1 = le16 (byte_at raw 6) (byte_at raw 7);
      dig_P2 = word 8;
      dig_P3 = word 10;
      dig_P4 = word 12;
      dig_P5 = word 14;
      dig_P6 = word 16;
      dig_P7 = word 18;
      dig_P8 = word 20;
      dig_P9 = word 22;
    }

-- The reset value of a data field.
abbrev skipped_measurement : ℕ
skipped_measurement = 0x80000

-- Sleep, the filter, and normal mode.
abbrev normal_mode : List (ℕ × ℕ)
normal_mode = (0xf4, 0x00) ∷ (0xf5, 0x00) ∷ (0xf4, 0x2f) ∷ []

abbrev is_chip : ℕ → Bool
is_chip id = id == 0x58 || id == 0x60

module _ {ℓ} {B : Type ℓ} (bus : I2cBus B) where
  -- The calibration and the settings, once the chip has answered with its identity.
  unfoldable pub configure : ℕ → Bmp280 → B → Bool × Bmp280 × B
  configure id s b =
      let (got, b') = bus.read_registers b s.address 0x88 24 in
      elim got [
        | none ↦ (false, s, b')
        | some raw ↦
            let calibrated = record s { calibration = calibration_of raw } in
            let (ok, b'') = write_each bus s.address normal_mode b' in
            if ok
            then (true, record calibrated { chip_id = id; initialized = true }, b'')
            else (false, calibrated, b'')
      ]

  unfoldable pub init : Bmp280 → B → Bool × Bmp280 × B
  init s b =
      let stopped = record s { initialized = false; chip_id = 0 } in
      let (got, b') = bus.read_registers b s.address 0xd0 1 in
      elim got [
        | none ↦ (false, stopped, b')
        | some answer ↦
            let id = byte_at answer 0 in
            if is_chip id then configure id stopped b' else (false, stopped, b')
      ]

  module _ (ops : ScaleOps) where
    -- 100.0f and 25600.0f.
    unfoldable pub compensated : Bmp280Calibration → ℕ → ℕ → BaroReading
    compensated cal adc_p adc_t =
        let (temperature_centi, t_fine) = compensate_temperature cal adc_t in
        record {
          temperature_c = ops.div (ops.of_int temperature_centi) 0x42c8_0000;
          pressure_hpa = ops.div (of_uint (compensate_pressure cal adc_p t_fine)) 0x46c8_0000;
        }

    abbrev reading_of : Bmp280Calibration → Bytes → Option BaroReading
    reading_of cal raw =
        let adc_p = raw20 (byte_at raw 0) (byte_at raw 1) (byte_at raw 2) in
        let adc_t = raw20 (byte_at raw 3) (byte_at raw 4) (byte_at raw 5) in
        if adc_p == skipped_measurement || adc_t == skipped_measurement
        then none
        else some (compensated cal adc_p adc_t)

    unfoldable pub read : Bmp280 → B → Option BaroReading × B
    read s b =
        let (got, b') = bus.read_registers b s.address 0xf7 6 in
        if not s.initialized
        then (none, b)
        else elim got [ none ↦ (none, b') | some raw ↦ (reading_of s.calibration raw, b') ]
