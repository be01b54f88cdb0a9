-- ===== src/Mpu6050.antt =====
-- `src/drivers/mpu6050.h` and `src/drivers/mpu6050.cpp`: the driver of the IMU. The bus of `src/drivers/i2c_bus.h` is a
-- record of its transactions; the texts of the errors are left out.
pub mod Rates
use flight_telemetry.Prelude.{
  ℕ, ◌+◌, ◌-◌, ◌*◌, ◌/◌, ◌%◌, Bool, true, false, not, ◌||◌, ltb, ◌==◌, if◌then◌else◌, Option, none,
  some, List, [], ◌∷◌, ℤ, pos, negsuc, ltb_int, negated,
}
use flight_telemetry.Float.{Float}
use flight_telemetry.Bytes.{Bytes}

-- `read_registers` gives no bytes for a failed transaction, and `write_register` whether it succeeded.
pub record I2cBus {ℓ} (B : Type ℓ) : Type ℓ where
  pub read_registers : B → ℕ → ℕ → ℕ → Option Bytes × B
  pub write_register : B → ℕ → ℕ → ℕ → Bool × B

-- `static_cast<float>` of an `int`, and the two operations of the scaling.
pub record ScaleOps : Type 0 where
  pub of_int : ℤ → Float
  pub div : Float → Float → Float
  pub mul : Float → Float → Float

pub record ImuReading : Type 0 where
  pub accel_x : Float
  pub accel_y : Float
  pub accel_z : Float
  pub gyro_x : Float
  pub gyro_y : Float
  pub gyro_z : Float

pub record Mpu6050 : Type 0 where
  pub address : ℕ
  pub sample_rate_hz : ℤ
  pub initialized : Bool

-- The register of the burst's i-th byte; the bus fills the buffer.
abbrev pub byte_at : Bytes → ℕ → ℕ
byte_at [] i = 0
byte_at (b ∷ bs) i = let later = byte_at bs (i - 1) in if i == 0 then b else later

-- The word as two's complement of 16 bits.
unfoldable pub be16 : ℕ → ℕ → ℤ
be16 hi lo =
    let word = hi * 256 + lo in if ltb word 0x8000 then pos word else negsuc (0xffff - word)

abbrev base_rate_hz : ℕ
base_rate_hz = 1000

abbrev min_rate_hz : ℕ
min_rate_hz = 4

unfoldable pub sample_rate_divider : ℤ → Option ℕ
sample_rate_divider (negsuc n) = none
sample_rate_divider (pos rate) =
    if ltb rate min_rate_hz || ltb base_rate_hz rate || not (base_rate_hz % rate == 0)
    then none
    else some ((base_rate_hz / rate - 1) % 256)

-- The sensitivities and the gravity of the header: 16384.0f, 131.0f and 9.81f.
abbrev accel_lsb_per_g : Float
accel_lsb_per_g = 0x4680_0000

abbrev gyro_lsb_per_dps : Float
gyro_lsb_per_dps = 0x4303_0000

abbrev gravity_mps2 : Float
gravity_mps2 = 0x411c_f5c3

module _ {ℓ} {B : Type ℓ} (bus : I2cBus B) where
  -- The writes of the configuration, up to the first that fails.
  unfoldable pub write_each : ℕ → List (ℕ × ℕ) → B → Bool × B
  write_each address [] b = (true, b)
  write_each address ((reg, value) ∷ rest) b =
      let (ok, b') = bus.write_register b address reg value in
      let (all_ok, b'') = write_each address rest b' in if ok then (all_ok, b'') else (false, b')

  -- Power management, divider, filter and the two ranges.
  abbrev pub configuration : ℕ → List (ℕ × ℕ)
  configuration divider =
      (0x6b, 0x01) ∷ (0x19, divider) ∷ (0x1a, 0x04) ∷ (0x1b, 0x00) ∷ (0x1c, 0x00) ∷ []

  abbrev is_who_am_i : Bytes → Bool
  is_who_am_i (id ∷ []) = id == 0x68
  is_who_am_i _ = false

  unfoldable pub init : Mpu6050 → B → Bool × Mpu6050 × B
  init s b =
      let stopped = record s { initialized = false } in
      let (got, b') = bus.read_registers b s.address 0x75 1 in
      elim (sample_rate_divider s.sample_rate_hz) [
        | none ↦ (false, stopped, b)
        | some divider ↦ elim got [
          | none ↦ (false, stopped, b')
          | some id ↦
              let (ok, b'') = write_each s.address (configuration divider) b' in
              if not (is_who_am_i id)
              then (false, stopped, b')
              else if ok
              then (true, record s { initialized = true }, b'')
              else (false, stopped, b'')
        ]
      ]

  module _ (ops : ScaleOps) where
    abbrev acceleration : Bytes → ℕ → Float
    acceleration raw i =
        ops.mul (ops.div (ops.of_int (be16 (byte_at raw i) (byte_at raw (i + 1)))) accel_lsb_per_g)
          gravity_mps2

    abbrev rate : ℤ → Float
    rate count = ops.div (ops.of_int count) gyro_lsb_per_dps

    -- The burst as a reading: a nose-up rotation is a negative rate about the chip's y.
    unfoldable pub reading_of : Bytes → ImuReading
    reading_of raw = record {
      accel_x = acceleration raw 0;
      accel_y = acceleration raw 2;
      accel_z = acceleration raw 4;
      gyro_x = rate (be16 (byte_at raw 8) (byte_at raw 9));
      gyro_y = rate (negated (be16 (byte_at raw 10) (byte_at raw 11)));
      gyro_z = rate (be16 (byte_at raw 12) (byte_at raw 13));
    }

    unfoldable pub read : Mpu6050 → B → Option ImuReading × B
    read s b =
        let (got, b') = bus.read_registers b s.address 0x3b 14 in
        if not s.initialized
        then (none, b)
        else elim got [ none ↦ (none, b') | some raw ↦ (some (reading_of raw), b') ]
