-- ===== src/Examples/Sensors.antt =====
-- Runs of `src/drivers/fault_injecting_source.cpp`, `src/drivers/mpu6050.cpp` and
-- `src/drivers/bmp280.cpp`.
use flight_telemetry.Prelude.{pos, negsuc, some, ◌↔◌, ◌≡◌, refl, true}
use flight_telemetry.FaultSource.{FaultInjectingSource, source_init}
use flight_telemetry.FaultSource.Judged.{reading}
use flight_telemetry.Bmp280.{Bmp280Calibration, compensate_temperature, compensate_pressure}
use flight_telemetry.Mpu6050.{sample_rate_divider}
use flight_telemetry.Mpu6050.Rates.{Divides, sample_rate_divider_iff}
use flight_telemetry.Examples.Data as Data

-- The barometer fails after a good frame.
abbrev failing : FaultInjectingSource
failing = record source_init {
  last_good = Data.reading 100;
  have_last_good = true;
  fail_baro = true;
}

-- 100 Hz is 1 kHz over ten.
sample_rate_divider_iff_example : (sample_rate_divider (pos 100) ≡ some 9) ↔ Divides 100 9
sample_rate_divider_iff_example = sample_rate_divider_iff 100 9

-- The datasheet's worked example: 25.08 degrees and 100653.25 Pa.
abbrev datasheet : Bmp280Calibration
datasheet = record {
  dig_T1 = 27504;
  dig_T2 = pos 26435;
  dig_T3 = negsuc 999;
  dig_P1 = 36477;
  dig_P2 = negsuc 10684;
  dig_P3 = pos 3024;
  dig_P4 = pos 2855;
  dig_P5 = pos 140;
  dig_P6 = negsuc 6;
  dig_P7 = pos 15500;
  dig_P8 = negsuc 14599;
  dig_P9 = pos 6000;
}

worked_temperature : compensate_temperature datasheet 519888 ≡ (pos 2508, pos 128422)
unfolding compensate_temperature
worked_temperature = refl

worked_pressure : compensate_pressure datasheet 415148 (pos 128422) ≡ 25767233
unfolding compensate_pressure
worked_pressure = refl
