-- ===== src/Altitude.antt =====
-- `src/processing/altitude.cpp`. 44330 is 0x472d2a00, 0.1903 is 0x3e42de01 and 1.0 is 0x3f800000.
use flight_telemetry.Float.{Float, FloatOps}

module _ (ops : FloatOps) where
  open ops use {sub, mul, div, pow}

  unfoldable pub pressure_to_altitude : Float → Float → Float
  pressure_to_altitude pressure_hpa sea_level_hpa =
      mul 0x472d_2a00 (sub 0x3f80_0000 (pow (div pressure_hpa sea_level_hpa) 0x3e42_de01))

  unfoldable pub altitude_to_pressure : Float → Float → Float
  altitude_to_pressure altitude_m sea_level_hpa =
      mul sea_level_hpa
        (pow (sub 0x3f80_0000 (div altitude_m 0x472d_2a00)) (div 0x3f80_0000 0x3e42_de01))
