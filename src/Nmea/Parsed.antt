-- ===== src/Nmea/Parsed.antt =====
-- What a parsed GGA or RMC of `src/drivers/nmea.cpp` promises.
use flight_telemetry.Prelude.{ℕ, ◌≡◌, true, false, some, List, ℤ, pos, ltb_int, arith}
use flight_telemetry.Double.{DoubleOps}
use flight_telemetry.Bytes.{Bytes}
use flight_telemetry.Nmea.{Gga, Rmc, field_at}
use flight_telemetry.Nmea.Parse.{parse_gga, parse_rmc, parse_count}

-- A fix quality from 0 to 9, a satellite count from 0 to 99, and a fix only with a position.
pub record IsPlausible (g : Gga) : Type 0 where
  pub quality_low : ltb_int g.fix_quality (pos 0) ≡ false
  pub quality_high : ltb_int (pos 9) g.fix_quality ≡ false
  pub satellites_low : ltb_int g.satellites (pos 0) ≡ false
  pub satellites_high : ltb_int (pos 99) g.satellites ≡ false
  pub placed : ltb_int g.fix_quality (pos 1) ≡ false → g.has_position ≡ true

module _ (ops : DoubleOps) where
  parse_count-range :
      (text : Bytes) (max : ℕ) (v : ℤ)
      → parse_count ops text (pos 0) (pos max) ≡ some v
      → (ltb_int v (pos 0) ≡ false) × (ltb_int (pos max) v ≡ false)
  unfolding parse_count
  parse_count-range text max v e = ground arith

  counts :
      (f : List Bytes) (g : Gga)
      → parse_gga ops f ≡ some g
      → (parse_count ops (field_at f 6) (pos 0) (pos 9) ≡ some g.fix_quality)
        × (parse_count ops (field_at f 7) (pos 0) (pos 99) ≡ some g.satellites)
  unfolding parse_gga
  counts f g e = ground arith

  -- A GGA that parses is plausible.
  pub parse_gga-IsPlausible : (f : List Bytes) (g : Gga) → parse_gga ops f ≡ some g → IsPlausible g
  unfolding parse_gga
  parse_gga-IsPlausible f g e =
      let quality = parse_count-range (field_at f 6) 9 g.fix_quality in
      let satellites = parse_count-range (field_at f 7) 99 g.satellites in
      let (q, s) = counts f g e in
      record {
        quality_low = (quality q).0;
        quality_high = (quality q).1;
        satellites_low = (satellites s).0;
        satellites_high = (satellites s).1;
        placed = λ h. ground arith;
      }

  -- An RMC with status A has a position.
  pub parse_rmc-placed :
      (f : List Bytes) (r : Rmc) → parse_rmc ops f ≡ some r → r.valid ≡ true → r.has_position ≡ true
  unfolding parse_rmc
  parse_rmc-placed f r e v = ground arith
