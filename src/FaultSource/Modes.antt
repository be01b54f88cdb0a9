-- ===== src/FaultSource/Modes.antt =====
-- The setters of the modes, of `src/drivers/fault_injecting_source.cpp`.
use flight_telemetry.Prelude.{Bool, true, false, not, ◌&&◌, if◌then◌else◌, none, some}
use flight_telemetry.Float.{Float}
use flight_telemetry.Event.{Channel, baro, imu, gps, voter}
use flight_telemetry.FaultSource.{FaultInjectingSource, RawField, no_bias, pressure, put}

unfoldable pub fail_reads : Channel → Bool → FaultInjectingSource → FaultInjectingSource
fail_reads baro enable s = record s { fail_baro = enable }
fail_reads imu enable s = record s { fail_imu = enable }
fail_reads gps enable s = record s { fail_gps = enable }
fail_reads voter enable s = s

unfoldable pub hold_values : Channel → Bool → FaultInjectingSource → FaultInjectingSource
hold_values baro enable s = record s { hold_baro = enable }
hold_values imu enable s = record s { hold_imu = enable }
hold_values gps enable s = record s { hold_gps = enable }
hold_values voter enable s = s

unfoldable pub hold_field : RawField → Bool → FaultInjectingSource → FaultInjectingSource
hold_field field enable s =
    let hold = s.holds field in
    let starts = enable && not hold.enabled in
    record s {
      holds =
          put field
            (record hold { captured = if starts then false else hold.captured; enabled = enable })
            s.holds;
    }

unfoldable pub override_field : RawField → Float → FaultInjectingSource → FaultInjectingSource
override_field field value s = record s { overrides = put field (some value) s.overrides }

unfoldable pub clear_override : RawField → FaultInjectingSource → FaultInjectingSource
clear_override field s = record s { overrides = put field none s.overrides }

unfoldable pub override_pressure : Float → FaultInjectingSource → FaultInjectingSource
override_pressure hpa s = override_field pressure hpa s

unfoldable pub clear_pressure_override : FaultInjectingSource → FaultInjectingSource
clear_pressure_override s = clear_override pressure s

unfoldable pub bias_field : RawField → Float → Float → FaultInjectingSource → FaultInjectingSource
bias_field field offset rate_per_s s = record s {
  biases =
      put field
        (record (s.biases field) {
          enabled = true;
          started = false;
          offset = offset;
          rate_per_s = rate_per_s;
        })
        s.biases;
}

unfoldable pub clear_bias : RawField → FaultInjectingSource → FaultInjectingSource
clear_bias field s = record s { biases = put field no_bias s.biases }
