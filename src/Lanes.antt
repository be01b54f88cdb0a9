-- ===== src/Lanes.antt =====
-- The lanes of `src/processing/voter.h` and the comparison of their outputs in
-- `src/processing/voter.cpp`: which two agree, and who represents them. The array of three is a record,
-- and its index a type of three values.
use flight_telemetry.Prelude.{ℕ, Bool, not, ◌&&◌, Option, none, some, ◌==◌, if◌then◌else◌}
use flight_telemetry.Float.{Float, is_nan, of_uint}
use flight_telemetry.Frame.{TelemetryFrame, status_eq, validity_eq, VoterStatus, voter_bit}

-- `std::array<A, kLaneCount>` and its indices.
pub record Three {ℓ} (A : Type ℓ) : Type ℓ where
  pub lane_1 : A
  pub lane_2 : A
  pub lane_3 : A

pub data Lane : Type 0 where
  first second third : Lane

abbrev pub get {ℓ} : {A : Type ℓ} → Three A → Lane → A
get a first = a.lane_1
get a second = a.lane_2
get a third = a.lane_3

abbrev pub tabulate {ℓ} : {A : Type ℓ} → (Lane → A) → Three A
tabulate f = record { lane_1 = f first; lane_2 = f second; lane_3 = f third }

-- 1 to 3 for array index 0 to 2.
abbrev pub number : Lane → ℕ
number first = 1
number second = 2
number third = 3

-- `bits` is the identity on bit patterns.
unfoldable pub floats_agree : Float → Float → Bool
floats_agree a b = not (is_nan a) && a == b

unfoldable pub lane_number : Lane → Float
lane_number k = of_uint (number k)

unfoldable pub for_this_frame : TelemetryFrame → TelemetryFrame → Bool
for_this_frame lane checked =
    lane.timestamp_ms == checked.timestamp_ms && lane.sequence == checked.sequence

abbrev pub lane_bit : Lane → ℕ
lane_bit first = voter_bit VoterStatus.lane_1_faulted
lane_bit second = voter_bit VoterStatus.lane_2_faulted
lane_bit third = voter_bit VoterStatus.lane_3_faulted

unfoldable pub lanes_agree : TelemetryFrame → TelemetryFrame → Bool
lanes_agree a b =
    floats_agree a.baro_altitude_m b.baro_altitude_m
    && (floats_agree a.pitch_deg b.pitch_deg
        && (floats_agree a.roll_deg b.roll_deg
            && (floats_agree a.fused_altitude_m b.fused_altitude_m
                && (floats_agree a.vertical_speed_mps b.vertical_speed_mps
                    && (validity_eq a.baro_altitude_validity b.baro_altitude_validity
                        && (validity_eq a.pitch_validity b.pitch_validity
                            && (validity_eq a.roll_validity b.roll_validity
                                && (validity_eq a.fused_altitude_validity b.fused_altitude_validity
                                    && (validity_eq a.vertical_speed_validity
                                          b.vertical_speed_validity
                                        && (status_eq a.baro_status b.baro_status
                                            && (status_eq a.imu_status b.imu_status
                                                && status_eq a.gps_status b.gps_status)))))))))))

abbrev pub pair_agrees : Three TelemetryFrame → Three Bool → Lane → Lane → Bool
pair_agrees lanes eligible i j =
    get eligible i && (get eligible j && lanes_agree (get lanes i) (get lanes j))

-- The pairs (1, 2), (1, 3) and (2, 3), in this order.
unfoldable pub find_representative : Three TelemetryFrame → Three Bool → Option Lane
find_representative lanes eligible =
    if pair_agrees lanes eligible first second
    then some first
    else if pair_agrees lanes eligible first third
    then some first
    else if pair_agrees lanes eligible second third
    then some second
    else none

abbrev pub copy_computed : TelemetryFrame → TelemetryFrame → TelemetryFrame
copy_computed from to = record to {
  baro_altitude_m = from.baro_altitude_m;
  pitch_deg = from.pitch_deg;
  roll_deg = from.roll_deg;
  fused_altitude_m = from.fused_altitude_m;
  vertical_speed_mps = from.vertical_speed_mps;
  baro_altitude_validity = from.baro_altitude_validity;
  pitch_validity = from.pitch_validity;
  roll_validity = from.roll_validity;
  fused_altitude_validity = from.fused_altitude_validity;
  vertical_speed_validity = from.vertical_speed_validity;
}
