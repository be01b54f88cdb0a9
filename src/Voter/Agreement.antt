-- ===== src/Voter/Agreement.antt =====
-- `lanes_agree` of `src/processing/voter.cpp` against the thirteen fields that it compares.
use flight_telemetry.Prelude.{◌≡◌, Bool, true, false, ◌&&◌, ◌↔◌, arith}
use flight_telemetry.Float.{Float, is_nan}
use flight_telemetry.Frame.{TelemetryFrame, ChannelStatus, Validity, status_eq, validity_eq}
use flight_telemetry.Lanes.{floats_agree, lanes_agree}

-- What a lane's output says: the five values, their verdicts and the statuses carried along.
pub record SameVerdict (a b : TelemetryFrame) : Type 0 where
  pub baro_altitude : a.baro_altitude_m ≡ b.baro_altitude_m
  pub pitch : a.pitch_deg ≡ b.pitch_deg
  pub roll : a.roll_deg ≡ b.roll_deg
  pub fused_altitude : a.fused_altitude_m ≡ b.fused_altitude_m
  pub vertical_speed : a.vertical_speed_mps ≡ b.vertical_speed_mps
  pub baro_altitude_valid : a.baro_altitude_validity ≡ b.baro_altitude_validity
  pub pitch_valid : a.pitch_validity ≡ b.pitch_validity
  pub roll_valid : a.roll_validity ≡ b.roll_validity
  pub fused_altitude_valid : a.fused_altitude_validity ≡ b.fused_altitude_validity
  pub vertical_speed_valid : a.vertical_speed_validity ≡ b.vertical_speed_validity
  pub baro : a.baro_status ≡ b.baro_status
  pub imu : a.imu_status ≡ b.imu_status
  pub gps : a.gps_status ≡ b.gps_status

-- No computed value is a NaN.
pub record IsNumeric (a : TelemetryFrame) : Type 0 where
  pub baro_altitude : is_nan a.baro_altitude_m ≡ false
  pub pitch : is_nan a.pitch_deg ≡ false
  pub roll : is_nan a.roll_deg ≡ false
  pub fused_altitude : is_nan a.fused_altitude_m ≡ false
  pub vertical_speed : is_nan a.vertical_speed_mps ≡ false

&&_split : {a b : Bool} → a && b ≡ true → (a ≡ true) × (b ≡ true)
&&_split h = ground arith

and_intro : {a b : Bool} → a ≡ true → b ≡ true → a && b ≡ true
and_intro p q = ground arith

-- Equal bits, and not a NaN.
abbrev SameNumber : Float → Float → Type 0
SameNumber a b = (is_nan a ≡ false) × (a ≡ b)

floats_agree_iff : (a b : Float) → (floats_agree a b ≡ true) ↔ SameNumber a b
unfolding floats_agree
floats_agree_iff a b = ground arith

status_eq_iff : (a b : ChannelStatus) → (status_eq a b ≡ true) ↔ (a ≡ b)
status_eq_iff a b = ground arith

validity_eq_iff : (a b : Validity) → (validity_eq a b ≡ true) ↔ (a ≡ b)
validity_eq_iff a b = ground arith

and_iff : {P Q : Type 0} {a b : Bool} → (a ≡ true) ↔ P → (b ≡ true) ↔ Q → (a && b ≡ true) ↔ (P × Q)
and_iff p q = (λ h. (p.0 (&&_split h).0, q.0 (&&_split h).1), λ h. and_intro (p.1 h.0) (q.1 h.1))

-- The conjunction of `lanes_agree`, test by test.
abbrev Fieldwise : TelemetryFrame → TelemetryFrame → Type 0
Fieldwise a b =
    SameNumber a.baro_altitude_m b.baro_altitude_m
    × (SameNumber a.pitch_deg b.pitch_deg
        × (SameNumber a.roll_deg b.roll_deg
            × (SameNumber a.fused_altitude_m b.fused_altitude_m
                × (SameNumber a.vertical_speed_mps b.vertical_speed_mps
                    × ((a.baro_altitude_validity ≡ b.baro_altitude_validity)
                        × ((a.pitch_validity ≡ b.pitch_validity)
                            × ((a.roll_validity ≡ b.roll_validity)
                                × ((a.fused_altitude_validity ≡ b.fused_altitude_validity)
                                    × ((a.vertical_speed_validity ≡ b.vertical_speed_validity)
                                        × ((a.baro_status ≡ b.baro_status)
                                            × ((a.imu_status ≡ b.imu_status)
                                                × ((a.gps_status ≡ b.gps_status)))))))))))))

lanes_agree-Fieldwise : (a b : TelemetryFrame) → (lanes_agree a b ≡ true) ↔ Fieldwise a b
unfolding lanes_agree
lanes_agree-Fieldwise a b = and_iff (floats_agree_iff _ _) (
    and_iff (floats_agree_iff _ _) (
      and_iff (floats_agree_iff _ _) (
        and_iff (floats_agree_iff _ _) (
          and_iff (floats_agree_iff _ _) (
            and_iff (validity_eq_iff _ _) (
              and_iff (validity_eq_iff _ _) (
                and_iff (validity_eq_iff _ _) (
                  and_iff (validity_eq_iff _ _) (
                    and_iff (validity_eq_iff _ _) (
                      and_iff (status_eq_iff _ _)
                        (and_iff (status_eq_iff _ _) (status_eq_iff _ _))))))))))))

-- Two lanes agree exactly when all thirteen fields are equal and no computed value is a NaN.
pub lanes_agree_iff :
    (a b : TelemetryFrame) → (lanes_agree a b ≡ true) ↔ (SameVerdict a b × IsNumeric a)
lanes_agree_iff a b = (
  λ h.
      let (h1, (h2, (h3, (h4, (h5, (v1, (v2, (v3, (v4, (v5, (s1, (s2, s3)))))))))))) =
        (lanes_agree-Fieldwise a b).0 h in
      (
        record {
          baro_altitude = h1.1;
          pitch = h2.1;
          roll = h3.1;
          fused_altitude = h4.1;
          vertical_speed = h5.1;
          baro_altitude_valid = v1;
          pitch_valid = v2;
          roll_valid = v3;
          fused_altitude_valid = v4;
          vertical_speed_valid = v5;
          baro = s1;
          imu = s2;
          gps = s3;
        },
        record {
          baro_altitude = h1.0;
          pitch = h2.0;
          roll = h3.0;
          fused_altitude = h4.0;
          vertical_speed = h5.0;
        },
      ),
  λ (s, n). (lanes_agree-Fieldwise a b).1 (
    (n.baro_altitude, s.baro_altitude),
    (
      (n.pitch, s.pitch),
      (
        (n.roll, s.roll),
        (
          (n.fused_altitude, s.fused_altitude),
          (
            (n.vertical_speed, s.vertical_speed),
            (
              s.baro_altitude_valid,
              (
                s.pitch_valid,
                (
                  s.roll_valid,
                  (s.fused_altitude_valid, (s.vertical_speed_valid, (s.baro, (s.imu, s.gps)))),
                ),
              ),
            ),
          ),
        ),
      ),
    ),
  ),
)

SameVerdict-sym : (a b : TelemetryFrame) → SameVerdict a b → SameVerdict b a
SameVerdict-sym a b s = ground arith

SameVerdict-trans : (a b c : TelemetryFrame) → SameVerdict a b → SameVerdict b c → SameVerdict a c
SameVerdict-trans a b c s t = ground arith

pub IsNumeric-SameVerdict : (a b : TelemetryFrame) → SameVerdict a b → IsNumeric a → IsNumeric b
IsNumeric-SameVerdict a b s n = ground arith

pub lanes_agree_refl : (a : TelemetryFrame) → IsNumeric a → lanes_agree a a ≡ true
lanes_agree_refl a n = (lanes_agree_iff a a).1 (ground arith, n)

-- Agreement is symmetric and transitive: without a NaN it is equality of what the lanes say.
pub lanes_agree_sym : (a b : TelemetryFrame) → lanes_agree a b ≡ true → lanes_agree b a ≡ true
lanes_agree_sym a b h =
    let (s, n) = (lanes_agree_iff a b).0 h in
    (lanes_agree_iff b a).1 (SameVerdict-sym a b s, IsNumeric-SameVerdict a b s n)

pub lanes_agree_trans :
    (a b c : TelemetryFrame)
    → lanes_agree a b ≡ true
    → lanes_agree b c ≡ true
    → lanes_agree a c ≡ true
lanes_agree_trans a b c h k =
    let (s, n) = (lanes_agree_iff a b).0 h in
    (lanes_agree_iff a c).1 (SameVerdict-trans a b c s ((lanes_agree_iff b c).0 k).0, n)
