-- ===== src/FaultSource/Judged.antt =====
-- What the channel modes of `src/drivers/fault_injecting_source.cpp` make of each channel's reading.
use flight_telemetry.Prelude.{
  ℕ, ◌≡◌, refl, ◌∙◌, Bool, true, false, ◌||◌, ◌==◌, List, [], ◌∷◌, if◌then◌else◌,
}
use flight_telemetry.Float.{Float}
use flight_telemetry.Frame.{TelemetryFrame}
use flight_telemetry.Event.{Channel, baro, imu, gps, voter}
use flight_telemetry.FaultSource.{FaultInjectingSource, copy_channel, apply_channel, apply_channels}

-- What a channel reads, the presence bits of the flags left out.
abbrev pub reading : Channel → TelemetryFrame → List Float
reading baro f = f.pressure_hpa ∷ f.temperature_c ∷ []
reading imu f = f.accel_x ∷ f.accel_y ∷ f.accel_z ∷ f.gyro_x ∷ f.gyro_y ∷ f.gyro_z ∷ []
reading gps f =
    f.latitude ∷ f.longitude ∷ f.gps_altitude_m ∷ f.ground_speed_mps ∷ f.course_deg
    ∷ f.gps_vertical_rate_mps ∷ f.gps_pressure_altitude_m ∷ f.gps_fix_quality ∷ f.gps_satellites
    ∷ []
reading voter f = []

abbrev pub read_ok : Channel → TelemetryFrame → Bool
read_ok baro f = f.baro_read_ok
read_ok imu f = f.imu_read_ok
read_ok gps f = f.gps_read_ok
read_ok voter f = false

abbrev pub fails : Channel → FaultInjectingSource → Bool
fails baro s = s.fail_baro
fails imu s = s.fail_imu
fails gps s = s.fail_gps
fails voter s = false

abbrev pub holds_values : Channel → FaultInjectingSource → Bool
holds_values baro s = s.hold_baro
holds_values imu s = s.hold_imu
holds_values gps s = s.hold_gps
holds_values voter s = false

abbrev channel_place : Channel → ℕ
channel_place baro = 0
channel_place imu = 1
channel_place gps = 2
channel_place voter = 3

-- Whether a channel's reading and flag in two frames are those of two others.
abbrev Kept : Channel → TelemetryFrame × TelemetryFrame → TelemetryFrame × TelemetryFrame → Type 0
Kept c (f, g) (f', g') =
    (reading c f' ≡ reading c f) × (read_ok c f' ≡ read_ok c f) × (reading c g' ≡ reading c g)

apply_channel-other :
    (c d : Channel) (fail hold : Bool) (r : TelemetryFrame × TelemetryFrame)
    → (channel_place c == channel_place d) ≡ false
    → Kept c r (apply_channel d fail hold r)
unfolding apply_channel copy_channel
apply_channel-other baro baro fail hold r h = absurd cc
apply_channel-other baro imu true hold r h = (refl, refl, refl)
apply_channel-other baro imu false true r h = (refl, refl, refl)
apply_channel-other baro imu false false r h = (refl, refl, refl)
apply_channel-other baro gps true hold r h = (refl, refl, refl)
apply_channel-other baro gps false true r h = (refl, refl, refl)
apply_channel-other baro gps false false r h = (refl, refl, refl)
apply_channel-other baro voter true hold r h = (refl, refl, refl)
apply_channel-other baro voter false true r h = (refl, refl, refl)
apply_channel-other baro voter false false r h = (refl, refl, refl)
apply_channel-other imu baro true hold r h = (refl, refl, refl)
apply_channel-other imu baro false true r h = (refl, refl, refl)
apply_channel-other imu baro false false r h = (refl, refl, refl)
apply_channel-other imu imu fail hold r h = absurd cc
apply_channel-other imu gps true hold r h = (refl, refl, refl)
apply_channel-other imu gps false true r h = (refl, refl, refl)
apply_channel-other imu gps false false r h = (refl, refl, refl)
apply_channel-other imu voter true hold r h = (refl, refl, refl)
apply_channel-other imu voter false true r h = (refl, refl, refl)
apply_channel-other imu voter false false r h = (refl, refl, refl)
apply_channel-other gps baro true hold r h = (refl, refl, refl)
apply_channel-other gps baro false true r h = (refl, refl, refl)
apply_channel-other gps baro false false r h = (refl, refl, refl)
apply_channel-other gps imu true hold r h = (refl, refl, refl)
apply_channel-other gps imu false true r h = (refl, refl, refl)
apply_channel-other gps imu false false r h = (refl, refl, refl)
apply_channel-other gps gps fail hold r h = absurd cc
apply_channel-other gps voter true hold r h = (refl, refl, refl)
apply_channel-other gps voter false true r h = (refl, refl, refl)
apply_channel-other gps voter false false r h = (refl, refl, refl)
apply_channel-other voter baro true hold r h = (refl, refl, refl)
apply_channel-other voter baro false true r h = (refl, refl, refl)
apply_channel-other voter baro false false r h = (refl, refl, refl)
apply_channel-other voter imu true hold r h = (refl, refl, refl)
apply_channel-other voter imu false true r h = (refl, refl, refl)
apply_channel-other voter imu false false r h = (refl, refl, refl)
apply_channel-other voter gps true hold r h = (refl, refl, refl)
apply_channel-other voter gps false true r h = (refl, refl, refl)
apply_channel-other voter gps false false r h = (refl, refl, refl)
apply_channel-other voter voter fail hold r h = absurd cc

-- What becomes of a channel's reading: the last good one if it fails or is held, else its own.
abbrev pub Judged :
    Channel
    → Bool
    → Bool
    → TelemetryFrame × TelemetryFrame
    → TelemetryFrame × TelemetryFrame
    → Type 0
Judged c fail hold (f, g) (f', g') =
    (reading c f' ≡ (if fail || hold then reading c g else reading c f))
    × (read_ok c f' ≡ (if fail then false else read_ok c f))
    × (reading c g' ≡ (if fail || hold then reading c g else reading c f))

apply_channel-own :
    (c : Channel) (fail hold : Bool) (r : TelemetryFrame × TelemetryFrame)
    → Judged c fail hold r (apply_channel c fail hold r)
unfolding apply_channel copy_channel
apply_channel-own baro true hold r = (refl, refl, refl)
apply_channel-own baro false true r = (refl, refl, refl)
apply_channel-own baro false false r = (refl, refl, refl)
apply_channel-own imu true hold r = (refl, refl, refl)
apply_channel-own imu false true r = (refl, refl, refl)
apply_channel-own imu false false r = (refl, refl, refl)
apply_channel-own gps true hold r = (refl, refl, refl)
apply_channel-own gps false true r = (refl, refl, refl)
apply_channel-own gps false false r = (refl, refl, refl)
apply_channel-own voter true hold r = (refl, refl, refl)
apply_channel-own voter false true r = (refl, refl, refl)
apply_channel-own voter false false r = (refl, refl, refl)

Judged-Kept :
    (c : Channel) (fail hold : Bool) (r r' r'' : TelemetryFrame × TelemetryFrame)
    → Judged c fail hold r r'
    → Kept c r' r''
    → Judged c fail hold r r''
Judged-Kept c fail hold r r' r'' (a, b, d) (x, y, z) = (x ∙ a, y ∙ b, z ∙ d)

Kept-Judged :
    (c : Channel) (fail hold : Bool) (r r' r'' : TelemetryFrame × TelemetryFrame)
    → Kept c r r'
    → Judged c fail hold r' r''
    → Judged c fail hold r r''
Kept-Judged c fail hold r r' r'' (x, y, z) (a, b, d) = (
  a ∙ (λ i. if fail || hold then z i else x i),
  b ∙ (λ i. if fail then false else y i),
  d ∙ (λ i. if fail || hold then z i else x i),
)

-- The last good frame that a read uses.
abbrev pub good_frame : FaultInjectingSource → TelemetryFrame → TelemetryFrame
good_frame s frame = if s.have_last_good then s.last_good else frame

pub apply_channels-Judged :
    (c : Channel) (s : FaultInjectingSource) (frame : TelemetryFrame)
    → Judged c (fails c s) (holds_values c s) (frame, good_frame s frame) (apply_channels s frame)
unfolding apply_channels
apply_channels-Judged c s frame = go c
  where
    r0 : TelemetryFrame × TelemetryFrame
    r0 = (frame, good_frame s frame)

    r1 : TelemetryFrame × TelemetryFrame
    r1 = apply_channel baro s.fail_baro s.hold_baro r0

    r2 : TelemetryFrame × TelemetryFrame
    r2 = apply_channel imu s.fail_imu s.hold_imu r1

    r3 : TelemetryFrame × TelemetryFrame
    r3 = apply_channel gps s.fail_gps s.hold_gps r2

    go : (k : Channel) → Judged k (fails k s) (holds_values k s) r0 r3
    go baro =
        Judged-Kept baro s.fail_baro s.hold_baro r0 r2 r3
          (Judged-Kept baro s.fail_baro s.hold_baro r0 r1 r2
            (apply_channel-own baro s.fail_baro s.hold_baro r0)
            (apply_channel-other baro imu s.fail_imu s.hold_imu r1 refl))
          (apply_channel-other baro gps s.fail_gps s.hold_gps r2 refl)
    go imu =
        Kept-Judged imu s.fail_imu s.hold_imu r0 r1 r3
          (apply_channel-other imu baro s.fail_baro s.hold_baro r0 refl)
          (Judged-Kept imu s.fail_imu s.hold_imu r1 r2 r3
            (apply_channel-own imu s.fail_imu s.hold_imu r1)
            (apply_channel-other imu gps s.fail_gps s.hold_gps r2 refl))
    go gps =
        Kept-Judged gps s.fail_gps s.hold_gps r0 r1 r3
          (apply_channel-other gps baro s.fail_baro s.hold_baro r0 refl)
          (Kept-Judged gps s.fail_gps s.hold_gps r1 r2 r3
            (apply_channel-other gps imu s.fail_imu s.hold_imu r1 refl)
            (apply_channel-own gps s.fail_gps s.hold_gps r2))
    go voter = (refl, refl, refl)
