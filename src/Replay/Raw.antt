-- ===== src/Replay/Raw.antt =====
-- The contract of a source in `src/data_source.h`, and `strip_to_raw` of `src/replay/log_replay_source.cpp`
-- on a frame that the pipeline has made.
use flight_telemetry.Prelude.{◌≡◌, ◌⊎◌, inl, inr, refl, sym}
use flight_telemetry.Frame.{
  TelemetryFrame, ChannelStatus, nominal, degraded, no_data, not_available, not_judged,
}
use flight_telemetry.Replay.{strip_to_raw, asserted}

abbrev pub IsAsserted : ChannelStatus → Type 0
IsAsserted status = (status ≡ nominal) ⊎ (status ≡ not_available)

-- A source leaves the computed fields, the judgments and the voter's status alone, and asserts no status
-- but NOT_AVAILABLE.
pub record IsRaw (f : TelemetryFrame) : Type 0 where
  pub baro_altitude_m : f.baro_altitude_m ≡ 0
  pub pitch_deg : f.pitch_deg ≡ 0
  pub roll_deg : f.roll_deg ≡ 0
  pub fused_altitude_m : f.fused_altitude_m ≡ 0
  pub vertical_speed_mps : f.vertical_speed_mps ≡ 0
  pub baro_status : IsAsserted f.baro_status
  pub imu_status : IsAsserted f.imu_status
  pub gps_status : IsAsserted f.gps_status
  pub baro_altitude_validity : f.baro_altitude_validity ≡ not_judged
  pub pitch_validity : f.pitch_validity ≡ not_judged
  pub roll_validity : f.roll_validity ≡ not_judged
  pub fused_altitude_validity : f.fused_altitude_validity ≡ not_judged
  pub vertical_speed_validity : f.vertical_speed_validity ≡ not_judged
  pub voter_status : f.voter_status ≡ 0
  pub reserved_d : f.reserved_d ≡ 0

asserted-IsAsserted : (status : ChannelStatus) → IsAsserted (asserted status)
asserted-IsAsserted nominal = inl refl
asserted-IsAsserted degraded = inl refl
asserted-IsAsserted no_data = inl refl
asserted-IsAsserted not_available = inr refl

pub asserted-same : (status : ChannelStatus) → IsAsserted status → asserted status ≡ status
asserted-same nominal h = refl
asserted-same degraded (inl e) = cc
asserted-same degraded (inr e) = cc
asserted-same no_data (inl e) = cc
asserted-same no_data (inr e) = cc
asserted-same not_available h = refl

-- A replayed frame keeps the contract of a source, whatever the log held.
pub strip_to_raw-IsRaw : (f : TelemetryFrame) → IsRaw (strip_to_raw f)
unfolding strip_to_raw
strip_to_raw-IsRaw f = record {
  baro_altitude_m = refl;
  pitch_deg = refl;
  roll_deg = refl;
  fused_altitude_m = refl;
  vertical_speed_mps = refl;
  baro_status = asserted-IsAsserted f.baro_status;
  imu_status = asserted-IsAsserted f.imu_status;
  gps_status = asserted-IsAsserted f.gps_status;
  baro_altitude_validity = refl;
  pitch_validity = refl;
  roll_validity = refl;
  fused_altitude_validity = refl;
  vertical_speed_validity = refl;
  voter_status = refl;
  reserved_d = refl;
}

-- Stripping changes nothing of a frame that keeps the contract of a source.
pub strip_to_raw-same : (f : TelemetryFrame) → IsRaw f → strip_to_raw f ≡ f
unfolding strip_to_raw
strip_to_raw-same f w = λ t. record f {
  baro_altitude_m = sym w.baro_altitude_m t;
  pitch_deg = sym w.pitch_deg t;
  roll_deg = sym w.roll_deg t;
  fused_altitude_m = sym w.fused_altitude_m t;
  vertical_speed_mps = sym w.vertical_speed_mps t;
  baro_status = asserted-same _ w.baro_status t;
  imu_status = asserted-same _ w.imu_status t;
  gps_status = asserted-same _ w.gps_status t;
  baro_altitude_validity = sym w.baro_altitude_validity t;
  pitch_validity = sym w.pitch_validity t;
  roll_validity = sym w.roll_validity t;
  fused_altitude_validity = sym w.fused_altitude_validity t;
  vertical_speed_validity = sym w.vertical_speed_validity t;
  voter_status = sym w.voter_status t;
  reserved_d = sym w.reserved_d t;
}
