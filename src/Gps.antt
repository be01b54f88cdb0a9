-- ===== src/Gps.antt =====
-- `src/drivers/nmea_gps.h` and `src/drivers/nmea_gps.cpp`: sentences assembled from the bytes of a serial port,
-- and fixes from pairs of sentences. The port of `src/drivers/serial_port.h` is a record of its `read`. Counters
-- do not wrap.
pub mod Feed
pub mod Framing
pub mod Balance
pub mod Epochs
pub mod Polls
use flight_telemetry.Prelude.{
  ℕ, zero, suc, ◌+◌, ◌-◌, Bool, true, false, not, ◌&&◌, ltb, ◌==◌, if◌then◌else◌, Option, none,
  some, List, [], ◌∷◌, ◌++◌, length, ℤ, pos, ltb_int,
}
use flight_telemetry.Float.{Float, Double}
use flight_telemetry.Double.{DoubleOps}
use flight_telemetry.Bytes.{Bytes, same}
use flight_telemetry.Nmea.{
  Gga, Rmc, Formatter, gga, rmc, other, checksum_ok, fields, formatter, field_at, dollar,
}
use flight_telemetry.Nmea.Parse.{parse_gga, parse_rmc}

pub record GpsFix : Type 0 where
  pub latitude_deg : Double
  pub longitude_deg : Double
  pub altitude_m : Float
  pub ground_speed_mps : Float
  pub course_deg : Float
  pub fix_quality : ℤ
  pub satellites : ℤ
  pub utc_time : Bytes

pub record GpsCounters : Type 0 where
  pub bytes : ℕ
  pub sentences : ℕ
  pub used : ℕ
  pub bad_checksum : ℕ
  pub malformed : ℕ
  pub overlong : ℕ
  pub resyncs : ℕ
  pub incomplete_epochs : ℕ
  pub no_fix_epochs : ℕ
  pub fixes : ℕ
  pub fixes_skipped : ℕ
  pub read_errors : ℕ

abbrev pub zero_counters : GpsCounters
zero_counters = record {
  bytes = 0;
  sentences = 0;
  used = 0;
  bad_checksum = 0;
  malformed = 0;
  overlong = 0;
  resyncs = 0;
  incomplete_epochs = 0;
  no_fix_epochs = 0;
  fixes = 0;
  fixes_skipped = 0;
  read_errors = 0;
}

pub record NmeaGps : Type 0 where
  pub line : Bytes
  pub in_sentence : Bool
  pub discarding : Bool
  pub pending_gga : Option Gga
  pub pending_rmc : Option Rmc
  pub latest : Option GpsFix
  pub counters : GpsCounters

abbrev pub max_line_bytes : ℕ
max_line_bytes = 128

abbrev pub chunk_bytes : ℕ
chunk_bytes = 256

abbrev pub max_bytes_per_poll : ℕ
max_bytes_per_poll = 4096

unfoldable pub gps_init : NmeaGps
gps_init = record {
  line = [];
  in_sentence = false;
  discarding = false;
  pending_gga = none;
  pending_rmc = none;
  latest = none;
  counters = zero_counters;
}

abbrev pub is_some {ℓ} : {A : Type ℓ} → Option A → Bool
is_some none = false
is_some (some a) = true

abbrev pub fix_of : Gga → Rmc → GpsFix
fix_of g r = record {
  latitude_deg = g.latitude_deg;
  longitude_deg = g.longitude_deg;
  altitude_m = g.altitude_m;
  ground_speed_mps = r.speed_mps;
  course_deg = r.course_deg;
  fix_quality = g.fix_quality;
  satellites = g.satellites;
  utc_time = g.utc_time;
}

abbrev pub is_fix : Gga → Rmc → Bool
is_fix g r = not (ltb_int g.fix_quality (pos 1)) && r.valid

abbrev pub incomplete : Bool → GpsCounters → GpsCounters
incomplete b c = if b then record c { incomplete_epochs = c.incomplete_epochs + 1 } else c

-- `try_complete_epoch` with both halves there.
unfoldable pub complete_epoch : Gga → Rmc → NmeaGps → NmeaGps
complete_epoch g r s =
    let c = s.counters in
    let skipped =
      if is_some s.latest then record c { fixes_skipped = c.fixes_skipped + 1 } else c in
    if is_fix g r
    then record s {
      pending_gga = none;
      pending_rmc = none;
      latest = some (fix_of g r);
      counters = skipped;
    }
    else record s {
      pending_gga = none;
      pending_rmc = none;
      counters = record c { no_fix_epochs = c.no_fix_epochs + 1 };
    }

unfoldable pub try_complete_epoch : NmeaGps → NmeaGps
unfolding complete_epoch
try_complete_epoch s = elim s.pending_gga [
  | none ↦ s
  | some g ↦ elim s.pending_rmc [ none ↦ s | some r ↦ complete_epoch g r s ]
]

-- Whether a pending half is of another epoch, by the text of its time.
abbrev pub stale_rmc : Option Rmc → Gga → Bool
stale_rmc none g = false
stale_rmc (some r) g = not (same r.utc_time g.utc_time)

abbrev pub stale_gga : Option Gga → Rmc → Bool
stale_gga none r = false
stale_gga (some g) r = not (same g.utc_time r.utc_time)

-- The half put in its place, a stale other half and an unpaired half of its kind given up.
unfoldable pub put_gga : Gga → NmeaGps → NmeaGps
put_gga g s =
    let stale = stale_rmc s.pending_rmc g in
    record s {
      pending_rmc = if stale then none else s.pending_rmc;
      pending_gga = some g;
      counters = incomplete (is_some s.pending_gga) (incomplete stale s.counters);
    }

unfoldable pub take_gga : Gga → NmeaGps → NmeaGps
take_gga g s = try_complete_epoch (put_gga g s)

-- The half put in its place, a stale other half and an unpaired half of its kind given up.
unfoldable pub put_rmc : Rmc → NmeaGps → NmeaGps
put_rmc r s =
    let stale = stale_gga s.pending_gga r in
    record s {
      pending_gga = if stale then none else s.pending_gga;
      pending_rmc = some r;
      counters = incomplete (is_some s.pending_rmc) (incomplete stale s.counters);
    }

unfoldable pub take_rmc : Rmc → NmeaGps → NmeaGps
take_rmc r s = try_complete_epoch (put_rmc r s)

-- `pop_back` of a carriage return at the end.
unfoldable pub without_return : Bytes → Bytes
without_return [] = []
without_return (b ∷ []) = if b == b'\r' then [] else b ∷ []
without_return (b ∷ c ∷ rest) = b ∷ without_return (c ∷ rest)

abbrev pub malformed : NmeaGps → NmeaGps
malformed s = record s { counters = record s.counters { malformed = s.counters.malformed + 1 } }

abbrev pub used : NmeaGps → NmeaGps
used s = record s { counters = record s.counters { used = s.counters.used + 1 } }

abbrev pub resync : Bool → NmeaGps → NmeaGps
resync b s =
    if b then record s { counters = record s.counters { resyncs = s.counters.resyncs + 1 } } else s

-- `read` gives no bytes for an error, and otherwise at most as many as it is asked for.
pub record SerialPort {ℓ} (P : Type ℓ) : Type ℓ where
  pub read : P → ℕ → Option Bytes × P
