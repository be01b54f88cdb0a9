-- ===== src/Replay.antt =====
-- `src/replay/log_replay_source.cpp` and `src/replay/log_replay_source.h`: the source that hands out a
-- log's frames as raw ones.
pub mod Drain
pub mod Session
pub mod Raw
use flight_telemetry.Prelude.{
  ℕ, zero, suc, ◌+◌, Bool, true, false, if◌then◌else◌, ◌||◌, Option, none, some, List, [], ◌∷◌,
  length,
}
use flight_telemetry.Frame.{
  TelemetryFrame, zero_frame, ChannelStatus, nominal, not_available, status_eq, not_judged,
}
use flight_telemetry.Log.Reader.{Content, LogReader, open_reader, next_frame}

abbrev pub asserted : ChannelStatus → ChannelStatus
asserted status = if status_eq status not_available then not_available else nominal

unfoldable pub strip_to_raw : TelemetryFrame → TelemetryFrame
strip_to_raw f = record f {
  baro_altitude_m = 0;
  pitch_deg = 0;
  roll_deg = 0;
  fused_altitude_m = 0;
  vertical_speed_mps = 0;
  baro_status = asserted f.baro_status;
  imu_status = asserted f.imu_status;
  gps_status = asserted f.gps_status;
  baro_altitude_validity = not_judged;
  pitch_validity = not_judged;
  roll_validity = not_judged;
  fused_altitude_validity = not_judged;
  vertical_speed_validity = not_judged;
  voter_status = 0;
  reserved_d = 0;
}

-- `files` is what `files_` holds from `next_file_` on.
pub record LogReplaySource : Type 0 where
  pub files : List Content
  pub reader : Option LogReader
  pub next : Option TelemetryFrame
  pub last : TelemetryFrame
  pub frames_read : ℕ
  pub exhausted : Bool

unfoldable pub replay_init : List Content → LogReplaySource
replay_init files = record {
  files = files;
  reader = none;
  next = none;
  last = zero_frame;
  frames_read = 0;
  exhausted = false;
}

-- The loop of `open_next_file` over the files left: the files after the one opened, and its reader.
unfoldable pub open_from : List Content → List Content × Option LogReader
open_from [] = ([], none)
open_from (file ∷ rest) =
    let r = open_reader file in let later = open_from rest in if r.ok then (rest, some r) else later

abbrev pub is_some {ℓ} : {A : Type ℓ} → Option A → Bool
is_some none = false
is_some (some x) = true

unfoldable pub open_next_file : LogReplaySource → Bool × LogReplaySource
open_next_file s =
    let (files, reader) = open_from s.files in
    (is_some reader, record s { files = files; reader = reader })

-- The end of a turn of the loop in `has_next`, which reads from the open file.
unfoldable pub read_ahead : LogReplaySource → LogReader → LogReplaySource
read_ahead s r =
    let (o, r') = next_frame r in
    record s { next = o; reader = elim o [ some f ↦ some r' | none ↦ none ] }

-- One turn, when nothing is buffered and the source is not exhausted.
unfoldable pub turn : LogReplaySource → LogReplaySource
turn s = elim s.reader [
  | some r ↦ read_ahead s r
  | none ↦
      let (opened, s') = open_next_file s in
      elim s'.reader [ some r ↦ read_ahead s' r | none ↦ record s' { exhausted = true } ]
]

unfoldable pub look_ahead : ℕ → LogReplaySource → LogReplaySource
look_ahead zero s = s
look_ahead (suc n) s =
    let later = look_ahead n (turn s) in if is_some s.next || s.exhausted then s else later

-- Each turn reads a frame, closes a file or ends the loop: a turn for each file left, one for the open
-- one and one to find that none is left.
unfoldable pub has_next : LogReplaySource → Bool × LogReplaySource
has_next s = let s' = look_ahead (length s.files + 2) s in (is_some s'.next, s')

-- What `read_frame` does with the answer.
unfoldable pub hand_out : LogReplaySource → TelemetryFrame × LogReplaySource
hand_out s = elim s.next [
  | some f ↦
      let raw = strip_to_raw f in
      (raw, record s { last = raw; next = none; frames_read = s.frames_read + 1 })
  | none ↦ (s.last, s)
]

unfoldable pub read_frame : LogReplaySource → TelemetryFrame × LogReplaySource
unfolding hand_out
read_frame s = let (_, s') = has_next s in hand_out s'
