-- ===== src/Log/Reader.antt =====
-- `src/logging/log_reader.cpp` and `src/logging/log_reader.h`. What a file holds after its header is cut
-- into the pieces that the reader finds: whole records, an unknown tag, a record that the end of the file
-- tears. Bytes are not modelled; `list_log_files` is a directory listing and not here.
use flight_telemetry.Prelude.{
  ℕ, zero, suc, Bool, true, false, ◌==◌, ◌||◌, if◌then◌else◌, Option, none, some, List, [], ◌∷◌,
  length,
}
use flight_telemetry.Frame.{TelemetryFrame, not_judged}
use flight_telemetry.Event.{FaultEvent}
use flight_telemetry.Log.{
  LogFileHeader, LogRecord, frame, fault_event, HeaderProblem, header_problem,
}

pub data Piece : Type 0 where
  whole : LogRecord → Piece
  unknown_tag torn : Piece

-- A path: nothing that opens, fewer bytes than a header, or a header and the pieces after it.
pub data Content : Type 0 where
  missing short : Content
  log : LogFileHeader → List Piece → Content

pub data ReadError : Type 0 where
  cannot_open shorter_than_header unknown_record_tag torn_record : ReadError
  header_mismatch : HeaderProblem → ReadError

-- `rest` is what the stream still has to give; the header of a file that does not open is all zero.
pub record LogReader : Type 0 where
  pub header_version : ℕ
  pub ok : Bool
  pub error : Option ReadError
  pub rest : List Piece

unfoldable pub open_reader : Content → LogReader
open_reader missing = record { header_version = 0; ok = false; error = some cannot_open; rest = [] }
open_reader short = record {
  header_version = 0;
  ok = false;
  error = some shorter_than_header;
  rest = [];
}
open_reader (log header pieces) = elim (header_problem header) [
  | some problem ↦ record {
    header_version = header.version;
    ok = false;
    error = some (header_mismatch problem);
    rest = pieces;
  }
  | none ↦ record { header_version = header.version; ok = true; error = none; rest = pieces }
]

-- The prefix rule: a record of version 1 or 2 fills the first 104 bytes of a zero frame, and its piece
-- says nothing of the tail.
unfoldable pub over_zero : ℕ → TelemetryFrame → TelemetryFrame
over_zero version f =
    if version == 1 || version == 2
    then record f {
      gps_vertical_rate_mps = 0;
      gps_pressure_altitude_m = 0;
      gps_fix_quality = 0;
      gps_satellites = 0;
      voter_status = 0;
      reserved_d = 0;
    }
    else f

-- The two arms of `sanitize_version_1`.
unfoldable pub sanitize_frame : TelemetryFrame → TelemetryFrame
sanitize_frame f = record f {
  sequence = 0;
  baro_altitude_validity = not_judged;
  pitch_validity = not_judged;
  roll_validity = not_judged;
  fused_altitude_validity = not_judged;
  vertical_speed_validity = not_judged;
  flags = 0;
}

unfoldable pub sanitize_event : FaultEvent → FaultEvent
sanitize_event e = record e { reserved = 0 }

-- What `next` hands out for a whole record of a file of this version.
unfoldable pub read_record : ℕ → LogRecord → LogRecord
read_record version (frame f) =
    let read = over_zero version f in frame (if version == 1 then sanitize_frame read else read)
read_record version (fault_event e) = fault_event (if version == 1 then sanitize_event e else e)

-- `next`: the record if it returns true. After a torn record the stream has failed and gives no more.
unfoldable pub next_of : LogReader → List Piece → Option LogRecord × LogReader
next_of s [] = (none, s)
next_of s (whole r ∷ rest) = (some (read_record s.header_version r), record s { rest = rest })
next_of s (unknown_tag ∷ rest) =
    (none, record s { ok = false; error = some unknown_record_tag; rest = rest })
next_of s (torn ∷ rest) = (none, record s { error = some torn_record; rest = [] })

unfoldable pub next : LogReader → Option LogRecord × LogReader
next s = if s.ok then next_of s s.rest else (none, s)

-- The loop of `next_frame`, on fuel; each turn that goes on has read one piece.
unfoldable pub next_frame_in : ℕ → LogReader → Option TelemetryFrame × LogReader
next_frame_in zero s = (none, s)
next_frame_in (suc n) s =
    let (o, s') = next s in
    let later = next_frame_in n s' in
    elim o [ none ↦ (none, s') | some (frame f) ↦ (some f, s') | some (fault_event e) ↦ later ]

unfoldable pub next_frame : LogReader → Option TelemetryFrame × LogReader
next_frame s = next_frame_in (suc (length s.rest)) s

-- The frames among whole records up to the first piece that is not one, as a file of a version shows them.
unfoldable pub frames_in : ℕ → List Piece → List TelemetryFrame
frames_in version [] = []
frames_in version (unknown_tag ∷ rest) = []
frames_in version (torn ∷ rest) = []
frames_in version (whole r ∷ rest) = elim (read_record version r) [
  | frame f ↦ f ∷ frames_in version rest
  | fault_event e ↦ frames_in version rest
]

-- What a reader has still to give.
abbrev pub frames_left : LogReader → List TelemetryFrame
frames_left s = if s.ok then frames_in s.header_version s.rest else []

abbrev pub first_of {ℓ} : {A : Type ℓ} → List A → Option A
first_of [] = none
first_of (x ∷ xs) = some x

abbrev pub rest_of {ℓ} : {A : Type ℓ} → List A → List A
rest_of [] = []
rest_of (x ∷ xs) = xs
