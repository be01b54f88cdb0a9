-- ===== src/Log.antt =====
-- `src/logging/log_format.h`, `src/logging/log_format.cpp`, `src/logging/binary_logger.cpp` and
-- `src/run_mode.h`: the log's header and the logger that writes records into rotated files. A file is its
-- header and its records; what a stream answers (`out_.good()`) is an argument. The records' bytes and the
-- names of the files are not modelled, only their sizes and order. A record whose write fails is not counted
-- as in the file, and the logger writes nothing after it.
pub mod Header
pub mod Rotation
pub mod RoundTrip
pub mod Reader
pub mod Frames
use flight_telemetry.Prelude.{
  ℕ, ◌+◌, Bool, true, false, not, ◌&&◌, ◌||◌, ltb, ◌==◌, if◌then◌else◌, Option, none, some, List,
  [], ◌∷◌, ◌++◌,
}
use flight_telemetry.Frame.{TelemetryFrame}
use flight_telemetry.Event.{FaultEvent}

pub data RunMode : Type 0 where
  unknown live simulated replay adsb : RunMode

abbrev pub mode_byte : RunMode → ℕ
mode_byte unknown = 0
mode_byte live = 1
mode_byte simulated = 2
mode_byte replay = 3
mode_byte adsb = 4

-- `sizeof(LogFileHeader)`, `sizeof(TelemetryFrame)` and `sizeof(FaultEvent)`, as the assertions pin them.
abbrev pub header_bytes : ℕ
header_bytes = 16

abbrev pub frame_bytes : ℕ
frame_bytes = 120

abbrev pub event_bytes : ℕ
event_bytes = 16

abbrev pub log_format_version : ℕ
log_format_version = 3

abbrev pub endian_marker_value : ℕ
endian_marker_value = 0x0102_0304

abbrev pub frame_size_for : ℕ → ℕ
frame_size_for version =
    if version == 1 || version == 2
    then 104
    else if version == log_format_version
    then frame_bytes
    else 0

-- `magic` is the number of the four bytes, the first one highest: "FTLG".
abbrev pub magic_value : ℕ
magic_value = 0x4654_4C47

pub record LogFileHeader : Type 0 where
  pub magic : ℕ
  pub version : ℕ
  pub frame_size : ℕ
  pub event_size : ℕ
  pub run_mode : ℕ
  pub source_mode : ℕ
  pub endian_marker : ℕ

unfoldable pub make_log_header : RunMode → RunMode → LogFileHeader
make_log_header run_mode source_mode = record {
  magic = magic_value;
  version = log_format_version;
  frame_size = frame_bytes;
  event_size = event_bytes;
  run_mode = mode_byte run_mode;
  source_mode = mode_byte source_mode;
  endian_marker = endian_marker_value;
}

-- The messages of `header_problem`, by what they say.
pub data HeaderProblem : Type 0 where
  bad_magic format_version frame_size event_size byte_order : HeaderProblem

unfoldable pub header_problem : LogFileHeader → Option HeaderProblem
header_problem h =
    if not (h.magic == magic_value)
    then some bad_magic
    else if ltb h.version 1 || ltb log_format_version h.version
    then some format_version
    else if not (h.frame_size == frame_size_for h.version)
    then some frame_size
    else if not (h.event_size == event_bytes)
    then some event_size
    else if not (h.endian_marker == endian_marker_value)
    then some byte_order
    else none

unfoldable pub header_is_valid : LogFileHeader → Bool
unfolding header_problem
header_is_valid h = elim (header_problem h) [ none ↦ true | some p ↦ false ]

pub data LogRecord : Type 0 where
  frame : TelemetryFrame → LogRecord
  fault_event : FaultEvent → LogRecord

-- `1 + size` in `write_record`: the tag and the record.
abbrev pub record_bytes : LogRecord → ℕ
record_bytes (frame f) = 1 + frame_bytes
record_bytes (fault_event e) = 1 + event_bytes

pub record LogFile : Type 0 where
  pub header : LogFileHeader
  pub records : List LogRecord

-- The closed files in the order written, and the open one. `index` counts the files opened, `file_index_ + 1`.
pub record BinaryLogger : Type 0 where
  pub max_file_bytes : ℕ
  pub header : LogFileHeader
  pub bytes_written : ℕ
  pub file_has_record : Bool
  pub index : ℕ
  pub ok : Bool
  pub closed : List LogFile
  pub current : LogFile

-- If the new file does not open, `current` stands for a file that is not there, and `ok` is false for good.
unfoldable pub open_next_file : Bool → BinaryLogger → BinaryLogger
open_next_file good s = record s {
  index = s.index + 1;
  closed = s.closed ++ (s.current ∷ []);
  current = record { header = s.header; records = [] };
  ok = good;
  bytes_written = if good then header_bytes else 0;
  file_has_record = false;
}

unfoldable pub minimum : ℕ
minimum = header_bytes + 1 + frame_bytes

-- The constructor, the first file opened; no file is closed by it.
unfoldable pub logger_init : ℕ → LogFileHeader → Bool → BinaryLogger
unfolding minimum
logger_init max_file_bytes header good = record {
  max_file_bytes = if ltb max_file_bytes minimum then minimum else max_file_bytes;
  header = header;
  bytes_written = if good then header_bytes else 0;
  file_has_record = false;
  index = 1;
  ok = good;
  closed = [];
  current = record { header = header; records = [] };
}

abbrev pub append_record : LogFile → LogRecord → LogFile
append_record file r = record file { records = file.records ++ (r ∷ []) }

-- The write itself; `good` is `out_.good()` after it.
unfoldable pub put_record : Bool → LogRecord → BinaryLogger → BinaryLogger
put_record good r s = record s {
  current = if good then append_record s.current r else s.current;
  bytes_written = s.bytes_written + record_bytes r;
  file_has_record = true;
  ok = good;
}

abbrev pub overflows : LogRecord → BinaryLogger → Bool
overflows r s = s.file_has_record && ltb s.max_file_bytes (s.bytes_written + record_bytes r)

-- `opened` is what the stream answers after a rotation, `written` after the write.
unfoldable pub write_record : Bool → Bool → LogRecord → BinaryLogger → BinaryLogger
unfolding open_next_file put_record
write_record opened written r s =
    let rotated = open_next_file opened s in
    if not s.ok
    then s
    else if overflows r s
    then (if opened then put_record written r rotated else rotated)
    else put_record written r s

-- A run of `log_frame` and `log_event` calls, each with the stream's answers.
unfoldable pub write_all : List (LogRecord × Bool × Bool) → BinaryLogger → BinaryLogger
write_all [] s = s
write_all ((r, opened, written) ∷ rest) s = write_all rest (write_record opened written r s)

abbrev pub files : BinaryLogger → List LogFile
files s = s.closed ++ (s.current ∷ [])
