-- ===== src/Log/Frames.antt =====
-- The loop of `LogReader::next_frame` in `src/logging/log_reader.cpp` ends and gives the frames in order.
use flight_telemetry.Prelude.{
  ℕ, zero, suc, ◌≡◌, ◌≤◌, refl, Bool, true, false, Option, List, [], ◌∷◌, length, arith,
}
use flight_telemetry.Frame.{TelemetryFrame}
use flight_telemetry.Log.{frame, fault_event}
use flight_telemetry.Log.Reader.{
  LogReader, Piece, whole, unknown_tag, torn, next, next_of, next_frame, next_frame_in, frames_in,
  frames_left, first_of, rest_of, read_record, ReadError,
}

-- On any fuel beyond the pieces that are left.
pub record NextFrame (s : LogReader) (o : Option TelemetryFrame) (s' : LogReader) : Type 0 where
  pub given : o ≡ first_of (frames_left s)
  pub left : frames_left s' ≡ rest_of (frames_left s)

next_frame_in-on :
    (n : ℕ) (version : ℕ) (e : Option ReadError) (pieces : List Piece)
    → suc (length pieces) ≤ n
    → let s : LogReader = record {
      header_version = version;
      ok = true;
      error = e;
      rest = pieces;
    } in
      let (o, s') = next_frame_in n s in NextFrame s o s'
unfolding next_frame_in next next_of frames_in read_record
next_frame_in-on zero version e pieces h = absurd (omega (arith, h))
next_frame_in-on (suc n) version e [] h = record { given = refl; left = refl }
next_frame_in-on (suc n) version e (unknown_tag ∷ rest) h = record { given = refl; left = refl }
next_frame_in-on (suc n) version e (torn ∷ rest) h = record { given = refl; left = refl }
next_frame_in-on (suc n) version e (whole (frame f) ∷ rest) h = record { given = refl; left = refl }
next_frame_in-on (suc n) version e (whole (fault_event v) ∷ rest) h =
    let later = next_frame_in-on n version e rest (omega (arith, h)) in
    record { given = later.given; left = later.left }

next_frame-fields :
    (version : ℕ) (ok : Bool) (e : Option ReadError) (pieces : List Piece)
    → let s : LogReader = record { header_version = version; ok = ok; error = e; rest = pieces } in
      let (o, s') = next_frame s in NextFrame s o s'
unfolding next_frame next_frame_in next
next_frame-fields version true e pieces =
    next_frame_in-on (suc (length pieces)) version e pieces (omega arith)
next_frame-fields version false e pieces = record { given = refl; left = refl }

-- The fuel of `next_frame` is enough: it gives the first of the frames left, if there is one, and leaves
-- the others.
pub next_frame_lem : (s : LogReader) → let (o, s') = next_frame s in NextFrame s o s'
next_frame_lem s = next_frame-fields s.header_version s.ok s.error s.rest
