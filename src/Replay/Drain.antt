-- ===== src/Replay/Drain.antt =====
-- What `src/replay/log_replay_source.cpp` hands out, in which order, and where it stops.
use flight_telemetry.Prelude.{
  ℕ, zero, suc, ◌+◌, ◌≡◌, ◌≤◌, ◌<◌, ◌⊎◌, refl, sym, ◌∙◌, Bool, true, false, Bool-cases, inl, inr,
  Option, none, some, List, [], ◌∷◌, ◌++◌, length, arith,
}
use flight_telemetry.Frame.{TelemetryFrame}
use flight_telemetry.Log.Reader.{Content, LogReader, open_reader, frames_left, first_of, rest_of}
use flight_telemetry.Log.Frames.{next_frame_lem}
use flight_telemetry.Replay.{
  LogReplaySource, open_from, open_next_file, read_ahead, turn, look_ahead, is_some,
}

-- The frames of the files that open, one file after the other.
unfoldable pub session_frames : List Content → List TelemetryFrame
session_frames [] = []
session_frames (file ∷ rest) = frames_left (open_reader file) ++ session_frames rest

abbrev pub frames_of_reader : Option LogReader → List TelemetryFrame
frames_of_reader none = []
frames_of_reader (some r) = frames_left r

abbrev pub buffered : Option TelemetryFrame → List TelemetryFrame
buffered none = []
buffered (some f) = f ∷ []

-- What a source has still to hand out, unstripped.
unfoldable pub pending : LogReplaySource → List TelemetryFrame
pending s = buffered s.next ++ (frames_of_reader s.reader ++ session_frames s.files)

abbrev pub open_count : Option LogReader → ℕ
open_count none = 0
open_count (some r) = 1

record Opened (files rest : List Content) (reader : Option LogReader) : Type 0 where
  frames : frames_of_reader reader ++ session_frames rest ≡ session_frames files
  fewer : length rest + open_count reader ≤ length files
  none_left : is_some reader ≡ false → session_frames rest ≡ []

open_from-Opened :
    (files : List Content) → let (rest, reader) = open_from files in Opened files rest reader
unfolding open_from session_frames
open_from-Opened [] = record { frames = refl; fewer = omega arith; none_left = λ _. refl }
open_from-Opened (file ∷ rest) =
    let o = open_from-Opened rest in
    elim (Bool-cases (open_reader file).ok) [
      | inl e ↦ record {
        frames = rw e refl;
        fewer = rw e (omega arith);
        none_left = rw e (λ absurdity. cc);
      }
      | inr e ↦ record {
        frames = rw e o.frames;
        fewer = rw e (omega (arith, o.fewer));
        none_left = rw e o.none_left;
      }
    ]

abbrev pub measure : LogReplaySource → ℕ
measure s = length s.files + open_count s.reader

-- What a turn of the loop, or several, do to a source whose frames are `fs` and whose measure is `m`.
record Ahead (fs : List TelemetryFrame) (m : ℕ) (s : LogReplaySource) : Type 0 where
  keeps : pending s ≡ fs
  progress : (is_some s.next ≡ true) ⊎ ((s.exhausted ≡ true) ⊎ (measure s < m))
  ended : s.exhausted ≡ true → fs ≡ []

abbrev with_next : LogReplaySource → Option TelemetryFrame → LogReader → LogReplaySource
with_next s o r = record s { next = o; reader = elim o [ some f ↦ some r | none ↦ none ] }

with_next-Ahead :
    (s : LogReplaySource) (o : Option TelemetryFrame) (r : LogReader) (fs : List TelemetryFrame)
    → s.exhausted ≡ false
    → o ≡ first_of fs
    → frames_left r ≡ rest_of fs
    → Ahead (fs ++ session_frames s.files) (length s.files + 1) (with_next s o r)
unfolding pending
with_next-Ahead s none r [] e h g = record {
  keeps = refl;
  progress = inr (inr (omega arith));
  ended = λ x. cc;
}
with_next-Ahead s (some f) r [] e h g = cc
with_next-Ahead s none r (x ∷ fs) e h g = cc
with_next-Ahead s (some f) r (x ∷ fs) e h g = record {
  keeps = cc;
  progress = inl refl;
  ended = λ x. cc;
}

read_ahead-Ahead :
    (s : LogReplaySource) (r : LogReader)
    → s.exhausted ≡ false
    → Ahead (frames_left r ++ session_frames s.files) (length s.files + 1) (read_ahead s r)
unfolding read_ahead
read_ahead-Ahead s r e =
    let n = next_frame_lem r in with_next-Ahead s _ _ (frames_left r) e n.given n.left

reader-Ahead :
    (files rest : List Content) (reader : Option LogReader) (last : TelemetryFrame) (count : ℕ)
    → Opened files rest reader
    → let s : LogReplaySource = record {
      files = rest;
      reader = reader;
      next = none;
      last = last;
      frames_read = count;
      exhausted = false;
    } in
      Ahead
        (session_frames files)
        (length files + 0)
        (elim reader [ some r ↦ read_ahead s r | none ↦ record s { exhausted = true } ])
unfolding pending
reader-Ahead files rest none last count o = record {
  keeps = o.frames;
  progress = inr (inl refl);
  ended = λ _. sym o.frames ∙ o.none_left refl;
}
reader-Ahead files rest (some r) last count o =
    let a = read_ahead-Ahead _ r refl in
    record {
      keeps = a.keeps ∙ o.frames;
      progress = elim a.progress [
        | inl p ↦ inl p
        | inr (inl p) ↦ inr (inl p)
        | inr (inr p) ↦ inr (inr (omega (arith, p, o.fewer)))
      ];
      ended = λ x. sym o.frames ∙ a.ended x;
    }

-- A turn of the loop, where it turns.
turn-Ahead :
    (files : List Content) (reader : Option LogReader) (last : TelemetryFrame) (count : ℕ)
    → let s : LogReplaySource = record {
      files = files;
      reader = reader;
      next = none;
      last = last;
      frames_read = count;
      exhausted = false;
    } in
      Ahead (pending s) (measure s) (turn s)
unfolding turn pending open_next_file
turn-Ahead files (some r) last count = read_ahead-Ahead _ r refl
turn-Ahead files none last count = reader-Ahead files _ _ last count (open_from-Opened files)

-- A source that says it is exhausted has nothing left.
unfoldable pub IsSound : LogReplaySource → Type 0
IsSound s = s.exhausted ≡ true → pending s ≡ []

-- The end of the loop: the same frames pending, and a frame in the buffer or the source exhausted.
pub record Filled (s s' : LogReplaySource) : Type 0 where
  pub keeps : pending s' ≡ pending s
  pub stopped : (is_some s'.next ≡ true) ⊎ (s'.exhausted ≡ true)
  pub sound : s'.exhausted ≡ true → pending s' ≡ []

look_ahead-stays :
    (n : ℕ) (s : LogReplaySource)
    → (is_some s.next ≡ true) ⊎ (s.exhausted ≡ true)
    → look_ahead n s ≡ s
unfolding look_ahead
look_ahead-stays zero s h = refl
look_ahead-stays (suc n) s (inl e) = simp (e)
look_ahead-stays (suc n) s (inr e) = elim (Bool-cases (is_some s.next)) [
  | inl g ↦ simp (g)
  | inr g ↦ simp (g, e)
]

pub look_ahead-Filled :
    (n : ℕ) (files : List Content) (reader : Option LogReader) (next : Option TelemetryFrame)
    (last : TelemetryFrame) (count : ℕ) (exhausted : Bool)
    → let s : LogReplaySource = record {
      files = files;
      reader = reader;
      next = next;
      last = last;
      frames_read = count;
      exhausted = exhausted;
    } in
      measure s < n → (exhausted ≡ true → pending s ≡ []) → Filled s (look_ahead n s)
unfolding look_ahead
look_ahead-Filled zero files reader next last count exhausted h w = absurd (omega (arith, h))
look_ahead-Filled (suc n) files reader (some f) last count exhausted h w = record {
  keeps = refl;
  stopped = inl refl;
  sound = w;
}
look_ahead-Filled (suc n) files reader none last count true h w = record {
  keeps = refl;
  stopped = inr refl;
  sound = w;
}
look_ahead-Filled (suc n) files reader none last count false h w =
    let s : LogReplaySource = record {
      files = files;
      reader = reader;
      next = none;
      last = last;
      frames_read = count;
      exhausted = false;
    } in
    let a = turn-Ahead files reader last count in
    let t = turn s in
    let sound : t.exhausted ≡ true → pending t ≡ [] = λ e. a.keeps ∙ a.ended e in
    let stays : (is_some t.next ≡ true) ⊎ (t.exhausted ≡ true) → Filled s (look_ahead n t) = λ stop.
      rw (look_ahead-stays n t stop) (record { keeps = a.keeps; stopped = stop; sound = sound }) in
    elim a.progress [
      | inl p ↦ stays (inl p)
      | inr (inl p) ↦ stays (inr p)
      | inr (inr p) ↦
          let f =
            look_ahead-Filled n t.files t.reader t.next t.last t.frames_read t.exhausted
              (omega (arith, p, h)) sound in
          record { keeps = f.keeps ∙ a.keeps; stopped = f.stopped; sound = f.sound }
    ]
