-- ===== src/Replay/Session.antt =====
-- A whole session of `src/replay/log_replay_source.cpp`: asked before every read, it hands out every frame
-- once and stops.
use flight_telemetry.Prelude.{
  ℕ, zero, suc, ◌≡◌, ◌≤◌, ◌⊎◌, inl, inr, refl, ap, ◌∙◌, Bool, true, if◌then◌else◌, Option, none,
  some, List, [], ◌∷◌, ◌++◌, ◌+◌, map, length, arith,
}
use flight_telemetry.Frame.{TelemetryFrame}
use flight_telemetry.Log.Reader.{Content, LogReader, first_of}
use flight_telemetry.Replay.{
  LogReplaySource, replay_init, strip_to_raw, has_next, hand_out, read_frame, is_some,
}
use flight_telemetry.Replay.Drain.{
  session_frames, pending, buffered, IsSound, look_ahead-Filled, open_count,
}

open_count_le : (reader : Option LogReader) → open_count reader ≤ 1
open_count_le none = omega arith
open_count_le (some r) = omega arith

buffer_of :
    (next : Option TelemetryFrame) (xs : List TelemetryFrame)
    → (is_some next ≡ true) ⊎ (buffered next ++ xs ≡ [])
    → next ≡ first_of (buffered next ++ xs)
buffer_of (some f) xs h = refl
buffer_of none xs (inl e) = cc
buffer_of none xs (inr e) = rw e refl

-- `has_next` on a sound source: what it keeps, buffers and answers.
pub record Asked (s : LogReplaySource) (b : Bool) (s' : LogReplaySource) : Type 0 where
  pub sound : IsSound s'
  pub keeps : pending s' ≡ pending s
  pub buffer : s'.next ≡ first_of (pending s)
  pub answer : b ≡ is_some (first_of (pending s))

has_next-Asked : (s : LogReplaySource) → IsSound s → let (b, s') = has_next s in Asked s b s'
unfolding has_next IsSound pending
has_next-Asked s w =
    let s' = (has_next s).1 in
    let f =
      look_ahead-Filled (length s.files + 2) s.files s.reader s.next s.last s.frames_read
        s.exhausted (omega (arith, open_count_le s.reader)) w in
    let buffer =
      buffer_of s'.next _ (elim f.stopped [ inl e ↦ inl e | inr e ↦ inr (f.sound e) ])
      ∙ ap first_of f.keeps in
    record { sound = f.sound; keeps = f.keeps; buffer = buffer; answer = ap is_some buffer }

record Read (fs : List TelemetryFrame) (s' : LogReplaySource) : Type 0 where
  sound : IsSound s'
  keeps : pending s' ≡ fs

hand_out-Read :
    (files : List Content) (reader : Option LogReader) (next : Option TelemetryFrame)
    (last : TelemetryFrame) (count : ℕ) (exhausted : Bool) (f : TelemetryFrame)
    (fs : List TelemetryFrame)
    → let s : LogReplaySource = record {
      files = files;
      reader = reader;
      next = next;
      last = last;
      frames_read = count;
      exhausted = exhausted;
    } in
      (exhausted ≡ true → pending s ≡ [])
      → next ≡ some f
      → pending s ≡ f ∷ fs
      → let (out, s') = hand_out s in (out ≡ strip_to_raw f) × Read fs s'
unfolding hand_out IsSound pending
hand_out-Read files reader none last count exhausted f fs w g e = cc
hand_out-Read files reader (some x) last count exhausted f fs w g e =
    let same : x ≡ f = cc in (ap strip_to_raw same, record { sound = λ y. cc (w y); keeps = cc })

read_frame-Read :
    (s : LogReplaySource) (f : TelemetryFrame) (fs : List TelemetryFrame)
    → IsSound s
    → pending s ≡ f ∷ fs
    → let (out, s') = read_frame s in (out ≡ strip_to_raw f) × Read fs s'
unfolding read_frame IsSound
read_frame-Read s f fs w e =
    let a = has_next-Asked s w in
    let s1 = (has_next s).1 in
    hand_out-Read s1.files s1.reader s1.next s1.last s1.frames_read s1.exhausted f fs a.sound
      (a.buffer ∙ ap first_of e) (a.keeps ∙ e)

-- The loop that asks before every read, on fuel.
unfoldable pub drain : ℕ → LogReplaySource → List TelemetryFrame
drain zero s = []
drain (suc n) s =
    let (more, s') = has_next s in
    let (frame, s'') = read_frame s' in let rest = drain n s'' in if more then frame ∷ rest else []

drain-pending :
    (n : ℕ) (s : LogReplaySource) (fs : List TelemetryFrame)
    → IsSound s
    → pending s ≡ fs
    → length fs ≤ n
    → drain n s ≡ map strip_to_raw fs
unfolding drain
drain-pending zero s [] w e h = refl
drain-pending zero s (f ∷ fs) w e h = absurd (omega (arith, h))
drain-pending (suc n) s [] w e h = let a = has_next-Asked s w in rw (a.answer, e) refl
drain-pending (suc n) s (f ∷ fs) w e h =
    let a = has_next-Asked s w in
    let (same, r) = read_frame-Read (has_next s).1 f fs a.sound (a.keeps ∙ e) in
    let rest =
      drain-pending n (read_frame (has_next s).1).1 fs r.sound r.keeps (omega (arith, h)) in
    rw (a.answer, e, same, rest) refl

-- Asked before every read, a source over any files hands out each frame of the files that open, in order,
-- once and stripped to raw, and stops: `drain` gives no more on any larger fuel.
pub drain_session :
    (n : ℕ) (files : List Content)
    → length (session_frames files) ≤ n
    → drain n (replay_init files) ≡ map strip_to_raw (session_frames files)
unfolding replay_init IsSound pending
drain_session n files h =
    drain-pending n (replay_init files) (session_frames files) (λ x. cc) refl h
