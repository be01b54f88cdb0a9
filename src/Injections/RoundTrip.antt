-- ===== src/Injections/RoundTrip.antt =====
-- What `src/replay/recorded_injections.cpp` finds in a log that `src/logging/binary_logger.cpp` wrote.
use flight_telemetry.Prelude.{
  ℕ, zero, suc, ◌≡◌, ◌≢◌, ◌≤◌, refl, sym, ap, ◌∙◌, subst, true, if◌then◌else◌, Option, none, some,
  List, [], ◌∷◌, ◌++◌, map, All, length, arith, append-nil, append_assoc,
}
use flight_telemetry.Event.{FaultEvent, Channel, voter, lane_fault_injected}
use flight_telemetry.Log.{
  LogRecord, frame, fault_event, LogFile, RunMode, make_log_header, header_problem,
}
use flight_telemetry.Log.RoundTrip.{all_records, taken, write_all-records, write_all-header}
use flight_telemetry.Log.Reader.{
  Content, LogReader, ReadError, whole, open_reader, next, next_of, read_record, over_zero,
}
use flight_telemetry.Pipeline.Logged.{content_of, log_files}
use flight_telemetry.Injector.{LaneFault, demo_lane_fault}
use flight_telemetry.Injections.Told.{
  Tells, Told, nothing, then_told, frame_record, other_channel, other_type, into_first, into_second,
  into_third,
}
use flight_telemetry.Injections.{
  Recorded, recorded, failed, unreadable, names_no_lane, scan, recorded_from, recorded_lane_faults,
  injected_event, named_lane,
}

-- The faults that the scan finds in records.
faults_of : List LogRecord → List LaneFault
faults_of [] = []
faults_of (r ∷ rs) = elim (injected_event r) [
  | none ↦ faults_of rs
  | some e ↦ elim (named_lane e.value) [
    | none ↦ faults_of rs
    | some lane ↦ demo_lane_fault lane e.timestamp_ms ∷ faults_of rs
  ]
]

-- Whether an injected event, if the record is one, names a lane.
data NamesLane (r : LogRecord) : Type 0 where
  other : injected_event r ≡ none → NamesLane r
  named :
      (e : FaultEvent) (lane : ℕ)
      → injected_event r ≡ some e
      → named_lane e.value ≡ some lane
      → NamesLane r

read_record-current : (r : LogRecord) → read_record 3 r ≡ r
unfolding read_record over_zero
read_record-current (frame f) = refl
read_record-current (fault_event e) = refl

scan-whole :
    (n : ℕ) (e : Option ReadError) (rs : List LogRecord) (found : List LaneFault)
    → suc (length rs) ≤ n
    → All NamesLane rs
    → scan n (record { header_version = 3; ok = true; error = e; rest = map whole rs }) found
      ≡ some (found ++ faults_of rs)
unfolding scan next next_of faults_of
scan-whole zero e rs found h w = absurd (omega (arith, h))
scan-whole (suc n) e [] found h w = ap some (sym (append-nil found))
scan-whole (suc n) e (r ∷ rs) found h (other q, ws) =
    let later = scan-whole n e rs found (omega (arith, h)) ws in
    rw (scan, next, next_of, read_record-current r, faults_of, q) later
scan-whole (suc n) e (r ∷ rs) found h (named v lane q g, ws) =
    let later =
      scan-whole n e rs (found ++ (demo_lane_fault lane v.timestamp_ms ∷ [])) (omega (arith, h))
        ws in
    rw (scan, next, next_of, read_record-current r, faults_of, q, g)
      (later ∙ ap some (append_assoc found _ _))

faults_of-append :
    (rs ss : List LogRecord)
    → All NamesLane rs
    → faults_of (rs ++ ss) ≡ faults_of rs ++ faults_of ss
unfolding faults_of
faults_of-append [] ss w = refl
faults_of-append (r ∷ rs) ss (other q, ws) = rw (faults_of, q) (faults_of-append rs ss ws)
faults_of-append (r ∷ rs) ss (named v lane q g, ws) =
    rw (faults_of, q, g)
      (ap (λ fs. demo_lane_fault lane v.timestamp_ms ∷ fs) (faults_of-append rs ss ws))

All-split :
    (rs ss : List LogRecord) → All NamesLane (rs ++ ss) → All NamesLane rs × All NamesLane ss
All-split [] ss w = (tt, w)
All-split (r ∷ rs) ss (w, ws) = let (left, right) = All-split rs ss ws in ((w, left), right)

length-map_whole : (rs : List LogRecord) → length (map whole rs) ≡ length rs
length-map_whole [] = refl
length-map_whole (r ∷ rs) = omega (arith, length-map_whole rs)

abbrev reader_of : LogFile → LogReader
reader_of file = record {
  header_version = 3;
  ok = true;
  error = none;
  rest = map whole file.records;
}

open_reader-logged :
    (file : LogFile) (run_mode source_mode : RunMode)
    → file.header ≡ make_log_header run_mode source_mode
    → open_reader (content_of file) ≡ reader_of file
unfolding open_reader header_problem make_log_header
open_reader-logged file run_mode source_mode e = rw e refl

file_step :
    (file : LogFile) (run_mode source_mode : RunMode) (logs : List Content) (found : List LaneFault)
    → file.header ≡ make_log_header run_mode source_mode
    → All NamesLane file.records
    → recorded_from (content_of file ∷ logs) found
      ≡ recorded_from logs (found ++ faults_of file.records)
unfolding recorded_from
file_step file run_mode source_mode logs found e w =
    let n = suc (length (map whole file.records)) in
    let s = scan-whole n none file.records found (omega (arith, length-map_whole file.records)) w in
    let answer : LogReader → Option (List LaneFault) → Recorded = λ reader o. elim o [
      | none ↦
          if reader.ok
          then failed (names_no_lane (content_of file))
          else failed (unreadable reader.error)
      | some found' ↦
          if reader.ok then recorded_from logs found' else failed (unreadable reader.error)
    ] in
    ap (λ (r : LogReader). answer r (scan (suc (length r.rest)) r found))
      (open_reader-logged file run_mode source_mode e)
    ∙ ap (answer (reader_of file)) s

recorded_from-files :
    (fs : List LogFile) (run_mode source_mode : RunMode) (found : List LaneFault)
    → All (λ (f : LogFile). f.header ≡ make_log_header run_mode source_mode) fs
    → All NamesLane (all_records fs)
    → recorded_from (map content_of fs) found ≡ recorded (found ++ faults_of (all_records fs))
unfolding recorded_from faults_of
recorded_from-files [] run_mode source_mode found h w = ap recorded (sym (append-nil found))
recorded_from-files (f ∷ fs) run_mode source_mode found (e, h) w =
    let (own, others) = All-split f.records (all_records fs) w in
    file_step f run_mode source_mode (map content_of fs) found e own
    ∙ recorded_from-files fs run_mode source_mode (found ++ faults_of f.records) h others
    ∙ ap recorded (
        append_assoc found (faults_of f.records) _
        ∙ ap (λ fs'. found ++ fs') (sym (faults_of-append f.records (all_records fs) own)))

Scanned : LogRecord → List LaneFault → Type 0
Scanned r told = NamesLane r × ((rs : List LogRecord) → faults_of (r ∷ rs) ≡ told ++ faults_of rs)

other-Scanned : (r : LogRecord) → injected_event r ≡ none → Scanned r []
unfolding faults_of Scanned
other-Scanned r q = (other q, λ rs. rw (faults_of, q) refl)

not_voter : (e : FaultEvent) → e.channel ≢ voter → injected_event (fault_event e) ≡ none
unfolding injected_event
not_voter e h =
    elim e.channel as (λ c. c ≡ e.channel → injected_event (fault_event e) ≡ none) [
      | Channel.baro ↦ λ q. rw (← q) refl
      | Channel.imu ↦ λ q. rw (← q) refl
      | Channel.gps ↦ λ q. rw (← q) refl
      | voter ↦ λ q. absurd (h (sym q))
    ]
      refl

not_injected :
    (e : FaultEvent) → e.type ≢ lane_fault_injected → injected_event (fault_event e) ≡ none
unfolding injected_event
not_injected e h = ground (arith, h)

Tells-Scanned : (r : LogRecord) (told : List LaneFault) → Tells r told → Scanned r told
unfolding Scanned faults_of injected_event named_lane demo_lane_fault
Tells-Scanned r told (frame_record f q t) = rw (q, t) (other-Scanned (frame f) refl)
Tells-Scanned r told (other_channel e q h t) = rw (q, t) (other-Scanned _ (not_voter e h))
Tells-Scanned r told (other_type e q h t) = rw (q, t) (other-Scanned _ (not_injected e h))
Tells-Scanned r told (into_first ms q t) = rw (q, t) (named _ 1 refl refl, λ rs. refl)
Tells-Scanned r told (into_second ms q t) = rw (q, t) (named _ 2 refl refl, λ rs. refl)
Tells-Scanned r told (into_third ms q t) = rw (q, t) (named _ 3 refl refl, λ rs. refl)

Told-scanned :
    (rs : List LogRecord) (found : List LaneFault)
    → Told rs found
    → All NamesLane rs × (faults_of rs ≡ found)
unfolding Scanned faults_of
Told-scanned [] _ nothing = (tt, refl)
Told-scanned (r ∷ rs) _ (then_told {told = told} {found = found} t ts) =
    let (names, step) = Tells-Scanned r told t in
    let (all_name, rest) = Told-scanned rs found ts in
    ((names, all_name), step rs ∙ ap (λ fs. told ++ fs) rest)

-- From the files of a log written without a failure come the faults that its records tell, in the order
-- logged, if every event of a lane fault injected tells one: into lane 1, 2 or 3 at its time by the value
-- 1.0, 2.0 or 3.0. Frames, events of other channels and events of other types tell none.
pub recorded_lane_faults-logged :
    (max_file_bytes : ℕ) (run_mode source_mode : RunMode) (rs : List LogRecord)
    (found : List LaneFault)
    → Told rs found
    → recorded_lane_faults (log_files max_file_bytes run_mode source_mode rs) ≡ recorded found
unfolding recorded_lane_faults
recorded_lane_faults-logged max_file_bytes run_mode source_mode rs found t =
    let header = make_log_header run_mode source_mode in
    let back = write_all-records max_file_bytes header rs in
    let (names, told) = Told-scanned rs found t in
    recorded_from-files _ run_mode source_mode []
      (write_all-header max_file_bytes header true (map taken rs))
      (subst (All NamesLane) (sym back) names)
    ∙ ap (λ rs'. recorded (faults_of rs')) back
    ∙ ap recorded told
