-- ===== src/Log/RoundTrip.antt =====
-- What `src/logging/binary_logger.cpp` leaves on a disk that does not fail.
use flight_telemetry.Prelude.{
  ℕ, ◌≡◌, refl, sym, ap, ◌∙◌, Bool, true, false, Bool-cases, inl, inr, List, [], ◌∷◌, ◌++◌, map,
  All, All-snoc, append-nil, append_assoc,
}
use flight_telemetry.Log.{
  LogRecord, LogFile, LogFileHeader, BinaryLogger, logger_init, write_record, write_all,
  open_next_file, put_record, files, overflows, append_record,
}

-- The records of a list of files, one file after the other.
abbrev pub all_records : List LogFile → List LogRecord
all_records [] = []
all_records (file ∷ rest) = file.records ++ all_records rest

all_records-append :
    (fs gs : List LogFile) → all_records (fs ++ gs) ≡ all_records fs ++ all_records gs
all_records-append [] gs = refl
all_records-append (f ∷ fs) gs =
    ap (λ rs. f.records ++ rs) (all_records-append fs gs) ∙ sym (append_assoc f.records _ _)

all_records-files :
    (s : BinaryLogger) → all_records (files s) ≡ all_records s.closed ++ s.current.records
all_records-files s =
    all_records-append s.closed _
    ∙ ap (λ rs. all_records s.closed ++ rs) (append-nil s.current.records)

-- A record that the disk takes, with a new file opened for it if one is needed.
abbrev pub taken : LogRecord → LogRecord × Bool × Bool
taken r = (r, true, true)

same_file :
    (r : LogRecord) (s : BinaryLogger)
    → all_records (s.closed ++ (append_record s.current r ∷ [])) ≡ all_records (files s) ++ (r ∷ [])
same_file r s =
    let before = all_records s.closed in
    all_records-append s.closed _
    ∙ ap (λ rs. before ++ rs) (append-nil (s.current.records ++ (r ∷ [])))
    ∙ sym (append_assoc before s.current.records (r ∷ []))
    ∙ ap (λ rs. rs ++ (r ∷ [])) (sym (all_records-files s))

write_record-records :
    (r : LogRecord) (s : BinaryLogger)
    → s.ok ≡ true
    → (all_records (files (write_record true true r s)) ≡ all_records (files s) ++ (r ∷ []))
      × ((write_record true true r s).ok ≡ true)
unfolding write_record put_record open_next_file
write_record-records r s e = elim (Bool-cases (overflows r s)) [
  | inl o ↦ rw (e, o) (all_records-append (files s) _, refl)
  | inr o ↦ rw (e, o) (same_file r s, refl)
]

write_all-from :
    (rs : List LogRecord) (s : BinaryLogger)
    → s.ok ≡ true
    → all_records (files (write_all (map taken rs) s)) ≡ all_records (files s) ++ rs
unfolding write_all
write_all-from [] s e = sym (append-nil _)
write_all-from (r ∷ rs) s e =
    let (records, ok) = write_record-records r s e in
    write_all-from rs (write_record true true r s) ok
    ∙ ap (λ before. before ++ rs) records
    ∙ append_assoc (all_records (files s)) (r ∷ []) rs

-- On a disk that takes every record, the files of a log, read in order, hold exactly the records logged,
-- each once and in the order logged, wherever the rotation cut.
pub write_all-records :
    (max_file_bytes : ℕ) (header : LogFileHeader) (rs : List LogRecord)
    → all_records (files (write_all (map taken rs) (logger_init max_file_bytes header true))) ≡ rs
unfolding logger_init
write_all-records max_file_bytes header rs =
    write_all-from rs (logger_init max_file_bytes header true) refl

-- The header of every file, closed or open.
record Headed (header : LogFileHeader) (s : BinaryLogger) : Type 0 where
  given : s.header ≡ header
  closed : All (λ (f : LogFile). f.header ≡ header) s.closed
  current : s.current.header ≡ header

put_record-Headed :
    (header : LogFileHeader) (good : Bool) (r : LogRecord) (s : BinaryLogger)
    → Headed header s
    → Headed header (put_record good r s)
unfolding put_record
put_record-Headed header good r s h = record {
  given = h.given;
  closed = h.closed;
  current = elim (Bool-cases good) [ inl e ↦ rw e h.current | inr e ↦ rw e h.current ];
}

open_next_file-Headed :
    (header : LogFileHeader) (good : Bool) (s : BinaryLogger)
    → Headed header s
    → Headed header (open_next_file good s)
unfolding open_next_file
open_next_file-Headed header good s h = record {
  given = h.given;
  closed = All-snoc _ s.closed s.current h.closed h.current;
  current = h.given;
}

write_record-Headed :
    (header : LogFileHeader) (opened written : Bool) (r : LogRecord) (s : BinaryLogger)
    → Headed header s
    → Headed header (write_record opened written r s)
unfolding write_record
write_record-Headed header opened written r s h =
    let rotated = open_next_file-Headed header opened s h in
    elim (Bool-cases s.ok) [
      | inr e ↦ simp (e) h
      | inl e ↦ elim (Bool-cases (overflows r s)) [
        | inl o ↦ elim (Bool-cases opened) [
          | inl g ↦
              simp (e, o, g)
                (put_record-Headed header written r (open_next_file true s)
                  (open_next_file-Headed header true s h))
          | inr g ↦ simp (e, o, g) (open_next_file-Headed header false s h)
        ]
        | inr o ↦ simp (e, o) (put_record-Headed header written r s h)
      ]
    ]

write_all-Headed :
    (header : LogFileHeader) (run : List (LogRecord × Bool × Bool)) (s : BinaryLogger)
    → Headed header s
    → Headed header (write_all run s)
unfolding write_all
write_all-Headed header [] s h = h
write_all-Headed header ((r, opened, written) ∷ rest) s h =
    write_all-Headed header rest (write_record opened written r s)
      (write_record-Headed header opened written r s h)

-- Every file of a log has the header that the logger was given.
pub write_all-header :
    (max_file_bytes : ℕ) (header : LogFileHeader) (good : Bool)
    (run : List (LogRecord × Bool × Bool))
    → All
        (λ (f : LogFile). f.header ≡ header)
        (files (write_all run (logger_init max_file_bytes header good)))
unfolding logger_init
write_all-header max_file_bytes header good run =
    let h =
      write_all-Headed header run (logger_init max_file_bytes header good)
        (record { given = refl; closed = tt; current = refl }) in
    All-snoc _ _ _ h.closed h.current
