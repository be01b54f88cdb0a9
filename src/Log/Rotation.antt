-- ===== src/Log/Rotation.antt =====
-- The rotation of `src/logging/binary_logger.cpp`.
use flight_telemetry.Prelude.{
  ℕ, ◌+◌, ◌≡◌, ◌≤◌, refl, sym, ◌∙◌, Bool, true, false, Bool-cases, inl, inr, if◌then◌else◌, ltb,
  List, [], ◌∷◌, ◌++◌, All, All-snoc, arith, subst,
}
use flight_telemetry.Log.{
  LogRecord, frame, fault_event, LogFile, BinaryLogger, logger_init, write_record, write_all,
  open_next_file, put_record, minimum, files, record_bytes, header_bytes, LogFileHeader, overflows,
}

abbrev records_bytes : List LogRecord → ℕ
records_bytes [] = 0
records_bytes (r ∷ rs) = record_bytes r + records_bytes rs

-- The size of a file.
abbrev pub file_bytes : LogFile → ℕ
file_bytes file = header_bytes + records_bytes file.records

records_bytes-append :
    (rs : List LogRecord) (r : LogRecord)
    → records_bytes (rs ++ (r ∷ [])) ≡ records_bytes rs + record_bytes r
records_bytes-append [] r = omega arith
records_bytes-append (x ∷ rs) r = omega (arith, records_bytes-append rs r)

-- The limit that the constructor keeps.
abbrev pub limit : ℕ → ℕ
limit max_file_bytes = if ltb max_file_bytes minimum then minimum else max_file_bytes

-- What `bytes_written` and `file_has_record` mean while the stream is good, and the bound on every file.
record Bounded (s : BinaryLogger) : Type 0 where
  enough : minimum ≤ s.max_file_bytes
  closed : All (λ (f : LogFile). file_bytes f ≤ s.max_file_bytes) s.closed
  current : file_bytes s.current ≤ s.max_file_bytes
  tracked : s.ok ≡ true → s.bytes_written ≡ file_bytes s.current
  started : s.ok ≡ true → s.file_has_record ≡ false → s.bytes_written ≡ header_bytes

record_fits : (r : LogRecord) → header_bytes + record_bytes r ≤ minimum
unfolding minimum
record_fits (frame f) = omega arith
record_fits (fault_event e) = omega arith

ltb-false : (a b : ℕ) → ltb a b ≡ false → b ≤ a
ltb-false a b h = ground arith

put_record-Bounded :
    (good : Bool) (r : LogRecord) (s : BinaryLogger)
    → Bounded s
    → s.ok ≡ true
    → s.bytes_written + record_bytes r ≤ s.max_file_bytes
    → Bounded (put_record good r s)
unfolding put_record
put_record-Bounded true r s b e h = record {
  enough = b.enough;
  closed = b.closed;
  current = omega (arith, b.tracked e, records_bytes-append s.current.records r, h);
  tracked = λ _. omega (arith, b.tracked e, records_bytes-append s.current.records r);
  started = λ _ absurdity. cc;
}
put_record-Bounded false r s b e h = record {
  enough = b.enough;
  closed = b.closed;
  current = b.current;
  tracked = λ absurdity. cc;
  started = λ absurdity _. cc;
}

open_next_file-Bounded :
    (good : Bool) (s : BinaryLogger) → Bounded s → Bounded (open_next_file good s)
unfolding open_next_file minimum
open_next_file-Bounded true s b = record {
  enough = b.enough;
  closed = All-snoc _ s.closed s.current b.closed b.current;
  current = omega (arith, b.enough);
  tracked = λ _. refl;
  started = λ _ _. refl;
}
open_next_file-Bounded false s b = record {
  enough = b.enough;
  closed = All-snoc _ s.closed s.current b.closed b.current;
  current = omega (arith, b.enough);
  tracked = λ absurdity. cc;
  started = λ absurdity _. cc;
}

no_overflow :
    (r : LogRecord) (s : BinaryLogger)
    → Bounded s
    → s.ok ≡ true
    → overflows r s ≡ false
    → s.bytes_written + record_bytes r ≤ s.max_file_bytes
no_overflow r s b e o = elim (Bool-cases s.file_has_record) [
  | inl f ↦ ltb-false _ _ (sym (rw f refl) ∙ o)
  | inr f ↦ omega (arith, b.started e f, record_fits r, b.enough)
]

write_record-Bounded :
    (opened written : Bool) (r : LogRecord) (s : BinaryLogger)
    → Bounded s
    → Bounded (write_record opened written r s)
unfolding write_record put_record open_next_file
write_record-Bounded opened written r s b = elim (Bool-cases s.ok) [
  | inr e ↦ simp (e) b
  | inl e ↦ elim (Bool-cases (overflows r s)) [
    | inl o ↦ elim (Bool-cases opened) [
      | inl g ↦
          rw (e, o, g)
            (put_record-Bounded written r (open_next_file true s) (open_next_file-Bounded true s b)
              refl (omega (arith, record_fits r, b.enough)))
      | inr g ↦ rw (e, o, g) (open_next_file-Bounded false s b)
    ]
    | inr o ↦ rw (e, o) (put_record-Bounded written r s b e (no_overflow r s b e o))
  ]
]

write_all-Bounded :
    (run : List (LogRecord × Bool × Bool)) (s : BinaryLogger)
    → Bounded s
    → Bounded (write_all run s)
unfolding write_all
write_all-Bounded [] s b = b
write_all-Bounded ((r, opened, written) ∷ rest) s b =
    write_all-Bounded rest (write_record opened written r s)
      (write_record-Bounded opened written r s b)

logger_init-Bounded :
    (max_file_bytes : ℕ) (header : LogFileHeader) (good : Bool)
    → Bounded (logger_init max_file_bytes header good)
unfolding logger_init minimum
logger_init-Bounded max_file_bytes header good = record {
  enough = ground arith;
  closed = tt;
  current = ground arith;
  tracked = λ e. rw e refl;
  started = λ e _. rw e refl;
}

limit_stays :
    (run : List (LogRecord × Bool × Bool)) (s : BinaryLogger)
    → (write_all run s).max_file_bytes ≡ s.max_file_bytes
unfolding write_all write_record open_next_file put_record
limit_stays [] s = refl
limit_stays ((r, opened, written) ∷ rest) s =
    limit_stays rest (write_record opened written r s) ∙ ground arith

-- No file of a log is larger than the limit given to the logger, or than a header and one frame record
-- if the limit is smaller than that, whatever is logged and whenever opening a file or a write fails.
pub files_bounded :
    (max_file_bytes : ℕ) (header : LogFileHeader) (good : Bool)
    (run : List (LogRecord × Bool × Bool))
    → All
        (λ (f : LogFile). file_bytes f ≤ limit max_file_bytes)
        (files (write_all run (logger_init max_file_bytes header good)))
unfolding logger_init
files_bounded max_file_bytes header good run =
    let s = logger_init max_file_bytes header good in
    let b = write_all-Bounded run s (logger_init-Bounded max_file_bytes header good) in
    subst (λ (n : ℕ). All (λ (f : LogFile). file_bytes f ≤ n) (files (write_all run s)))
      (limit_stays run s) (All-snoc _ _ _ b.closed b.current)
