-- ===== src/Log/Header.antt =====
-- The header check of `src/logging/log_format.cpp`.
use flight_telemetry.Prelude.{◌≡◌, ◌⊎◌, inl, inr, refl, true, ◌↔◌, arith, ℕ, ◌∷◌, []}
use flight_telemetry.Bytes.{codes}
use flight_telemetry.Log.{LogFileHeader, RunMode, make_log_header, header_problem, header_is_valid}

-- The header of a log of a version whose frames have so many bytes, with the modes of `h`: "FTLG", events
-- of 16 bytes and the marker of this byte order.
abbrev pub header_of : ℕ → ℕ → LogFileHeader → LogFileHeader
header_of version frame_size h = record h {
  magic = 0x4654_4c47;
  version = version;
  frame_size = frame_size;
  event_size = 16;
  endian_marker = 0x0102_0304;
}

magic_text : codes "FTLG" ≡ 0x46 ∷ 0x54 ∷ 0x4c ∷ 0x47 ∷ []
magic_text = refl

header_is_valid-from :
    (h : LogFileHeader)
    → header_is_valid h ≡ true
    → (h ≡ header_of 1 104 h) ⊎ ((h ≡ header_of 2 104 h) ⊎ (h ≡ header_of 3 120 h))
unfolding header_is_valid header_problem
header_is_valid-from h e = ground arith

header_is_valid-to :
    (version frame_size : ℕ) (h : LogFileHeader)
    → header_is_valid (header_of version frame_size h) ≡ true
    → h ≡ header_of version frame_size h
    → header_is_valid h ≡ true
header_is_valid-to version frame_size h ok e = rw e ok

-- Apart from its two modes, a valid header is one of three: version 1 or 2 with frames of 104 bytes, or
-- version 3 with frames of 120; each has events of 16 bytes, the magic "FTLG" and this byte order's marker.
pub header_is_valid_iff :
    (h : LogFileHeader)
    → (header_is_valid h ≡ true)
      ↔ ((h ≡ header_of 1 104 h) ⊎ ((h ≡ header_of 2 104 h) ⊎ (h ≡ header_of 3 120 h)))
unfolding header_is_valid header_problem
header_is_valid_iff h = (
  header_is_valid-from h,
  λ e. elim e [
    | inl first ↦ header_is_valid-to 1 104 h refl first
    | inr (inl second) ↦ header_is_valid-to 2 104 h refl second
    | inr (inr third) ↦ header_is_valid-to 3 120 h refl third
  ],
)

-- The header that the build writes is one that it reads.
pub make_log_header-valid :
    (run_mode source_mode : RunMode) → header_is_valid (make_log_header run_mode source_mode) ≡ true
unfolding header_is_valid header_problem make_log_header
make_log_header-valid run_mode source_mode = refl
