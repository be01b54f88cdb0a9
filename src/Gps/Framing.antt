-- ===== src/Gps/Framing.antt =====
-- How `NmeaGps::feed` of `src/drivers/nmea_gps.cpp` takes sentences out of a stream of bytes.
use flight_telemetry.Prelude.{
  ℕ, ◌+◌, ◌≤◌, ◌≡◌, refl, ap, ◌∙◌, true, false, ◌==◌, ltb, [], ◌∷◌, ◌++◌, append-nil, append_assoc,
  length, length-append, arith,
}
use flight_telemetry.Double.{DoubleOps}
use flight_telemetry.Bytes.{Bytes, Without}
use flight_telemetry.Nmea.{dollar}
use flight_telemetry.Gps.{NmeaGps, resync, max_line_bytes}
use flight_telemetry.Gps.Feed.{complete_line, feed, feed_all}

abbrev newline : ℕ
newline = b'\n'

-- What may stand between the "$" and the end of a line.
abbrev pub IsBody : Bytes → Type 0
IsBody body = Without dollar body × Without newline body × (length body ≤ 127)

-- A line on the wire.
abbrev pub framed : Bytes → Bytes
framed body = dollar ∷ (body ++ (newline ∷ []))

-- The receiver with a whole line gathered.
abbrev pub gathered : Bytes → NmeaGps → NmeaGps
gathered body s = record (resync s.in_sentence s) {
  line = dollar ∷ body;
  in_sentence = true;
  discarding = false;
}

module _ (ops : DoubleOps) where
  feed-body :
      (b : ℕ) (s : NmeaGps)
      → s.in_sentence ≡ true
      → (b == dollar) ≡ false
      → (b == newline) ≡ false
      → ltb max_line_bytes (length (s.line ++ (b ∷ []))) ≡ false
      → feed ops b s ≡ record s { line = s.line ++ (b ∷ []) }
  unfolding feed
  feed-body b s i d n k = rw (d, i, n, k) refl

  feed-newline : (s : NmeaGps) → s.in_sentence ≡ true → feed ops newline s ≡ complete_line ops s
  unfolding feed
  feed-newline s i = rw i refl

  feed-dollar : (s : NmeaGps) → feed ops dollar s ≡ gathered [] s
  unfolding feed
  feed-dollar s = refl

  room :
      (l body : Bytes) (b : ℕ)
      → length l + length (b ∷ body) ≤ 128
      → ltb max_line_bytes (length (l ++ (b ∷ []))) ≡ false
  room l body b h = let l' = length-append l (b ∷ []) in ground (arith, h, l')

  feed_all-line :
      (body : Bytes) (s : NmeaGps)
      → s.in_sentence ≡ true
      → Without dollar body
      → Without newline body
      → length s.line + length body ≤ 128
      → feed_all ops (body ++ (newline ∷ [])) s
        ≡ complete_line ops (record s { line = s.line ++ body })
  unfolding feed_all
  feed_all-line [] s i d n k = rw (append-nil s.line) (feed-newline s i)
  feed_all-line (b ∷ body) s i (d, ds) (n, ns) k =
      let step = feed-body b s i d n (room s.line body b k) in
      let l = length-append s.line (b ∷ []) in
      let later =
        feed_all-line body (record s { line = s.line ++ (b ∷ []) }) i ds ns (omega (arith, k, l)) in
      ap (feed_all ops (body ++ (newline ∷ []))) step
      ∙ later
      ∙ ap (λ (t : Bytes). complete_line ops (record s { line = t }))
          (append_assoc s.line (b ∷ []) body)

  -- Whatever the receiver has gathered before, a "$", at most 127 bytes that are neither "$" nor the end
  -- of a line, and a line feed are taken as that one line, with a line left unfinished counted.
  pub feed_all-framed :
      (body : Bytes) (s : NmeaGps)
      → IsBody body
      → feed_all ops (framed body) s ≡ complete_line ops (gathered body s)
  unfolding feed_all
  feed_all-framed body s (d, n, k) =
      ap (feed_all ops (body ++ (newline ∷ []))) (feed-dollar s)
      ∙ feed_all-line body (gathered [] s) refl d n (omega (arith, k))
