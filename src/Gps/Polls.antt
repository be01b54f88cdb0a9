-- ===== src/Gps/Polls.antt =====
-- The loop of `NmeaGps::poll` in `src/drivers/nmea_gps.cpp` ends.
use flight_telemetry.Prelude.{
  ℕ, zero, suc, ◌+◌, ◌-◌, ◌<◌, ◌≤◌, ◌≡◌, refl, false, ltb, Bool-cases, inl, inr, Option, none, some,
  [], ◌∷◌, arith, length, if◌then◌else◌,
}
use flight_telemetry.Double.{DoubleOps}
use flight_telemetry.Bytes.{Bytes}
use flight_telemetry.Gps.{NmeaGps, SerialPort, max_bytes_per_poll, chunk_bytes}
use flight_telemetry.Gps.Feed.{feed_all, read_all}

module _ {ℓ} {P : Type ℓ} (ops : DoubleOps) (port : SerialPort P) where
  -- A loop that has read all it may stops at once, on any fuel.
  read_all-full :
      (m total : ℕ) (p : P) (s : NmeaGps)
      → ltb total max_bytes_per_poll ≡ false
      → read_all ops port m total p s ≡ (s, p)
  unfolding read_all
  read_all-full zero total p s e = refl
  read_all-full (suc m) total p s e = rw e refl

  -- The loop ends before its fuel does: with more fuel than bytes left to read, any more of it gives the
  -- same.
  pub read_all-enough :
      (n m total : ℕ) (p : P) (s : NmeaGps)
      → n ≤ m
      → max_bytes_per_poll < n + total
      → read_all ops port m total p s ≡ read_all ops port n total p s
  unfolding read_all
  read_all-enough zero m total p s h k = read_all-full m total p s (ground (arith, k))
  read_all-enough (suc n) zero total p s h k = absurd (omega (arith, h))
  read_all-enough (suc n) (suc m) total p s h k =
      let left = max_bytes_per_poll - total in
      let (got, p') = port.read p (if ltb left chunk_bytes then left else chunk_bytes) in
      elim (Bool-cases (ltb total max_bytes_per_poll)) [
        | inr e ↦ rw e refl
        | inl e ↦ rw e (
            go got p' (λ more q t l.
              read_all-enough n m (total + more) q t (omega (arith, h)) (omega (arith, k, l))))
      ]
    where
      Later : Type ℓ
      Later =
          (more : ℕ) (q : P) (t : NmeaGps)
          → 1 ≤ more
          → read_all ops port m (total + more) q t ≡ read_all ops port n (total + more) q t

      turn : ℕ → P → Option Bytes → NmeaGps × P
      turn fuel q none = (
        record s { counters = record s.counters { read_errors = s.counters.read_errors + 1 } },
        q,
      )
      turn fuel q (some []) = (s, q)
      turn fuel q (some (b ∷ bs)) =
          let size = length (b ∷ bs) in
          read_all ops port fuel (total + size) q (
            feed_all ops (b ∷ bs)
              (record s { counters = record s.counters { bytes = s.counters.bytes + size } }))

      go : (got : Option Bytes) (q : P) → Later → turn m q got ≡ turn n q got
      go none q later = refl
      go (some []) q later = refl
      go (some (b ∷ bs)) q later = later (length (b ∷ bs)) q _ (omega arith)
