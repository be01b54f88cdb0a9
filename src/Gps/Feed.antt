-- ===== src/Gps/Feed.antt =====
-- Lines from bytes and a poll of the port, of `src/drivers/nmea_gps.cpp`.
use flight_telemetry.Prelude.{
  ℕ, zero, suc, ◌+◌, ◌-◌, true, false, not, ltb, ◌==◌, if◌then◌else◌, Option, none, some, List, [],
  ◌∷◌, ◌++◌, length,
}
use flight_telemetry.Double.{DoubleOps}
use flight_telemetry.Bytes.{Bytes}
use flight_telemetry.Nmea.{gga, rmc, other, checksum_ok, fields, formatter, field_at, dollar}
use flight_telemetry.Nmea.Parse.{parse_gga, parse_rmc}
use flight_telemetry.Gps.{
  GpsFix, NmeaGps, SerialPort, chunk_bytes, is_some, malformed, max_bytes_per_poll, max_line_bytes,
  resync, take_gga, take_rmc, used, without_return,
}

module _ (ops : DoubleOps) where
  -- What a line that passed the checksum does, by its fields.
  unfoldable pub take_fields : List Bytes → NmeaGps → NmeaGps
  take_fields f s = elim (formatter (field_at f 0)) [
    | gga ↦ elim (parse_gga ops f) [ some g ↦ take_gga g (used s) | none ↦ malformed (used s) ]
    | rmc ↦ elim (parse_rmc ops f) [ some r ↦ take_rmc r (used s) | none ↦ malformed (used s) ]
    | other ↦ s
  ]

  unfoldable pub complete_line : NmeaGps → NmeaGps
  complete_line s =
      let line = without_return s.line in
      let c = s.counters in
      let taken =
        take_fields (fields line)
          (record s { counters = record c { sentences = c.sentences + 1 } }) in
      let refused = record s { counters = record c { bad_checksum = c.bad_checksum + 1 } } in
      let s' = if checksum_ok line then taken else refused in
      record s' { line = []; in_sentence = false; discarding = false }

  unfoldable pub feed : ℕ → NmeaGps → NmeaGps
  feed byte s =
      let c = s.counters in
      let line = s.line ++ (byte ∷ []) in
      let ended = complete_line s in
      if byte == dollar
      then record (resync s.in_sentence s) {
        line = dollar ∷ [];
        in_sentence = true;
        discarding = false;
      }
      else if not s.in_sentence
      then record (resync (not s.discarding) s) { discarding = true }
      else if byte == b'\n'
      then ended
      else if ltb max_line_bytes (length line)
      then record s {
        line = [];
        in_sentence = false;
        discarding = true;
        counters = record c { overlong = c.overlong + 1 };
      }
      else record s { line = line }

  unfoldable pub feed_all : Bytes → NmeaGps → NmeaGps
  feed_all [] s = s
  feed_all (b ∷ bs) s = feed_all bs (feed b s)

  module _ {ℓ} {P : Type ℓ} (port : SerialPort P) where
    -- The loop of `poll` with `total` bytes read so far.
    unfoldable pub read_all : ℕ → ℕ → P → NmeaGps → NmeaGps × P
    read_all zero total p s = (s, p)
    read_all (suc n) total p s =
        let left = max_bytes_per_poll - total in
        let (got, p') = port.read p (if ltb left chunk_bytes then left else chunk_bytes) in
        let c = s.counters in
        if not (ltb total max_bytes_per_poll) then (s, p) else elim got [
          | none ↦ (record s { counters = record c { read_errors = c.read_errors + 1 } }, p')
          | some [] ↦ (s, p')
          | some (b ∷ bs) ↦
              let k = length (b ∷ bs) in
              read_all n (total + k) p'
                (feed_all (b ∷ bs) (record s { counters = record c { bytes = c.bytes + k } }))
        ]

    -- Every turn that goes on has read a byte.
    unfoldable pub poll : P → NmeaGps → Option GpsFix × NmeaGps × P
    poll p s =
        let (s', p') = read_all (suc max_bytes_per_poll) 0 p (record s { latest = none }) in
        let c = s'.counters in
        let s'' =
          if is_some s'.latest
          then record s' { counters = record c { fixes = c.fixes + 1 } }
          else s' in
        (s'.latest, s'', p')
