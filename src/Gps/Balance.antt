-- ===== src/Gps/Balance.antt =====
-- The counters of `src/drivers/nmea_gps.cpp` account for every sentence.
use flight_telemetry.Prelude.{
  ℕ, zero, suc, ◌+◌, ◌*◌, ◌-◌, ◌≡◌, refl, ltb, if◌then◌else◌, Bool-cases, inl, inr, Option, none,
  some, List, [], ◌∷◌, arith, length,
}
use flight_telemetry.Double.{DoubleOps}
use flight_telemetry.Bytes.{Bytes}
use flight_telemetry.Nmea.{
  Gga, Rmc, gga, rmc, other, Formatter, checksum_ok, fields, formatter, field_at,
}
use flight_telemetry.Nmea.Parse.{parse_gga, parse_rmc}
use flight_telemetry.Gps.{
  NmeaGps, gps_init, is_some, complete_epoch, try_complete_epoch, put_gga, put_rmc, take_gga,
  take_rmc, max_bytes_per_poll, chunk_bytes, SerialPort, malformed, used, without_return,
}
use flight_telemetry.Gps.Feed.{take_fields, complete_line, feed, feed_all, read_all, poll}

abbrev held {ℓ} : {A : Type ℓ} → Option A → ℕ
held none = 0
held (some a) = 1

-- Every GGA or RMC is malformed, was given up, went into a pair, or is pending; every pair was no fix, a
-- fix delivered, a fix skipped, or the `fixes` of the latest poll.
abbrev accounted : ℕ → NmeaGps → ℕ
accounted latest s =
    s.counters.malformed
    + s.counters.incomplete_epochs
    + 2 * (s.counters.no_fix_epochs + s.counters.fixes + s.counters.fixes_skipped + latest)
    + held s.pending_gga
    + held s.pending_rmc

-- With `k` sentences in hand, while a poll runs: its latest fix is not yet among those delivered.
abbrev Owes : ℕ → NmeaGps → Type 0
Owes k s = s.counters.used ≡ accounted (held s.latest) s + k

try_complete_epoch-Owes : (s : NmeaGps) → Owes 0 s → Owes 0 (try_complete_epoch s)
unfolding try_complete_epoch complete_epoch
try_complete_epoch-Owes s b = ground (arith, b)

put_gga-Owes : (g : Gga) (s : NmeaGps) → Owes 1 s → Owes 0 (put_gga g s)
unfolding put_gga
put_gga-Owes g s b = ground (arith, b)

put_rmc-Owes : (r : Rmc) (s : NmeaGps) → Owes 1 s → Owes 0 (put_rmc r s)
unfolding put_rmc
put_rmc-Owes r s b = ground (arith, b)

module _ (ops : DoubleOps) where
  take_fields-Owes : (f : List Bytes) (s : NmeaGps) → Owes 0 s → Owes 0 (take_fields ops f s)
  unfolding take_fields take_gga take_rmc
  take_fields-Owes f s b = go (formatter (field_at f 0)) (parse_gga ops f) (parse_rmc ops f)
    where
      go :
          (k : Formatter) (g : Option Gga) (r : Option Rmc)
          → Owes 0 (elim k [
            | gga ↦ elim g [ some x ↦ take_gga x (used s) | none ↦ malformed (used s) ]
            | rmc ↦ elim r [ some x ↦ take_rmc x (used s) | none ↦ malformed (used s) ]
            | other ↦ s
          ])
      go gga (some x) r = try_complete_epoch-Owes _ (put_gga-Owes x (used s) (omega (arith, b)))
      go gga none r = omega (arith, b)
      go rmc g (some x) = try_complete_epoch-Owes _ (put_rmc-Owes x (used s) (omega (arith, b)))
      go rmc g none = omega (arith, b)
      go other g r = b

  complete_line-Owes : (s : NmeaGps) → Owes 0 s → Owes 0 (complete_line ops s)
  unfolding complete_line
  complete_line-Owes s b =
      let line = without_return s.line in
      let counted : NmeaGps = record s {
        counters = record s.counters { sentences = s.counters.sentences + 1 };
      } in
      let taken = take_fields-Owes (fields line) counted b in
      elim (Bool-cases (checksum_ok line)) [ inl e ↦ rw e taken | inr e ↦ rw e b ]

  feed-Owes : (byte : ℕ) (s : NmeaGps) → Owes 0 s → Owes 0 (feed ops byte s)
  unfolding feed
  feed-Owes byte s b = let ended = complete_line-Owes s b in ground (arith, b, ended)

  feed_all-Owes : (bs : Bytes) (s : NmeaGps) → Owes 0 s → Owes 0 (feed_all ops bs s)
  unfolding feed_all
  feed_all-Owes [] s b = b
  feed_all-Owes (x ∷ bs) s b = feed_all-Owes bs (feed ops x s) (feed-Owes x s b)

  module _ {ℓ} {P : Type ℓ} (port : SerialPort P) where
    read_all-Owes :
        (n total : ℕ) (p : P) (s : NmeaGps) → Owes 0 s → Owes 0 (read_all ops port n total p s).0
    unfolding read_all
    read_all-Owes zero total p s b = b
    read_all-Owes (suc n) total p s b =
        let left = max_bytes_per_poll - total in
        let (got, p') = port.read p (if ltb left chunk_bytes then left else chunk_bytes) in
        elim (Bool-cases (ltb total max_bytes_per_poll)) [
          | inr e ↦ rw e b
          | inl e ↦ rw e (go got p' (λ k q t c. read_all-Owes n k q t c))
        ]
      where
        Later : Type ℓ
        Later = (k : ℕ) (q : P) (t : NmeaGps) → Owes 0 t → Owes 0 (read_all ops port n k q t).0

        go :
            (got : Option Bytes) (p' : P)
            → Later
            → Owes 0
                (elim got as (λ x. NmeaGps × P) [
                  | none ↦ (
                    record s {
                      counters = record s.counters { read_errors = s.counters.read_errors + 1 };
                    },
                    p',
                  )
                  | some [] ↦ (s, p')
                  | some (x ∷ bs) ↦
                      let k = length (x ∷ bs) in
                      read_all ops port n (total + k) p' (
                        feed_all ops (x ∷ bs) (record s {
                          counters = record s.counters { bytes = s.counters.bytes + k };
                        }))
                ]).0
        go none p' later = b
        go (some []) p' later = b
        go (some (x ∷ bs)) p' later =
            let k = length (x ∷ bs) in
            later (total + k) p'
              (feed_all ops (x ∷ bs)
                (record s { counters = record s.counters { bytes = s.counters.bytes + k } }))
              (feed_all-Owes (x ∷ bs)
                (record s { counters = record s.counters { bytes = s.counters.bytes + k } }) b)

    -- Between polls: the latest fix is among those delivered.
    abbrev pub IsSettled : NmeaGps → Type 0
    IsSettled s = s.counters.used ≡ accounted 0 s

    poll-IsSettled : (p : P) (s : NmeaGps) → IsSettled s → IsSettled (poll ops port p s).1
    unfolding poll
    poll-IsSettled p s b =
        let started : NmeaGps = record s { latest = none } in
        let s' = (read_all ops port (suc max_bytes_per_poll) 0 p started).0 in
        let owed = read_all-Owes (suc max_bytes_per_poll) 0 p started (omega (arith, b)) in
        settle s' owed
      where
        settle :
            (s' : NmeaGps)
            → Owes 0 s'
            → IsSettled (
                if is_some s'.latest
                then record s' { counters = record s'.counters { fixes = s'.counters.fixes + 1 } }
                else s')
        settle s' owed = ground (arith, owed)

    -- A number of polls of a new receiver.
    unfoldable pub polls : ℕ → P → NmeaGps × P
    polls zero p = (gps_init, p)
    polls (suc n) p = let (s, p') = polls n p in let (_, s', p'') = poll ops port p' s in (s', p'')

    -- After any number of polls of any port, every GGA or RMC that passed the checksum is accounted for
    -- once: malformed, given up for another epoch, half of a pair that was no fix, a fix delivered or a
    -- fix skipped, or pending.
    pub polls_balance : (n : ℕ) (p : P) → IsSettled (polls n p).0
    unfolding polls gps_init
    polls_balance zero p = refl
    polls_balance (suc n) p = poll-IsSettled (polls n p).1 (polls n p).0 (polls_balance n p)
