-- ===== src/Examples/Sentences.antt =====
-- Runs of `src/drivers/nmea.cpp` and `src/drivers/nmea_gps.cpp`.
use flight_telemetry.Prelude.{◌≡◌, refl, true, false, List, [], ◌∷◌, none, some, Option, arith, pos}
use flight_telemetry.Bytes.{Bytes, codes, split_at, xor_of}
use flight_telemetry.Nmea.{Gga, Rmc, checksum_ok, checksum_value, hex_digit}
use flight_telemetry.Nmea.Checksum.{sentence, checksum-one_byte}
use flight_telemetry.Gps.{NmeaGps, SerialPort, gps_init, take_gga, take_rmc}
use flight_telemetry.Gps.Feed.{read_all, feed_all, complete_line}
use flight_telemetry.Gps.Balance.{polls, IsSettled, polls_balance}
use flight_telemetry.Gps.Polls.{read_all-enough}
use flight_telemetry.Gps.Framing.{framed, gathered, feed_all-framed}
use flight_telemetry.Gps.Epochs.{epoch, with_gga, with_rmc, epochs-pair}
use flight_telemetry.Examples.Data.{toy_doubles}

-- 0x41 and 0x42 make 3.
right_sum : checksum_ok (sentence (codes "AB") (codes "03")) ≡ true
unfolding checksum_ok checksum_value hex_digit split_at xor_of
right_sum = refl

checksum-one_byte_example : checksum_ok (sentence (codes "AC") (codes "03")) ≡ false
checksum-one_byte_example =
    checksum-one_byte b'B' b'C' (codes "A") [] (codes "03") (λ e. omega (arith, e)) (omega arith)
      (omega arith) (omega arith, tt) tt (refl, (refl, tt)) refl right_sum

-- The next chunk of a script; an error at its end.
abbrev next_chunk : List Bytes → Option Bytes × List Bytes
next_chunk [] = (none, [])
next_chunk (chunk ∷ rest) = (some chunk, rest)

-- A port that gives what is left of a script, a chunk at a time.
abbrev scripted : SerialPort (List Bytes)
scripted = record { read = λ script _. next_chunk script }

abbrev two_chunks : List Bytes
two_chunks = framed (codes "GPGGA,,,") ∷ framed (codes "GPRMC,,") ∷ []

polls_balance_example : IsSettled toy_doubles scripted (polls toy_doubles scripted 2 two_chunks).0
polls_balance_example = polls_balance toy_doubles scripted 2 two_chunks

read_all-enough_example :
    read_all toy_doubles scripted 5000 0 two_chunks gps_init
    ≡ read_all toy_doubles scripted 4097 0 two_chunks gps_init
read_all-enough_example =
    read_all-enough toy_doubles scripted 4097 5000 0 two_chunks gps_init (omega arith) (omega arith)

feed_all-framed_example :
    feed_all toy_doubles (framed (codes "GPGLL,1")) gps_init
    ≡ complete_line toy_doubles (gathered (codes "GPGLL,1") gps_init)
feed_all-framed_example = feed_all-framed toy_doubles (codes "GPGLL,1") gps_init (
  (refl, (refl, (refl, (refl, (refl, (refl, (refl, tt))))))),
  (refl, (refl, (refl, (refl, (refl, (refl, (refl, tt))))))),
  omega arith,
)

abbrev noon_gga : Gga
noon_gga = record {
  utc_time = codes "120000";
  has_position = true;
  latitude_deg = 0x4040_0000_0000_0000;
  longitude_deg = 0x4040_0000_0000_0000;
  altitude_m = 0;
  fix_quality = pos 1;
  satellites = pos 7;
}

abbrev noon_rmc : Rmc
noon_rmc = record {
  utc_time = codes "120000";
  valid = true;
  has_position = true;
  latitude_deg = 0x4040_0000_0000_0000;
  longitude_deg = 0x4040_0000_0000_0000;
  speed_mps = 0;
  course_deg = 0;
}

-- The other half of noon's epoch is pending.
abbrev waiting : NmeaGps
waiting = record gps_init { pending_rmc = some noon_rmc }

epochs-pair_example :
    (epoch (take_gga noon_gga waiting) ≡ with_gga noon_gga (epoch waiting))
    × (epoch (take_rmc noon_rmc waiting) ≡ with_rmc noon_rmc (epoch waiting))
epochs-pair_example = epochs-pair noon_gga noon_rmc waiting
