-- ===== src/Gps/Epochs.antt =====
-- How `try_complete_epoch`, `take_gga` and `take_rmc` of `src/drivers/nmea_gps.cpp` pair the halves of an epoch.
use flight_telemetry.Prelude.{◌≡◌, refl, Bool-cases, inl, inr, if◌then◌else◌, Option, none, some}
use flight_telemetry.Bytes.{same}
use flight_telemetry.Nmea.{Gga, Rmc}
use flight_telemetry.Gps.{
  GpsFix, NmeaGps, is_fix, fix_of, complete_epoch, try_complete_epoch, put_gga, put_rmc, take_gga,
  take_rmc, incomplete, is_some,
}

-- The pending halves and the fix of this poll.
abbrev Epoch : Type 0
Epoch = Option Gga × Option Rmc × Option GpsFix

abbrev pub epoch : NmeaGps → Epoch
epoch s = (s.pending_gga, s.pending_rmc, s.latest)

-- Two halves of one time leave nothing pending, and a fix if both say so.
abbrev paired : Gga → Rmc → Option GpsFix → Epoch
paired g r latest = (none, none, if is_fix g r then some (fix_of g r) else latest)

abbrev pub with_gga : Gga → Epoch → Epoch
with_gga g (_, none, latest) = (some g, none, latest)
with_gga g (_, some r, latest) =
    if same r.utc_time g.utc_time then paired g r latest else (some g, none, latest)

abbrev pub with_rmc : Rmc → Epoch → Epoch
with_rmc r (none, _, latest) = (none, some r, latest)
with_rmc r (some g, _, latest) =
    if same g.utc_time r.utc_time then paired g r latest else (none, some r, latest)

complete_epoch-epoch :
    (g : Gga) (r : Rmc) (s : NmeaGps) → epoch (complete_epoch g r s) ≡ paired g r s.latest
unfolding complete_epoch
complete_epoch-epoch g r s = elim (Bool-cases (is_fix g r)) [
  | inl e ↦ rw e refl
  | inr e ↦ rw e refl
]

take_gga-epoch : (g : Gga) (s : NmeaGps) → epoch (take_gga g s) ≡ with_gga g (epoch s)
unfolding take_gga put_gga try_complete_epoch
take_gga-epoch g s = go s.pending_rmc
  where
    go :
        (rest : Option Rmc)
        → epoch (take_gga g (record s { pending_rmc = rest }))
          ≡ with_gga g (s.pending_gga, rest, s.latest)
    go none = refl
    go (some r) = elim (Bool-cases (same r.utc_time g.utc_time)) [
      | inl e ↦ rw e (
          complete_epoch-epoch g r (record s {
            pending_gga = some g;
            pending_rmc = some r;
            counters = incomplete (is_some s.pending_gga) s.counters;
          }))
      | inr e ↦ rw e refl
    ]

take_rmc-epoch : (r : Rmc) (s : NmeaGps) → epoch (take_rmc r s) ≡ with_rmc r (epoch s)
unfolding take_rmc put_rmc try_complete_epoch
take_rmc-epoch r s = go s.pending_gga
  where
    go :
        (rest : Option Gga)
        → epoch (take_rmc r (record s { pending_gga = rest }))
          ≡ with_rmc r (rest, s.pending_rmc, s.latest)
    go none = refl
    go (some g) = elim (Bool-cases (same g.utc_time r.utc_time)) [
      | inl e ↦ rw e (
          complete_epoch-epoch g r (record s {
            pending_gga = some g;
            pending_rmc = some r;
            counters = incomplete (is_some s.pending_rmc) s.counters;
          }))
      | inr e ↦ rw e refl
    ]

-- A GGA or an RMC gives the fix of the two halves when the other half of the same time is pending and
-- both say there is a fix, leaves nothing pending after such a pair in any case, and otherwise waits
-- alone, the other half given up and the fix as it was.
pub epochs-pair :
    (g : Gga) (r : Rmc) (s : NmeaGps)
    → (epoch (take_gga g s) ≡ with_gga g (epoch s)) × (epoch (take_rmc r s) ≡ with_rmc r (epoch s))
epochs-pair g r s = (take_gga-epoch g s, take_rmc-epoch r s)
