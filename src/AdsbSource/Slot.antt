-- ===== src/AdsbSource/Slot.antt =====
-- The slot of `src/drivers/adsb_source.cpp` between the poll thread and the loop, as a queue of switches.
use flight_telemetry.Prelude.{
  ℕ, ◌+◌, ◌≡◌, refl, sym, ap, ◌∙◌, Option, none, some, List, [], ◌∷◌, ◌++◌, append-nil, map, arith,
  Bool-cases, inl, inr, ◌||◌,
}
use flight_telemetry.Double.{DoubleOps}
use flight_telemetry.Selector.{SelectionChange}
use flight_telemetry.AdsbSource.{
  AdsbReading, SwitchRecord, PollReport, AdsbSource, merged, publish, take, stamped,
  is_newly_selected, is_later,
}
use flight_telemetry.AdsbSource.Reading.{
  take_vector, take_selected, merge_report, take_report, read_frame,
}

-- A switch without the time of its frame.
abbrev pub Switch : Type 0
Switch = ℕ × SelectionChange

abbrev switch_of : SwitchRecord → Switch
switch_of r = (r.poll, r.change)

abbrev pub switches_of : List SwitchRecord → List Switch
switches_of rs = map switch_of rs

-- The promise of the slot: a queue of switches that the loop empties.
pub record Mailbox : Type 0 where
  pub queue : List Switch
  pub delivered : List Switch

abbrev pub send : List Switch → Mailbox → Mailbox
send sent m = record m { queue = m.queue ++ sent }

abbrev pub deliver : Mailbox → Mailbox
deliver m = record { queue = []; delivered = m.delivered ++ m.queue }

abbrev pub changes_in : Option PollReport → List SwitchRecord
changes_in none = []
changes_in (some report) = report.changes

abbrev pub mailbox : AdsbSource → Mailbox
mailbox s = record {
  queue = switches_of (changes_in s.pending);
  delivered = switches_of s.switches;
}

switches_of-append :
    (a b : List SwitchRecord) → switches_of (a ++ b) ≡ switches_of a ++ switches_of b
switches_of-append [] b = refl
switches_of-append (x ∷ a) b = ap (λ (l : List Switch). switch_of x ∷ l) (switches_of-append a b)

switches_of-stamped :
    (time : ℕ) (rs : List SwitchRecord) → switches_of (map (stamped time) rs) ≡ switches_of rs
switches_of-stamped time [] = refl
switches_of-stamped time (r ∷ rs) =
    ap (λ (l : List Switch). switch_of r ∷ l) (switches_of-stamped time rs)

pub publish-mailbox :
    (report : PollReport) (s : AdsbSource)
    → mailbox (publish report s) ≡ send (switches_of report.changes) (mailbox s)
unfolding publish merged
publish-mailbox report s = go s.pending
  where
    go :
        (pending : Option PollReport)
        → mailbox (publish report (record s { pending = pending }))
          ≡ send (switches_of report.changes) (mailbox (record s { pending = pending }))
    go none = refl
    go (some old) =
        ap (λ (l : List Switch). record { queue = l; delivered = switches_of s.switches })
          (switches_of-append old.changes report.changes)

-- What a vector leaves alone.
abbrev pub Alone : AdsbSource → AdsbSource → Type 0
Alone s s' =
    (s'.switches ≡ s.switches)
    × (s'.pending ≡ s.pending)
    × (s'.overwritten ≡ s.overwritten)
    × (s'.counters.reports ≡ s.counters.reports)

-- The reports taken and those that wait.
abbrev pub waiting : Option PollReport → ℕ
waiting none = 0
waiting (some report) = 1

module _ (ops : DoubleOps) where
  take_vector-Alone : (v : AdsbReading) (s : AdsbSource) → Alone s (take_vector ops v s).1
  unfolding take_vector
  take_vector-Alone v s = elim (Bool-cases (is_newly_selected s.identity v || is_later s.held v)) [
    | inl e ↦ rw e (refl, refl, refl, refl)
    | inr e ↦ rw e (refl, refl, refl, refl)
  ]

  take_selected-Alone :
      (v : Option AdsbReading) (s : AdsbSource) → Alone s (take_selected ops v s).2
  take_selected-Alone none s = (refl, refl, refl, refl)
  take_selected-Alone (some v) s = take_vector-Alone v s

  take_report-taken :
      (time : ℕ) (report : PollReport) (s : AdsbSource)
      → let s' : AdsbSource = (take_report ops time (some report) s).2 in
        (switches_of s'.switches ≡ switches_of s.switches ++ switches_of report.changes)
        × (s'.pending ≡ s.pending)
        × (s'.overwritten ≡ s.overwritten)
        × (s'.counters.reports ≡ s.counters.reports + 1)
  unfolding take_report merge_report
  take_report-taken time report s =
      let (a, b, c, d) = take_selected-Alone report.selected (merge_report ops time report s) in
      (
        ap switches_of a
            ∙ switches_of-append s.switches (map (stamped time) report.changes)
            ∙ ap (λ (l : List Switch). switches_of s.switches ++ l)
                (switches_of-stamped time report.changes),
        b,
        c,
        d,
      )

  pub read_frame-taken :
      (now : ℕ) (s : AdsbSource)
      → (mailbox (read_frame ops now s).1 ≡ deliver (mailbox s))
        × ((read_frame ops now s).1.pending ≡ none)
        × ((read_frame ops now s).1.overwritten ≡ s.overwritten)
        × ((read_frame ops now s).1.counters.reports ≡ s.counters.reports + waiting s.pending)
  unfolding read_frame take take_report
  read_frame-taken now s = go s.pending
    where
      go :
          (pending : Option PollReport)
          → let s0 : AdsbSource = record s { pending = pending } in
            (mailbox (read_frame ops now s0).1 ≡ deliver (mailbox s0))
            × ((read_frame ops now s0).1.pending ≡ none)
            × ((read_frame ops now s0).1.overwritten ≡ s.overwritten)
            × ((read_frame ops now s0).1.counters.reports ≡ s.counters.reports + waiting pending)
      go none = (
        ap (λ (l : List Switch). record { queue = []; delivered = l })
            (sym (append-nil (switches_of s.switches))),
        refl,
        refl,
        omega arith,
      )
      go (some report) =
          let (a, b, c, d) = take_report-taken _ report _ in
          (λ i. record { queue = switches_of (changes_in (b i)); delivered = a i }, b, c, d)

  -- A publication is a send of the report's switches and a frame a delivery of the queue: the slot that
  -- holds one report at most is, for switches, a queue that loses and reorders none.
  pub slot-refines :
      (report : PollReport) (now : ℕ) (s : AdsbSource)
      → (mailbox (publish report s) ≡ send (switches_of report.changes) (mailbox s))
        × (mailbox (read_frame ops now s).1 ≡ deliver (mailbox s))
  slot-refines report now s = (publish-mailbox report s, (read_frame-taken now s).0)
