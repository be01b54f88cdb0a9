-- ===== src/AdsbSource/Orders.antt =====
-- The poll thread and the loop of `src/drivers/adsb_source.cpp` in every order of their steps.
use flight_telemetry.Prelude.{
  ℕ, ◌+◌, ◌≡◌, refl, sym, ap, ◌∙◌, subst, Option, none, some, List, [], ◌++◌, append-nil,
  append_assoc, arith, Bool-cases, inl, inr, ℤ,
}
use flight_telemetry.Double.{DoubleOps}
use flight_telemetry.Bytes.{Bytes}
use flight_telemetry.Json.{Json}
use flight_telemetry.Selector.{SelectorConfig}
use flight_telemetry.OpenSky.{OpenSkyClient, Service}
use flight_telemetry.OpenSky.Fetch.{fetch_states}
use flight_telemetry.AdsbSource.{PollReport, AdsbSource, adsb_init, publish, is_fetched}
use flight_telemetry.AdsbSource.Reading.{read_frame}
use flight_telemetry.AdsbSource.Polling.{poll_report, poll}
use flight_telemetry.AdsbSource.Slot.{
  Switch, Mailbox, switches_of, changes_in, mailbox, waiting, Alone, publish-mailbox,
  read_frame-taken,
}

module _ {ℓ} {W : Type ℓ} (ops : DoubleOps) (config : SelectorConfig) (poll_interval_ms : ℤ)
    (parse : Bytes → Option Json) (service : Service W) where
  -- The source with a report that the poll thread has made and not published.
  pub record Running : Type 0 where
    pub source : AdsbSource
    pub inflight : Option PollReport

  -- A poll of the source, which takes no lock, with its report.
  abbrev pub polled : AdsbSource → W → PollReport × AdsbSource × W
  polled s w = poll ops config poll_interval_ms parse service s w

  -- Any order of the two threads' steps, with the switches of every poll and how many were published.
  pub data Reach (client : OpenSkyClient) : List Switch → ℕ → Running → Type ℓ where
    started : Reach client [] 0 (record { source = adsb_init client; inflight = none })
    polls :
        {sent : List Switch} {n : ℕ} {s : AdsbSource} (w : W)
        → Reach client sent n (record { source = s; inflight = none })
        → Reach client
            (sent ++ switches_of (polled s w).0.changes)
            n
            (record { source = (polled s w).1; inflight = some (polled s w).0 })
    publishes :
        {sent : List Switch} {n : ℕ} {s : AdsbSource} {report : PollReport}
        → Reach client sent n (record { source = s; inflight = some report })
        → Reach client sent (n + 1) (record { source = publish report s; inflight = none })
    reads :
        {sent : List Switch} {n : ℕ} {s : AdsbSource} {inflight : Option PollReport} (now : ℕ)
        → Reach client sent n (record { source = s; inflight = inflight })
        → Reach client sent n (record { source = (read_frame ops now s).1; inflight = inflight })

  -- Every switch is recorded, waits, or is in hand; every report is taken, replaced, or waits.
  abbrev pub Accounts : List Switch → ℕ → Running → Type 0
  Accounts sent n r =
      (sent
        ≡ (mailbox r.source).delivered
          ++ ((mailbox r.source).queue ++ switches_of (changes_in r.inflight)))
      × (n ≡ r.source.counters.reports + r.source.overwritten + waiting r.source.pending)

  poll-Alone : (s : AdsbSource) (w : W) → Alone s (polled s w).1
  unfolding poll poll_report
  poll-Alone s w =
      let (result, client, w') = fetch_states ops parse service s.client w in
      elim (Bool-cases (is_fetched result.status)) [
        | inl e ↦ rw e (refl, refl, refl, refl)
        | inr e ↦ rw e (refl, refl, refl, refl)
      ]

  publish-counts :
      (report : PollReport) (s : AdsbSource)
      → ((publish report s).counters.reports ≡ s.counters.reports)
        × ((publish report s).overwritten + waiting (publish report s).pending
            ≡ s.overwritten + waiting s.pending + 1)
  unfolding publish
  publish-counts report s = go s.pending
    where
      go :
          (pending : Option PollReport)
          → let s0 : AdsbSource = record s { pending = pending } in
            ((publish report s0).counters.reports ≡ s.counters.reports)
            × ((publish report s0).overwritten + waiting (publish report s0).pending
                ≡ s.overwritten + waiting pending + 1)
      go none = (refl, omega arith)
      go (some old) = (refl, refl)

  -- The first half of the account.
  abbrev Sent : List Switch → List Switch → Mailbox → Type 0
  Sent sent inflight m = sent ≡ m.delivered ++ (m.queue ++ inflight)

  publish-Accounts :
      (sent : List Switch) (n : ℕ) (report : PollReport) (s : AdsbSource)
      → Accounts sent n (record { source = s; inflight = some report })
      → Accounts sent (n + 1) (record { source = publish report s; inflight = none })
  publish-Accounts sent n report s (e, k) =
      let x = switches_of report.changes in
      let d = (mailbox s).delivered in
      let q = (mailbox s).queue in
      let (a, b) = publish-counts report s in
      (
        subst (Sent sent []) (sym (publish-mailbox report s))
            (e ∙ ap (λ (l : List Switch). d ++ l) (sym (append-nil (q ++ x)))),
        omega (arith, k, a, b),
      )

  poll-Accounts :
      (sent : List Switch) (n : ℕ) (s : AdsbSource) (w : W)
      → Accounts sent n (record { source = s; inflight = none })
      → Accounts
          (sent ++ switches_of (polled s w).0.changes)
          n
          (record { source = (polled s w).1; inflight = some (polled s w).0 })
  poll-Accounts sent n s w (e, k) =
      let (a, b, c, o) = poll-Alone s w in
      let x = switches_of (polled s w).0.changes in
      let d = (mailbox s).delivered in
      let q = (mailbox s).queue in
      let same_box : mailbox s ≡ mailbox (polled s w).1 = λ i. record {
        queue = switches_of (changes_in (sym b i));
        delivered = switches_of (sym a i);
      } in
      let left = e ∙ ap (λ (l : List Switch). d ++ l) (append-nil q) in
      let w' = ap waiting b in
      (
        subst (Sent (sent ++ x) x) same_box
            (ap (λ (l : List Switch). l ++ x) left ∙ append_assoc d q x),
        omega (arith, k, w', c, o),
      )

  read-Accounts :
      (sent : List Switch) (n : ℕ) (s : AdsbSource) (inflight : Option PollReport) (now : ℕ)
      → Accounts sent n (record { source = s; inflight = inflight })
      → Accounts sent n (record { source = (read_frame ops now s).1; inflight = inflight })
  read-Accounts sent n s inflight now (e, k) =
      let (m, p, o, c) = read_frame-taken ops now s in
      let x = switches_of (changes_in inflight) in
      let d = (mailbox s).delivered in
      let q = (mailbox s).queue in
      let w' = ap waiting p in
      (subst (Sent sent x) (sym m) (e ∙ sym (append_assoc d q x)), omega (arith, k, w', o, c))

  -- In every order of polls, publications and frames: the switches of all polls are, in order, those
  -- recorded, those that wait in the slot and those of the report in hand; and every report published
  -- was taken, was replaced in the slot and counted, or waits.
  pub Reach-Accounts :
      {client : OpenSkyClient} {sent : List Switch} {n : ℕ} {r : Running}
      → Reach client sent n r
      → Accounts sent n r
  Reach-Accounts started = (refl, refl)
  Reach-Accounts (polls {sent} {n} {s} w r) = poll-Accounts sent n s w (Reach-Accounts r)
  Reach-Accounts (publishes {sent} {n} {s} {report} r) =
      publish-Accounts sent n report s (Reach-Accounts r)
  Reach-Accounts (reads {sent} {n} {s} {inflight} now r) =
      read-Accounts sent n s inflight now (Reach-Accounts r)
