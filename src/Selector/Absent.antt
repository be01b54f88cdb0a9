-- ===== src/Selector/Absent.antt =====
-- The tolerance of `AircraftSelector::update` of `src/drivers/aircraft_selector.cpp` for responses without the kept
-- aircraft.
use flight_telemetry.Prelude.{
  ℕ, ◌+◌, ◌<◌, ◌≡◌, refl, ap, ◌∙◌, false, ltb, lt→ltb, pos, Option, none, some, List, [], ◌∷◌,
  length, All, arith,
}
use flight_telemetry.Float.{Double}
use flight_telemetry.Double.{DoubleOps}
use flight_telemetry.Bytes.{Bytes}
use flight_telemetry.Selector.{
  AircraftState, AircraftIdentity, AircraftSelector, SelectionChange, SelectorConfig,
  StatesDocument, find_address, left, change, nearest_from,
}
use flight_telemetry.Selector.Update.{
  take, update_absent, update_present, update_none, update, updates,
}

-- The responses that lack an address.
abbrev pub Lack : Bytes → List StatesDocument → Type 0
Lack address ds = All (λ (d : StatesDocument). find_address address d.states ≡ none) ds

-- One report of no change for each.
abbrev pub silent : List StatesDocument → List (Option SelectionChange)
silent [] = []
silent (d ∷ ds) = none ∷ silent ds

-- The selector with the aircraft held through `n` responses without it.
abbrev pub held_through : ℕ → AircraftSelector → AircraftSelector
held_through n s = record s { misses = n; selected_state = none }

module _ (ops : DoubleOps) (config : SelectorConfig) where
  update-absent :
      (kept : AircraftIdentity) (d : StatesDocument) (s : AircraftSelector)
      → s.selected ≡ some kept
      → find_address kept.icao24 d.states ≡ none
      → update ops config d s ≡ update_absent ops config (nearest_from ops config none d.states) s
  unfolding update
  update-absent kept d s k f = ap by_kept k ∙ ap by_state f
    where
      near : Option (AircraftState × Double)
      near = nearest_from ops config none d.states

      by_state : Option AircraftState → Option SelectionChange × AircraftSelector
      by_state none = update_absent ops config near s
      by_state (some current) = update_present ops config near current s

      by_kept : Option AircraftIdentity → Option SelectionChange × AircraftSelector
      by_kept none = update_none ops config near s
      by_kept (some k) = by_state (find_address k.icao24 d.states)

  update-missed :
      (kept : AircraftIdentity) (gone : ℕ) (d : StatesDocument) (s : AircraftSelector)
      → config.gone_after_polls ≡ pos gone
      → s.selected ≡ some kept
      → find_address kept.icao24 d.states ≡ none
      → s.misses + 1 < gone
      → update ops config d s ≡ (none, held_through (s.misses + 1) s)
  unfolding update_absent
  update-missed kept gone d s g k f h = update-absent kept d s k f ∙ simp (g, lt→ltb _ _ h)

  update-gone :
      (kept : AircraftIdentity) (gone : ℕ) (d : StatesDocument) (s : AircraftSelector)
      → config.gone_after_polls ≡ pos gone
      → s.selected ≡ some kept
      → find_address kept.icao24 d.states ≡ none
      → s.misses + 1 ≡ gone
      → update ops config d s
        ≡ change
            (take ops config (nearest_from ops config none d.states) left (held_through gone s))
  unfolding update_absent
  update-gone kept gone d s g k f h =
      let done : ltb (s.misses + 1) gone ≡ false = ground (arith, h) in
      update-absent kept d s k f
      ∙ missed done
      ∙ ap
          (λ n.
            change
              (take ops config (nearest_from ops config none d.states) left (held_through n s)))
          h
    where
      missed :
          (ltb (s.misses + 1) gone ≡ false)
          → update_absent ops config (nearest_from ops config none d.states) s
            ≡ change (
                take ops config
                  (nearest_from ops config none d.states)
                  left
                  (held_through (s.misses + 1) s))
      missed done = simp (g, done)

  -- The replacement of the kept aircraft after the tolerated misses.
  abbrev pub LeftAfter : AircraftIdentity → Option SelectionChange → Type 0
  LeftAfter kept none = ⊥
  LeftAfter kept (some c) = (c.previous ≡ some kept) × (c.reason ≡ left)

  change-LeftAfter :
      (kept : AircraftIdentity) (near : Option (AircraftState × Double)) (s : AircraftSelector)
      → s.selected ≡ some kept
      → LeftAfter kept (change (take ops config near left s)).0
  unfolding take
  change-LeftAfter kept none s k = (k, refl)
  change-LeftAfter kept (some (a, m)) s k = (k, refl)

  -- A selector that holds an aircraft, missed in the latest m responses: the next
  -- `gone_after_polls` - m - 1 responses without it cause no change and leave it selected, and one more
  -- without it replaces it as left.
  pub updates-tolerance :
      (kept : AircraftIdentity) (gone : ℕ) (ds : List StatesDocument) (d : StatesDocument)
      (s : AircraftSelector)
      → config.gone_after_polls ≡ pos gone
      → s.selected ≡ some kept
      → Lack kept.icao24 ds
      → find_address kept.icao24 d.states ≡ none
      → s.misses + length ds + 1 ≡ gone
      → ((updates ops config ds s).0 ≡ silent ds)
        × ((updates ops config ds s).1.selected ≡ some kept)
        × LeftAfter kept (update ops config d (updates ops config ds s).1).0
  unfolding updates
  updates-tolerance kept gone [] d s g k l f h =
      let last = update-gone kept gone d s g k f (omega (arith, h)) in
      (
        refl,
        k,
        rw last
            (change-LeftAfter kept (nearest_from ops config none d.states) (held_through gone s) k),
      )
  updates-tolerance kept gone (x ∷ ds) d s g k (a, l) f h =
      let step = update-missed kept gone x s g k a (omega (arith, h)) in
      let later =
        updates-tolerance kept gone ds d (held_through (s.misses + 1) s) g k l f
          (omega (arith, h)) in
      rw step (ap (λ (cs : List (Option SelectionChange)). none ∷ cs) later.0, later.1, later.2)
