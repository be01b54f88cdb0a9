-- ===== src/Selector/Kept.antt =====
-- What `AircraftSelector::update` of `src/drivers/aircraft_selector.cpp` keeps, and how it reports a change.
use flight_telemetry.Prelude.{
  ◌≡◌, refl, sym, ap, ◌∙◌, true, Bool-cases, Option-cases, inl, inr, Option, none, some, List, [],
  ◌∷◌, ltb_int, pos, ◌+◌, arith, if◌then◌else◌,
}
use flight_telemetry.Float.{Double}
use flight_telemetry.Double.{DoubleOps}
use flight_telemetry.Bytes.{Bytes, same, same_iff}
use flight_telemetry.Selector.{
  AircraftState, AircraftIdentity, AircraftSelector, SelectionChange, SelectorConfig,
  StatesDocument, SwitchReason, candidate, usable, under_ceiling, find_address, nearest_from,
  selector_init, left, nearer, initial, landed, incomplete, above, change, distance_of,
}
use flight_telemetry.Selector.Update.{
  take, update_none, update_absent, update_present, update, is_challenged,
}
use flight_telemetry.Selector.Nearest.{IsChosen, nearest_from-IsChosen}

-- What the change says of the selection before and after it; without one the selection is the same.
abbrev pub Reports : Option AircraftIdentity → Option SelectionChange × AircraftSelector → Type 0
Reports before (none, s) = s.selected ≡ before
Reports before (some c, s) = (c.previous ≡ before) × (c.current ≡ s.selected)

module _ (ops : DoubleOps) (config : SelectorConfig) where
  -- The vector that the source reads is that of the kept aircraft, complete, airborne and under the ceiling.
  abbrev pub IsKept : AircraftSelector → Type 0
  IsKept s = elim s.selected_state [
    | none ↦ Unit
    | some a ↦
        (usable a ≡ true)
        × (under_ceiling ops config a ≡ true)
        × elim s.selected [ none ↦ ⊥ | some kept ↦ kept.icao24 ≡ a.icao24 ]
  ]

  abbrev Near : Type 0
  Near = Option (AircraftState × Double)

  abbrev IsEligible : Near → Type 0
  IsEligible none = Unit
  IsEligible (some (a, m)) = candidate ops config a ≡ true

  -- What every outcome of a response satisfies.
  abbrev Sound : Option AircraftIdentity → Option SelectionChange × AircraftSelector → Type 0
  Sound before r = Reports before r × IsKept r.1

  candidate-conditions :
      (a : AircraftState)
      → candidate ops config a ≡ true
      → (usable a ≡ true) × (under_ceiling ops config a ≡ true)
  unfolding candidate
  candidate-conditions a h = (ground (arith, h), ground (arith, h))

  take-Sound :
      (near : Near) (reason : SwitchReason) (s : AircraftSelector)
      → IsEligible near
      → Sound s.selected (change (take ops config near reason s))
  unfolding take
  take-Sound none reason s c = ((refl, refl), tt)
  take-Sound (some (a, m)) reason s c =
      let (u, b) = candidate-conditions a c in ((refl, refl), (u, b, refl))

  update_absent-Sound :
      (near : Near) (s : AircraftSelector)
      → IsEligible near
      → Sound s.selected (update_absent ops config near s)
  unfolding update_absent
  update_absent-Sound near s c =
      let missed : AircraftSelector = record s { misses = s.misses + 1; selected_state = none } in
      elim (Bool-cases (ltb_int (pos (s.misses + 1)) config.gone_after_polls)) [
        | inl e ↦ rw e (refl, tt)
        | inr e ↦ rw e (take-Sound near left missed c)
      ]

  update_present-Sound :
      (near : Near) (a : AircraftState) (kept : AircraftIdentity) (s : AircraftSelector)
      → IsEligible near
      → s.selected ≡ some kept
      → kept.icao24 ≡ a.icao24
      → Sound s.selected (update_present ops config near a s)
  unfolding update_present
  update_present-Sound near a kept s c k i =
      let s' : AircraftSelector = record s {
        misses = 0;
        selected_state = some a;
        selected_distance_m = distance_of ops config a;
      } in
      let gone = take-Sound near (if a.on_ground then landed else incomplete) s c in
      let climbed = take-Sound near above s c in
      let replaced = take-Sound near nearer s' c in
      elim (Bool-cases (usable a)) [
        | inr e ↦ rw e gone
        | inl e ↦ elim (Bool-cases (under_ceiling ops config a)) [
          | inr f ↦ rw (e, f) climbed
          | inl f ↦ elim (Bool-cases (is_challenged ops config near a (distance_of ops config a))) [
            | inl g ↦ rw (e, f, g) replaced
            | inr g ↦ rw (e, f, g, k) (refl, (e, f, i))
          ]
        ]
      ]

  find_address-same :
      (address : Bytes) (states : List AircraftState) (a : AircraftState)
      → find_address address states ≡ some a
      → address ≡ a.icao24
  unfolding find_address
  find_address-same address [] a h = absurd cc
  find_address-same address (x ∷ rest) a h =
      let later = find_address-same address rest a in
      elim (Bool-cases (same x.icao24 address)) [
        | inr e ↦ later (sym (rw e refl) ∙ h)
        | inl e ↦
            let found : some x ≡ some a = sym (rw e refl) ∙ h in
            let this : x ≡ a = cc in
            sym ((same_iff x.icao24 address).0 e) ∙ ap (λ (y : AircraftState). y.icao24) this
      ]

  nearest-IsEligible :
      (states : List AircraftState) → IsEligible (nearest_from ops config none states)
  nearest-IsEligible states =
      go (nearest_from ops config none states) (nearest_from-IsChosen ops config states)
    where
      go : (near : Near) → IsChosen ops config states near → IsEligible near
      go none h = tt
      go (some (a, m)) h = h.1

  update-Sound :
      (document : StatesDocument) (s : AircraftSelector)
      → IsKept s
      → Sound s.selected (update ops config document s)
  unfolding update update_none
  update-Sound document s h =
      go s.selected refl (nearest_from ops config none document.states)
        (nearest-IsEligible document.states)
    where
      go :
          (kept : Option AircraftIdentity)
          → s.selected ≡ kept
          → (near : Near) → IsEligible near
          → Sound s.selected (elim kept as (λ _. Option SelectionChange × AircraftSelector) [
            | none ↦ update_none ops config near s
            | some k ↦ elim (find_address k.icao24 document.states) [
              | none ↦ update_absent ops config near s
              | some current ↦ update_present ops config near current s
            ]
          ])
      go none e none c = (refl, h)
      go none e (some x) c = take-Sound (some x) initial s c
      go (some k) e near c = elim (Option-cases (find_address k.icao24 document.states)) [
        | inl f ↦ rw f (update_absent-Sound near s c)
        | inr (a, f) ↦
            rw f
              (update_present-Sound near a k s c e (find_address-same k.icao24 document.states a f))
      ]

  -- A selector after a sequence of responses.
  unfoldable pub after : List StatesDocument → AircraftSelector
  after [] = selector_init
  after (d ∷ ds) = (update ops config d (after ds)).1

  after-IsKept : (ds : List StatesDocument) → IsKept (after ds)
  unfolding after
  after-IsKept [] = tt
  after-IsKept (d ∷ ds) = (update-Sound d (after ds) (after-IsKept ds)).1

  -- After any responses, and one more: its change, if any, names the selection before it and after it, the
  -- selection is as before without one, and the vector it leaves to be read, if any, is airborne,
  -- complete, under the ceiling and of the selected aircraft's address.
  pub update-IsKept :
      (ds : List StatesDocument) (d : StatesDocument)
      → Reports (after ds).selected (update ops config d (after ds))
        × IsKept (update ops config d (after ds)).1
  update-IsKept ds d = update-Sound d (after ds) (after-IsKept ds)
