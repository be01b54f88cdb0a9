-- ===== src/Selector/Update.antt =====
-- A response taken, of `src/drivers/aircraft_selector.cpp`: `take` and `update`.
use flight_telemetry.Prelude.{
  ◌+◌, Bool, false, not, ◌&&◌, if◌then◌else◌, Option, none, some, List, [], ◌∷◌, pos, ltb_int,
}
use flight_telemetry.Float.{Double}
use flight_telemetry.Double.{DoubleOps, double_lt}
use flight_telemetry.Bytes.{same}
use flight_telemetry.Selector.{
  AircraftSelector, AircraftState, SelectionChange, SelectorConfig, StatesDocument, SwitchReason,
  above, change, distance_of, find_address, identity_of, incomplete, initial, landed, left, nearer,
  nearest_from, under_ceiling, usable,
}

module _ (ops : DoubleOps) (config : SelectorConfig) where
  -- The one place the selection changes; `none` drops the kept aircraft with nothing in its place.
  unfoldable pub take :
      Option (AircraftState × Double)
      → SwitchReason
      → AircraftSelector
      → SelectionChange × AircraftSelector
  take none reason s = (
    record { previous = s.selected; current = none; reason = reason; distance_m = 0 },
    record s { selected = none; selected_state = none; selected_distance_m = 0; misses = 0 },
  )
  take (some (a, _)) reason s =
      let d = distance_of ops config a in
      (
        record {
          previous = s.selected;
          current = some (identity_of a);
          reason = reason;
          distance_m = d;
        },
        record s {
          selected = some (identity_of a);
          selected_state = some a;
          selected_distance_m = d;
          misses = 0;
        },
      )

  unfoldable pub update_none :
      Option (AircraftState × Double) → AircraftSelector → Option SelectionChange × AircraftSelector
  update_none none s = (none, s)
  update_none (some near) s = change (take (some near) initial s)

  -- The kept aircraft is not in the response.
  unfoldable pub update_absent :
      Option (AircraftState × Double) → AircraftSelector → Option SelectionChange × AircraftSelector
  update_absent near s =
      let s' = record s { misses = s.misses + 1; selected_state = none } in
      if ltb_int (pos s'.misses) config.gone_after_polls
      then (none, s')
      else change (take near left s')

  abbrev pub is_challenged : Option (AircraftState × Double) → AircraftState → Double → Bool
  is_challenged none current d = false
  is_challenged (some (a, m)) current d =
      not (same a.icao24 current.icao24) && double_lt (ops.add m config.switch_margin_m) d

  -- The kept aircraft is in the response.
  unfoldable pub update_present :
      Option (AircraftState × Double)
      → AircraftState
      → AircraftSelector
      → Option SelectionChange × AircraftSelector
  update_present near current s =
      let d = distance_of ops config current in
      let s' = record s { misses = 0; selected_state = some current; selected_distance_m = d } in
      if not (usable current)
      then change (take near (if current.on_ground then landed else incomplete) s)
      else if not (under_ceiling ops config current)
      then change (take near above s)
      else if is_challenged near current d
      then change (take near nearer s')
      else (none, s')

  unfoldable pub update :
      StatesDocument → AircraftSelector → Option SelectionChange × AircraftSelector
  update document s =
      let near = nearest_from ops config none document.states in
      elim s.selected [
        | none ↦ update_none near s
        | some kept ↦ elim (find_address kept.icao24 document.states) [
          | none ↦ update_absent near s
          | some current ↦ update_present near current s
        ]
      ]

  -- A sequence of responses, with the change each caused.
  unfoldable pub updates :
      List StatesDocument → AircraftSelector → List (Option SelectionChange) × AircraftSelector
  updates [] s = ([], s)
  updates (d ∷ ds) s = let (c, s') = update d s in let (cs, s'') = updates ds s' in (c ∷ cs, s'')
