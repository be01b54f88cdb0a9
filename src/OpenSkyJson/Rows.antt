-- ===== src/OpenSkyJson/Rows.antt =====
-- The rows of a states response in `src/drivers/opensky_json.cpp`.
use flight_telemetry.Prelude.{
  ℕ, ◌+◌, ◌≡◌, refl, sym, ◌∙◌, Option, none, some, List, [], ◌∷◌, ◌++◌, append-nil, append_assoc,
  length, arith,
}
use flight_telemetry.Double.{DoubleOps}
use flight_telemetry.Json.{Elements, nil, cons, size}
use flight_telemetry.OpenSkyJson.{parse_row, put_row, parse_rows}
use flight_telemetry.Selector.{AircraftState, StatesDocument}

module _ (ops : DoubleOps) where
  -- The rows that parse, in order, and the number of those that do not.
  abbrev pub kept : Option AircraftState → List AircraftState → List AircraftState
  kept none rest = rest
  kept (some a) rest = a ∷ rest

  abbrev pub missed : Option AircraftState → ℕ → ℕ
  missed none rest = rest + 1
  missed (some a) rest = rest

  abbrev pub parsed : Elements → List AircraftState
  parsed nil = []
  parsed (cons row rest) = kept (parse_row ops row) (parsed rest)

  abbrev pub refused : Elements → ℕ
  refused nil = 0
  refused (cons row rest) = missed (parse_row ops row) (refused rest)

  -- Every row of a response is used in its place or counted: a bad row costs only itself.
  pub parse_rows-parsed :
      (rows : Elements) (d : StatesDocument)
      → ((parse_rows ops rows d).states ≡ d.states ++ parsed rows)
        × ((parse_rows ops rows d).rows_skipped ≡ d.rows_skipped + refused rows)
        × (length (parsed rows) + refused rows ≡ size rows)
  unfolding parse_rows put_row
  parse_rows-parsed nil d = (sym (append-nil d.states), omega arith, refl)
  parse_rows-parsed (cons row rest) d = go (parse_row ops row) (λ e. parse_rows-parsed rest e)
    where
      put : Option AircraftState → StatesDocument
      put (some state) = record d { states = d.states ++ (state ∷ []) }
      put none = record d { rows_skipped = d.rows_skipped + 1 }

      go :
          (o : Option AircraftState)
          → ((e : StatesDocument)
              → ((parse_rows ops rest e).states ≡ e.states ++ parsed rest)
                × ((parse_rows ops rest e).rows_skipped ≡ e.rows_skipped + refused rest)
                × (length (parsed rest) + refused rest ≡ size rest))
          → ((parse_rows ops rest (put o)).states ≡ d.states ++ kept o (parsed rest))
            × ((parse_rows ops rest (put o)).rows_skipped
                ≡ d.rows_skipped + missed o (refused rest))
            × (length (kept o (parsed rest)) + missed o (refused rest) ≡ size rest + 1)
      go none later = let (s, k, n) = later (put none) in (s, omega (arith, k), omega (arith, n))
      go (some a) later =
          let (s, k, n) = later (put (some a)) in
          (s ∙ append_assoc d.states (a ∷ []) (parsed rest), k, omega (arith, n))
