-- ===== src/FaultSource/Apply.antt =====
-- The field modes and a frame under them, of `src/drivers/fault_injecting_source.cpp`.
use flight_telemetry.Prelude.{
  ℕ, ◌+◌, ◌-◌, ◌%◌, ◌^◌, true, not, if◌then◌else◌, Option, none, some, List, [], ◌∷◌, pos,
}
use flight_telemetry.Float.{Float}
use flight_telemetry.Double.{DoubleOps}
use flight_telemetry.Frame.{TelemetryFrame}
use flight_telemetry.FaultSource.{
  FaultInjectingSource, FieldBias, FieldHold, RawField, apply_channels, field_member, put,
  raw_fields, set_member,
}

module _ (ops : DoubleOps) where
  -- The value of a field that is held, and the hold with it.
  abbrev pub held_value : Float → Option Float → FieldHold → Float × FieldHold
  held_value value before hold =
      let shown : Float = elim before [ none ↦ value | some p ↦ p ] in
      if not hold.enabled
      then (value, hold)
      else if hold.captured
      then (hold.value, hold)
      else (shown, record hold { captured = true; value = shown })

  abbrev pub biased_value : Float → ℕ → FieldBias → Float × FieldBias
  biased_value value now bias =
      let start = if bias.started then bias.start_ms else now in
      let elapsed_ms = (now + 2 ^ 64 - start) % 2 ^ 64 in
      let elapsed_s = ops.div (ops.of_int (pos elapsed_ms)) 0x408f_4000_0000_0000 in
      let moved =
        ops.add (ops.add (ops.of_float value) (ops.of_float bias.offset))
          (ops.mul (ops.of_float bias.rate_per_s) elapsed_s) in
      if not bias.enabled
      then (value, bias)
      else (ops.narrow moved, record bias { started = true; start_ms = start })

  -- One turn of the loop over the fields.
  unfoldable pub apply_field :
      RawField → TelemetryFrame × FaultInjectingSource → TelemetryFrame × FaultInjectingSource
  apply_field field (frame, s) =
      let before = if s.have_previous then some (field_member field s.previous) else none in
      let (held, hold) = held_value (field_member field frame) before (s.holds field) in
      let (biased, bias) = biased_value held frame.timestamp_ms (s.biases field) in
      let value : Float = elim (s.overrides field) [ none ↦ biased | some x ↦ x ] in
      (
        set_member field value frame,
        record s { holds = put field hold s.holds; biases = put field bias s.biases },
      )

  unfoldable pub apply_fields :
      List RawField → TelemetryFrame × FaultInjectingSource → TelemetryFrame × FaultInjectingSource
  apply_fields [] r = r
  apply_fields (field ∷ rest) r = apply_fields rest (apply_field field r)

  abbrev pub apply_field_modes :
      TelemetryFrame × FaultInjectingSource → TelemetryFrame × FaultInjectingSource
  apply_field_modes r = apply_fields raw_fields r

  -- `read_frame` with the inner source's frame.
  unfoldable pub pass :
      TelemetryFrame → FaultInjectingSource → TelemetryFrame × FaultInjectingSource
  pass frame s =
      let (changed, last_good) = apply_channels s frame in
      let (shown, s') =
        apply_field_modes (changed, record s { last_good = last_good; have_last_good = true }) in
      (shown, record s' { previous = shown; have_previous = true })

  -- The inner source's frame is always pulled.
  unfoldable pub read_frame {ℓ} :
      {P : Type ℓ}
      → (P → TelemetryFrame × P)
      → FaultInjectingSource × P
      → TelemetryFrame × FaultInjectingSource × P
  read_frame inner (s, p) =
      let (frame, p') = inner p in let (shown, s') = pass frame s in (shown, s', p')
