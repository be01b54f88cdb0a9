-- ===== src/FaultSource/Channels.antt =====
-- The modes of `src/drivers/fault_injecting_source.cpp`: each on its own field or channel, and none of them nothing.
use flight_telemetry.Prelude.{
  ℕ, ◌≡◌, refl, ◌∙◌, true, false, Bool-cases, inl, inr, Option, none, some, List, [], ◌∷◌, ◌==◌,
  if◌then◌else◌,
}
use flight_telemetry.Float.{Float}
use flight_telemetry.Double.{DoubleOps}
use flight_telemetry.Frame.{TelemetryFrame}
use flight_telemetry.FaultSource.{
  RawField, pressure, temperature, accel_x, accel_y, accel_z, gyro_x, gyro_y, gyro_z, gps_altitude,
  field_member, set_member, FieldHold, FieldBias, FaultInjectingSource, put, index_of,
  apply_channel, apply_channels, raw_fields,
}
use flight_telemetry.FaultSource.Apply.{
  held_value, biased_value, apply_field, apply_fields, apply_field_modes, pass,
}

-- No mode of a field is on.
abbrev pub AreQuiet : FaultInjectingSource → Type 0
AreQuiet s =
    (field : RawField)
    → ((s.holds field).enabled ≡ false)
      × ((s.biases field).enabled ≡ false)
      × (s.overrides field ≡ none)

-- No mode is on.
abbrev pub IsQuiet : FaultInjectingSource → Type 0
IsQuiet s =
    (s.fail_baro ≡ false)
    × (s.fail_imu ≡ false)
    × (s.fail_gps ≡ false)
    × (s.hold_baro ≡ false)
    × (s.hold_imu ≡ false)
    × (s.hold_gps ≡ false)
    × AreQuiet s

module _ (ops : DoubleOps) where
  -- A field by its own modes: held, then offset, then replaced.
  abbrev pub shown_value : RawField → TelemetryFrame → FaultInjectingSource → Float
  shown_value field frame s =
      let before : Option Float =
        if s.have_previous then some (field_member field s.previous) else none in
      elim (s.overrides field) [
        | some x ↦ x
        | none ↦
            (biased_value ops (held_value ops (field_member field frame) before (s.holds field)).0
              frame.timestamp_ms (s.biases field)).0
      ]

  -- Each field is shown by its own modes alone, whatever those of the others.
  pub apply_field_modes-own :
      (field : RawField) (frame : TelemetryFrame) (s : FaultInjectingSource)
      → field_member field (apply_field_modes ops (frame, s)).0 ≡ shown_value field frame s
  unfolding apply_fields apply_field
  apply_field_modes-own pressure f s = refl
  apply_field_modes-own temperature f s = refl
  apply_field_modes-own accel_x f s = refl
  apply_field_modes-own accel_y f s = refl
  apply_field_modes-own accel_z f s = refl
  apply_field_modes-own gyro_x f s = refl
  apply_field_modes-own gyro_y f s = refl
  apply_field_modes-own gyro_z f s = refl
  apply_field_modes-own gps_altitude f s = refl

  set_member-same :
      (field : RawField) (f : TelemetryFrame) → set_member field (field_member field f) f ≡ f
  set_member-same pressure f = refl
  set_member-same temperature f = refl
  set_member-same accel_x f = refl
  set_member-same accel_y f = refl
  set_member-same accel_z f = refl
  set_member-same gyro_x f = refl
  set_member-same gyro_y f = refl
  set_member-same gyro_z f = refl
  set_member-same gps_altitude f = refl

  -- The array with an entry put where it was.
  put-same {ℓ} :
      {A : Type ℓ} (P : A → Type 0) (field other : RawField) (array : RawField → A) (a : A)
      → P a
      → P (array other)
      → P (put field a array other)
  put-same P field other array a h k = elim (Bool-cases (index_of other == index_of field)) [
    | inl e ↦ rw e h
    | inr e ↦ rw e k
  ]

  held_value-quiet :
      (value : Float) (before : Option Float) (hold : FieldHold)
      → hold.enabled ≡ false
      → held_value ops value before hold ≡ (value, hold)
  held_value-quiet value before hold h = rw h refl

  biased_value-quiet :
      (value : Float) (now : ℕ) (bias : FieldBias)
      → bias.enabled ≡ false
      → biased_value ops value now bias ≡ (value, bias)
  biased_value-quiet value now bias h = rw h refl

  apply_field-quiet :
      (field : RawField) (f : TelemetryFrame) (s : FaultInjectingSource)
      → AreQuiet s
      → ((apply_field ops field (f, s)).0 ≡ f) × AreQuiet (apply_field ops field (f, s)).1
  unfolding apply_field
  apply_field-quiet field f s quiet =
      let (h, b, o) = quiet field in
      let before : Option Float =
        if s.have_previous then some (field_member field s.previous) else none in
      let hold = held_value-quiet (field_member field f) before (s.holds field) h in
      let bias = biased_value-quiet (field_member field f) f.timestamp_ms (s.biases field) b in
      (
        rw (o, hold, bias) (set_member-same field f),
        λ g.
            let (h', b', o') = quiet g in
            (
              put-same (λ (x : FieldHold). x.enabled ≡ false) field g s.holds _ (rw hold h) h',
              put-same (λ (x : FieldBias). x.enabled ≡ false) field g s.biases _ (rw (hold, bias) b)
                  b',
              o',
            ),
      )

  pub apply_fields-quiet :
      (fields : List RawField) (f : TelemetryFrame) (s : FaultInjectingSource)
      → AreQuiet s
      → ((apply_fields ops fields (f, s)).0 ≡ f) × AreQuiet (apply_fields ops fields (f, s)).1
  unfolding apply_fields
  apply_fields-quiet [] f s quiet = (refl, quiet)
  apply_fields-quiet (field ∷ rest) f s quiet =
      let (e, q) = apply_field-quiet field f s quiet in
      let (g, r) =
        apply_fields-quiet rest (apply_field ops field (f, s)).0 (apply_field ops field (f, s)).1
          q in
      (g ∙ e, r)

  -- A sequence of frames of the inner source.
  unfoldable pub passes :
      List TelemetryFrame → FaultInjectingSource → List TelemetryFrame × FaultInjectingSource
  passes [] s = ([], s)
  passes (f ∷ fs) s =
      let (shown, s') = pass ops f s in let (rest, s'') = passes fs s' in (shown ∷ rest, s'')

  pass-IsQuiet :
      (frame : TelemetryFrame) (s : FaultInjectingSource)
      → IsQuiet s
      → ((pass ops frame s).0 ≡ frame) × IsQuiet (pass ops frame s).1
  unfolding pass apply_channels apply_channel apply_fields apply_field
  pass-IsQuiet frame s (a, b, c, d, e, f, quiet) =
      let last_good = (apply_channels s frame).1 in
      let same_frame : (apply_channels s frame).0 ≡ frame = rw (a, b, c, d, e, f) refl in
      let (g, q) =
        apply_fields-quiet raw_fields (apply_channels s frame).0
          (record s { last_good = last_good; have_last_good = true }) quiet in
      (g ∙ same_frame, (a, b, c, d, e, f, q))

  -- With no mode on, the frames are those of the inner source.
  pub passes-transparent :
      (fs : List TelemetryFrame) (s : FaultInjectingSource) → IsQuiet s → (passes fs s).0 ≡ fs
  unfolding passes
  passes-transparent [] s h = refl
  passes-transparent (f ∷ fs) s h =
      let (e, q) = pass-IsQuiet f s h in λ i. e i ∷ passes-transparent fs (pass ops f s).1 q i
