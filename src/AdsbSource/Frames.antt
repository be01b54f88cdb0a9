-- ===== src/AdsbSource/Frames.antt =====
-- The frames of `AdsbSource::read_frame` in `src/drivers/adsb_source.cpp` and the contract of `src/data_source.h`.
use flight_telemetry.Prelude.{
  ℕ, ◌+◌, ◌%◌, ◌^◌, ◌≡◌, refl, ◌∙◌, ap, Bool, true, false, Bool-cases, inl, inr, ◌||◌, Option, none,
  some, if◌then◌else◌,
}
use flight_telemetry.Float.{Float, Double}
use flight_telemetry.Double.{DoubleOps}
use flight_telemetry.Frame.{
  TelemetryFrame, zero_frame, has_flag, set_flag, new_vehicle, not_available, nominal,
}
use flight_telemetry.Replay.Raw.{IsRaw}
use flight_telemetry.Selector.{AircraftIdentity}
use flight_telemetry.AdsbSource.{
  AdsbReading, PollReport, AdsbSource, is_newly_selected, is_later, take,
}
use flight_telemetry.AdsbSource.Reading.{
  take_report, take_vector, merge_report, put_held, read_frame, frame_time,
}

-- Whether a report has a vector that is fresh, and whether it is of a new vehicle, by the identity of the
-- last report and the vector that is held.
abbrev pub freshness :
    Option PollReport → Option AircraftIdentity → Option AdsbReading → Bool × Bool
freshness none who held = (false, false)
freshness (some report) who held = elim report.selected [
  | none ↦ (false, false)
  | some v ↦ (is_newly_selected who v || is_later held v, is_newly_selected who v)
]

module _ (ops : DoubleOps) where
  take_vector-fresh :
      (v : AdsbReading) (s : AdsbSource)
      → (take_vector ops v s).0 ≡ (is_newly_selected s.identity v || is_later s.held v)
  unfolding take_vector
  take_vector-fresh v s = elim (Bool-cases (is_newly_selected s.identity v || is_later s.held v)) [
    | inl e ↦ rw e refl
    | inr e ↦ rw e refl
  ]

  take_report-fresh :
      (time : ℕ) (pending : Option PollReport) (s : AdsbSource)
      → ((take_report ops time pending s).0, (take_report ops time pending s).1)
        ≡ freshness pending s.identity s.held
  unfolding take_report merge_report
  take_report-fresh time none s = refl
  take_report-fresh time (some report) s = go report.selected
    where
      go :
          (v : Option AdsbReading)
          → (
            (take_report ops time (some (record report { selected = v })) s).0,
            (take_report ops time (some (record report { selected = v })) s).1,
          )
            ≡ freshness (some (record report { selected = v })) s.identity s.held
      go none = refl
      go (some v) = λ i. (
        take_vector-fresh v (merge_report ops time (record report { selected = some v }) s) i,
        is_newly_selected s.identity v,
      )

  -- The GPS fields and the flags may be anything, and the statuses as this source asserts them.
  asserted-IsRaw :
      (f : TelemetryFrame) (latitude longitude : Double)
      (altitude speed course rate pressure : Float) (flags : ℕ) (fresh : Bool)
      → IsRaw f
      → IsRaw (record f {
        latitude = latitude;
        longitude = longitude;
        gps_altitude_m = altitude;
        ground_speed_mps = speed;
        course_deg = course;
        gps_vertical_rate_mps = rate;
        gps_pressure_altitude_m = pressure;
        flags = flags;
        gps_read_ok = fresh;
        baro_status = not_available;
        imu_status = not_available;
        gps_status = nominal;
      })
  asserted-IsRaw f latitude longitude altitude speed course rate pressure flags fresh h = record {
    baro_altitude_m = h.baro_altitude_m;
    pitch_deg = h.pitch_deg;
    roll_deg = h.roll_deg;
    fused_altitude_m = h.fused_altitude_m;
    vertical_speed_mps = h.vertical_speed_mps;
    baro_status = inr refl;
    imu_status = inr refl;
    gps_status = inl refl;
    baro_altitude_validity = h.baro_altitude_validity;
    pitch_validity = h.pitch_validity;
    roll_validity = h.roll_validity;
    fused_altitude_validity = h.fused_altitude_validity;
    vertical_speed_validity = h.vertical_speed_validity;
    voter_status = h.voter_status;
    reserved_d = h.reserved_d;
  }

  -- A frame of the source by the vector that is held.
  abbrev shown : Option AdsbReading → Bool → TelemetryFrame → TelemetryFrame
  shown v fresh f = record (put_held ops v f) {
    gps_read_ok = fresh;
    baro_status = not_available;
    imu_status = not_available;
    gps_status = nominal;
  }

  shown-IsRaw :
      (v : Option AdsbReading) (fresh : Bool) (f : TelemetryFrame)
      → IsRaw f
      → IsRaw (shown v fresh f)
  unfolding put_held set_flag
  shown-IsRaw none fresh f h = asserted-IsRaw f _ _ _ _ _ _ _ _ fresh h
  shown-IsRaw (some v) fresh f h = go v.vertical_rate_mps v.pressure_altitude_m
    where
      go :
          (rate pressure : Option Float)
          → IsRaw (
              shown
                (some (record v { vertical_rate_mps = rate; pressure_altitude_m = pressure }))
                fresh
                f)
      go none none = asserted-IsRaw f _ _ _ _ _ _ _ _ fresh h
      go none (some b) = asserted-IsRaw f _ _ _ _ _ _ _ _ fresh h
      go (some a) none = asserted-IsRaw f _ _ _ _ _ _ _ _ fresh h
      go (some a) (some b) = asserted-IsRaw f _ _ _ _ _ _ _ _ fresh h

  abbrev flagged : Bool → TelemetryFrame → TelemetryFrame
  flagged new f = if new then set_flag f new_vehicle else f

  shown-new_vehicle :
      (v : Option AdsbReading) (fresh new : Bool) (time sequence : ℕ)
      → has_flag
          (shown v fresh
            (flagged new (record zero_frame { timestamp_ms = time; sequence = sequence })))
          new_vehicle
        ≡ new
  unfolding put_held set_flag has_flag
  shown-new_vehicle none fresh true t q = refl
  shown-new_vehicle none fresh false t q = refl
  shown-new_vehicle (some v) fresh new t q = go v.vertical_rate_mps v.pressure_altitude_m new
    where
      go :
          (rate pressure : Option Float) (b : Bool)
          → has_flag
              (shown
                (some (record v { vertical_rate_mps = rate; pressure_altitude_m = pressure }))
                fresh
                (flagged b (record zero_frame { timestamp_ms = t; sequence = q })))
              new_vehicle
            ≡ b
      go none none true = refl
      go none none false = refl
      go none (some b) true = refl
      go none (some b) false = refl
      go (some a) none true = refl
      go (some a) none false = refl
      go (some a) (some b) true = refl
      go (some a) (some b) false = refl

  zero-IsRaw :
      (time sequence flags : ℕ)
      → IsRaw (record zero_frame { timestamp_ms = time; sequence = sequence; flags = flags })
  zero-IsRaw time sequence flags = record {
    baro_altitude_m = refl;
    pitch_deg = refl;
    roll_deg = refl;
    fused_altitude_m = refl;
    vertical_speed_mps = refl;
    baro_status = inl refl;
    imu_status = inl refl;
    gps_status = inl refl;
    baro_altitude_validity = refl;
    pitch_validity = refl;
    roll_validity = refl;
    fused_altitude_validity = refl;
    vertical_speed_validity = refl;
    voter_status = refl;
    reserved_d = refl;
  }

  flagged-IsRaw :
      (new : Bool) (time sequence : ℕ)
      → IsRaw (flagged new (record zero_frame { timestamp_ms = time; sequence = sequence }))
  unfolding set_flag
  flagged-IsRaw true t q = zero-IsRaw t q 1
  flagged-IsRaw false t q = zero-IsRaw t q 0

  -- A frame keeps the contract of a source, its barometer and IMU channels not available; its GPS channel
  -- is fresh exactly when the report in the slot has a vector of another aircraft than the last report's,
  -- or a later one of the aircraft that is held; and it says NEW_VEHICLE exactly in the first case.
  pub read_frame-IsRaw :
      (now : ℕ) (s : AdsbSource)
      → let frame : TelemetryFrame = (read_frame ops now s).0 in
        IsRaw frame
        × (frame.baro_status ≡ not_available)
        × (frame.imu_status ≡ not_available)
        × ((frame.gps_read_ok, has_flag frame new_vehicle) ≡ freshness s.pending s.identity s.held)
  unfolding read_frame take
  read_frame-IsRaw now s =
      let first : ℕ = elim s.first_read_ns [ none ↦ now | some t ↦ t ] in
      let time = frame_time ops first now in
      let taken : AdsbSource =
        (take (record s {
          first_read_ns = some first;
          next_sequence = (s.next_sequence + 1) % 2 ^ 32;
        })).1 in
      let (fresh, new, s') = take_report ops time s.pending taken in
      let flag = shown-new_vehicle s'.held fresh new time s.next_sequence in
      (
        shown-IsRaw s'.held fresh
            (flagged new (record zero_frame { timestamp_ms = time; sequence = s.next_sequence }))
            (flagged-IsRaw new time s.next_sequence),
        refl,
        refl,
        ap (λ (b : Bool). (fresh, b)) flag ∙ take_report-fresh time s.pending taken,
      )
