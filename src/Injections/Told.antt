-- ===== src/Injections/Told.antt =====
-- What the records of a log tell of injected lane faults, apart from how
-- `src/replay/recorded_injections.cpp` looks for them.
use flight_telemetry.Prelude.{ℕ, ◌-◌, ◌^◌, ◌≡◌, ◌≢◌, true, List, [], ◌∷◌, ◌++◌}
use flight_telemetry.Float.{Float}
use flight_telemetry.Frame.{TelemetryFrame}
use flight_telemetry.Event.{FaultEvent, event_of, voter, lane_fault_injected}
use flight_telemetry.Log.{LogRecord, frame, fault_event}
use flight_telemetry.Injector.{LaneFault, output_bit_flip, fused_altitude}

-- The demonstration's fault of a lane: from its onset on, bit 22 of the fused altitude that the lane puts
-- out is inverted; the log has it already.
abbrev pub reapplied : ℕ → ℕ → LaneFault
reapplied lane onset_ms = record {
  lane = lane;
  kind = output_bit_flip;
  onset_ms = onset_ms;
  end_ms = 2 ^ 64 - 1;
  field = fused_altitude;
  bit = 22;
  recorded = true;
}

-- The fault injected into a lane, as a record tells it: its channel, its kind and 1.0f, 2.0f or 3.0f.
abbrev pub injection : ℕ → Float → LogRecord
injection onset_ms value = fault_event (event_of onset_ms voter lane_fault_injected value)

-- What one record tells of injected faults.
pub data Tells (r : LogRecord) (found : List LaneFault) : Type 0 where
  frame_record : (f : TelemetryFrame) → r ≡ frame f → found ≡ [] → Tells r found
  other_channel :
      (e : FaultEvent) → r ≡ fault_event e → e.channel ≢ voter → found ≡ [] → Tells r found
  other_type :
      (e : FaultEvent)
      → r ≡ fault_event e
      → e.type ≢ lane_fault_injected
      → found ≡ []
      → Tells r found
  into_first : (ms : ℕ) → r ≡ injection ms 0x3f80_0000 → found ≡ reapplied 1 ms ∷ [] → Tells r found
  into_second :
      (ms : ℕ) → r ≡ injection ms 0x4000_0000 → found ≡ reapplied 2 ms ∷ [] → Tells r found
  into_third : (ms : ℕ) → r ≡ injection ms 0x4040_0000 → found ≡ reapplied 3 ms ∷ [] → Tells r found

-- What records tell, in their order.
pub data Told : List LogRecord → List LaneFault → Type 0 where
  nothing : Told [] []
  then_told :
      {r : LogRecord} {rs : List LogRecord} {told found : List LaneFault}
      → Tells r told
      → Told rs found
      → Told (r ∷ rs) (told ++ found)
