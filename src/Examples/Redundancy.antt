-- ===== src/Examples/Redundancy.antt =====
-- Runs of `src/processing/redundant_processor.cpp` with and without a lane fault.
use flight_telemetry.Prelude.{◌≡◌, refl, true, some, [], ◌∷◌, map, All}
use flight_telemetry.Frame.{has_flag, voter_bit, voted}
use flight_telemetry.Lanes.{first, second, third}
use flight_telemetry.Voter.Agreement.{IsNumeric}
use flight_telemetry.Processor
use flight_telemetry.Float.{of_uint}
use flight_telemetry.Altitude.{pressure_to_altitude}
use flight_telemetry.Kalman
use flight_telemetry.Kalman.{kalman_filter}
use flight_telemetry.Attitude
use flight_telemetry.Attitude.{reset, accel_pitch, accel_roll, is_usable, complementary_filter}
use flight_telemetry.Processor.{
  processor_init, default_tuning, advance, judge, compute, begin_frame, take_baro, take_imu,
  imu_interval, take_altitude, predicted, measured, seconds,
}
use flight_telemetry.Redundant.{redundant_init, process_all}
use flight_telemetry.Redundant.Masking.{LeavesAlone, lane_all, with_status, process_all_masks}
use flight_telemetry.Redundant.Identical.{no_hook, redundant_is_one_lane}
use flight_telemetry.Injector.{
  LaneFault, demo_lane_fault, injector_hook, injector_init, persistent, output_stale, pitch,
  input_bit_flip, accel_x,
}
use flight_telemetry.Injector.Confined.{injected_faults_masked}
use flight_telemetry.Examples.Data.{small_ops, readings}

readings-IsNumeric : All IsNumeric (lane_all small_ops (processor_init default_tuning 500) readings)
unfolding lane_all Processor.process processor_init judge compute advance begin_frame take_baro
    take_imu imu_interval take_altitude predicted measured seconds has_flag pressure_to_altitude
    Kalman.advance Kalman.predict Kalman.update kalman_filter Attitude.update reset accel_pitch
    accel_roll is_usable Attitude.pitch_deg Attitude.roll_deg complementary_filter of_uint
readings-IsNumeric = (
  record {
    baro_altitude = refl;
    pitch = refl;
    roll = refl;
    fused_altitude = refl;
    vertical_speed = refl;
  },
  (
    record {
      baro_altitude = refl;
      pitch = refl;
      roll = refl;
      fused_altitude = refl;
      vertical_speed = refl;
    },
    tt,
  ),
)

no_hook-alone : (m : _) → LeavesAlone no_hook m
no_hook-alone m = record { input = λ h f. refl; output = λ h f. refl }

process_all_masks_example :
    map
      (with_status 0)
      (process_all small_ops no_hook tt (redundant_init default_tuning 500 3) readings)
    ≡ map (with_status 0) (lane_all small_ops (processor_init default_tuning 500) readings)
process_all_masks_example =
    process_all_masks small_ops no_hook first third default_tuning 500 3 tt readings (λ e. cc)
      (no_hook-alone first) (no_hook-alone third) readings-IsNumeric

redundant_is_one_lane_example :
    process_all small_ops no_hook tt (redundant_init default_tuning 500 3) readings
    ≡ map
        (with_status (voter_bit voted))
        (lane_all small_ops (processor_init default_tuning 500) readings)
redundant_is_one_lane_example =
    redundant_is_one_lane small_ops default_tuning 500 3 readings readings-IsNumeric

-- A stale lane from the start, a bit of its input, and the demonstration's flip from 150 ms.
abbrev stale_pitch : LaneFault
stale_pitch = record {
  lane = 2;
  kind = output_stale;
  onset_ms = 0;
  end_ms = persistent;
  field = pitch;
  bit = 0;
  recorded = true;
}

injected_faults_masked_example :
    map (with_status 0) (
      process_all small_ops
        (some injector_hook)
        (injector_init (
          stale_pitch
          ∷ (record stale_pitch { kind = input_bit_flip; field = accel_x; bit = 31 })
          ∷ demo_lane_fault 2 150
          ∷ []))
        (redundant_init default_tuning 500 3)
        readings)
    ≡ map (with_status 0) (lane_all small_ops (processor_init default_tuning 500) readings)
unfolding demo_lane_fault
injected_faults_masked_example =
    injected_faults_masked small_ops second default_tuning 500 3
      (stale_pitch
        ∷ (record stale_pitch { kind = input_bit_flip; field = accel_x; bit = 31 })
        ∷ demo_lane_fault 2 150
        ∷ [])
      readings (refl, (refl, (refl, tt))) readings-IsNumeric
