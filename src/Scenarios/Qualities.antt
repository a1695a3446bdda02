-- ===== src/Scenarios/Qualities.antt =====
-- A grandmaster whose PLL loses its lock.
use ppsi.Bmc.DataSets.{bmc_m1}
use ppsi.Ds.{Globals, TimeOps, TimePropertiesDs, TimingMode}
use ppsi.Prelude.{
  Bool, List, Option, [], arith, false, none, pos, refl, some, to_word, true, ◌∷◌, ◌≡◌, ◌≢◌,
}
use ppsi.Quality.Bounds.{IsModest, bmc_update_clock_quality-IsModest}
use ppsi.Quality.Defaults.{bmc_set_default_device_attributes-flags}
use ppsi.Quality.Follow.{
  Represents, announced_class, answering, known_mode, run_updates, run_updates-Represents,
}
use ppsi.Quality.History.{
  IsTraceable, Tells, bmc_m1-undoes_degradation, degraded, run_updates-accuracy,
}
use ppsi.Quality.Tables.{clock_degradation, ptp_locked_row}
use ppsi.Quality.Update.{
  bmc_apply_configured_device_attributes, bmc_set_default_device_attributes,
  bmc_update_clock_quality, find_degradation, is_last, unset,
}
use ppsi.Quality.Worst.{IsWorst, bmc_update_clock_quality-worst, started}
use ppsi.Scenarios.Device.{sample, silent_ops}

-- A grandmaster of class 6, configured with an accuracy of 100 ns and GNSS time.
abbrev grandmaster : Globals
grandmaster = record sample {
  rt_opts = record (sample.rt_opts) {
    clock_quality_clock_class = 6;
    clock_quality_clock_accuracy = pos 0x21;
    clock_quality_offset_scaled_log_variance = pos 0xb900;
    time_source = pos 0x20;
    frequency_traceable = 1;
    time_traceable = 1;
  };
  default_ds = record (sample.default_ds) {
    clock_quality = record {
      clock_class = 6;
      clock_accuracy = 0x21;
      offset_scaled_log_variance = 0xb900;
    };
  };
}

abbrev unlocked_ops : TimeOps
unlocked_ops = answering silent_ops (some TimingMode.tm_unlocked)

grandmaster_row :
    find_degradation grandmaster.rt_opts.clock_quality_clock_class 0 clock_degradation
    ≡ some (0, ptp_locked_row)
unfolding find_degradation clock_degradation
grandmaster_row = refl

grandmaster-IsModest : IsModest grandmaster
unfolding to_word
grandmaster-IsModest = (omega arith, omega arith, omega arith, omega arith, refl, refl, refl)

bmc_update_clock_quality-IsModest_example :
    IsModest (bmc_update_clock_quality unlocked_ops grandmaster)
bmc_update_clock_quality-IsModest_example =
    bmc_update_clock_quality-IsModest unlocked_ops grandmaster 0x20 refl grandmaster-IsModest

grandmaster-Represents : Represents 6 0 none grandmaster
unfolding announced_class
grandmaster-Represents = (refl, refl, refl)

abbrev lost_and_found : List (Option TimingMode)
lost_and_found =
    some TimingMode.tm_unlocked
    ∷ none
    ∷ some TimingMode.tm_locked
    ∷ some TimingMode.tm_holdover
    ∷ []

run_updates-Represents_example :
    Represents 6 0
      (known_mode none lost_and_found)
      (run_updates silent_ops lost_and_found grandmaster)
run_updates-Represents_example =
    run_updates-Represents silent_ops lost_and_found 6 0 ptp_locked_row none grandmaster
      grandmaster_row grandmaster-Represents

-- The class after that run is the one of a holdover.
lost_and_found_class :
    (run_updates silent_ops lost_and_found grandmaster).default_ds.clock_quality.clock_class ≡ 7
unfolding known_mode announced_class
lost_and_found_class = run_updates-Represents_example.2

is_unlocked : TimingMode → Bool
is_unlocked TimingMode.tm_unlocked = true
is_unlocked mode = false

unlocked_is_lost : TimingMode.tm_unlocked ≢ TimingMode.tm_locked
unfolding is_unlocked
unlocked_is_lost e = cc

bmc_update_clock_quality-worst_example :
    IsWorst grandmaster ptp_locked_row.unlocked
      (bmc_update_clock_quality unlocked_ops (started grandmaster))
unfolding is_last
bmc_update_clock_quality-worst_example =
    bmc_update_clock_quality-worst unlocked_ops grandmaster 0 0x20 ptp_locked_row
      TimingMode.tm_unlocked grandmaster_row refl unlocked_is_lost refl refl (omega arith)

run_updates-accuracy_example :
    ((run_updates silent_ops (some TimingMode.tm_holdover ∷ []) (started grandmaster)
        ).default_ds.clock_quality.clock_accuracy
      ≡ 0x21)
    × ((run_updates silent_ops
          (some TimingMode.tm_unlocked ∷ some TimingMode.tm_holdover ∷ [])
          (started grandmaster)).default_ds.clock_quality.clock_accuracy
        ≡ 0xfe)
run_updates-accuracy_example =
    run_updates-accuracy silent_ops grandmaster 0x21 refl refl refl (omega arith) (omega arith)

grandmaster-IsTraceable : IsTraceable grandmaster 0x20
grandmaster-IsTraceable = record {
  class_is = refl;
  fresh = refl;
  source_is = refl;
  better = omega arith;
  frequency_is = refl;
  time_is = refl;
}

bmc_m1-undoes_degradation_example :
    (Tells (degraded silent_ops TimingMode.tm_unlocked grandmaster).time_properties_ds 0xa0 false
      × Tells
          (bmc_m1 silent_ops
            (degraded silent_ops TimingMode.tm_unlocked grandmaster)).time_properties_ds
          0x20
          true
      × ((bmc_m1 silent_ops (degraded silent_ops TimingMode.tm_unlocked grandmaster)
            ).parent_ds.grandmaster_clock_quality.clock_class
          ≡ 187))
    × (Tells (degraded silent_ops TimingMode.tm_holdover grandmaster).time_properties_ds 0xa0 true
        × Tells
            (bmc_m1 silent_ops
              (degraded silent_ops TimingMode.tm_holdover grandmaster)).time_properties_ds
            0x20
            true
        × ((bmc_m1 silent_ops (degraded silent_ops TimingMode.tm_holdover grandmaster)
              ).parent_ds.grandmaster_clock_quality.clock_class
            ≡ 7))
bmc_m1-undoes_degradation_example =
    bmc_m1-undoes_degradation silent_ops grandmaster 0x20 grandmaster-IsTraceable

-- No attribute is configured, as by default: -1 in an int, 255 in an octet.
abbrev unconfigured : Globals
unconfigured = record sample {
  rt_opts = record (sample.rt_opts) {
    clock_quality_clock_class = 193;
    clock_quality_clock_accuracy = unset;
    clock_quality_offset_scaled_log_variance = unset;
    time_source = unset;
    ptp_time_scale = 255;
    frequency_traceable = 255;
    time_traceable = 255;
  };
}

abbrev unconfigured_properties : TimePropertiesDs
unconfigured_properties =
    (bmc_apply_configured_device_attributes
      (bmc_set_default_device_attributes unconfigured)).time_properties_ds

bmc_set_default_device_attributes-flags_example :
    (unconfigured_properties.ptp_timescale ≡ true)
    × (unconfigured_properties.frequency_traceable ≡ true)
    × (unconfigured_properties.time_traceable ≡ true)
bmc_set_default_device_attributes-flags_example =
    bmc_set_default_device_attributes-flags unconfigured
