-- ===== src/Quality/Tables.antt =====
-- The tables of proto-standard/bmc_clock_quality.c, built without CONFIG_CODEOPT_WRPC_SIZE, with the
-- constants of include/ppsi/constants.h and include/ppsi/ieee1588_types.h.
use ppsi.Ds.{ClockQuality}
use ppsi.Prelude.{Bool, List, [], false, true, ℕ, ◌∷◌}
use ppsi.Timeout.Reset.{scale}

-- deviceAttributesDegradation_t
pub record Degradation : Type 0 where
  pub clock_quality : ClockQuality
  pub time_source : ℕ
  pub ptp_time_scale : Bool
  pub frequency_traceable : Bool
  pub time_traceable : Bool

-- clockDegradation_t
pub record ClockDegradation : Type 0 where
  pub clock_class : ℕ
  pub enable_timing_output : Bool
  pub holdover : Degradation
  pub unlocked : Degradation

-- defaultDeviceAttributes_t; the class is compared by the search for a row.
pub record DefaultAttributes : Type 0 where
  pub clock_accuracy : ℕ
  pub time_source : ℕ
  pub offset_scaled_log_variance : ℕ
  pub ptp_time_scale : Bool
  pub frequency_traceable : Bool
  pub time_traceable : Bool

abbrev pub ptp_gm_locked : ℕ
ptp_gm_locked = 6

abbrev pub ptp_gm_holdover : ℕ
ptp_gm_holdover = 7

abbrev pub ptp_gm_unlocked_a : ℕ
ptp_gm_unlocked_a = 52

abbrev pub ptp_gm_unlocked_b : ℕ
ptp_gm_unlocked_b = 187

abbrev pub arb_gm_locked : ℕ
arb_gm_locked = 13

abbrev pub arb_gm_holdover : ℕ
arb_gm_holdover = 14

abbrev pub arb_gm_unlocked_a : ℕ
arb_gm_unlocked_a = 58

abbrev pub arb_gm_unlocked_b : ℕ
arb_gm_unlocked_b = 193

abbrev pub accuracy_25_ns : ℕ
accuracy_25_ns = 0x20

abbrev pub accuracy_100_ns : ℕ
accuracy_100_ns = 0x21

abbrev pub accuracy_unknown : ℕ
accuracy_unknown = 0xfe

-- The variances of a locked clock and of every other
abbrev pub variance_locked : ℕ
variance_locked = 0xb900

abbrev pub variance_default : ℕ
variance_default = 0xc71d

abbrev pub atomic_clock : ℕ
atomic_clock = 0x10

abbrev pub gnss : ℕ
gnss = 0x20

abbrev pub internal_oscillator : ℕ
internal_oscillator = 0xa0

-- What the degraded rows have in common
abbrev pub degraded_to : (clock_class accuracy : ℕ) (scale traceable : Bool) → Degradation
degraded_to clock_class accuracy scale traceable = record {
  clock_quality = record {
    clock_class = clock_class;
    clock_accuracy = accuracy;
    offset_scaled_log_variance = variance_default;
  };
  time_source = internal_oscillator;
  ptp_time_scale = scale;
  frequency_traceable = traceable;
  time_traceable = traceable;
}

-- clockDegradation
abbrev pub ptp_locked_row : ClockDegradation
ptp_locked_row = record {
  clock_class = ptp_gm_locked;
  enable_timing_output = true;
  holdover = degraded_to ptp_gm_holdover accuracy_100_ns true true;
  unlocked = degraded_to ptp_gm_unlocked_b accuracy_unknown true false;
}

abbrev pub arb_locked_row : ClockDegradation
arb_locked_row = record {
  clock_class = arb_gm_locked;
  enable_timing_output = false;
  holdover = degraded_to arb_gm_holdover accuracy_25_ns false false;
  unlocked = degraded_to arb_gm_unlocked_b accuracy_unknown false false;
}

abbrev pub arb_unlocked_a_row : ClockDegradation
arb_unlocked_a_row = record {
  clock_class = arb_gm_unlocked_a;
  enable_timing_output = false;
  holdover = degraded_to arb_gm_unlocked_a accuracy_unknown false false;
  unlocked = degraded_to arb_gm_unlocked_a accuracy_unknown false false;
}

abbrev pub arb_unlocked_b_row : ClockDegradation
arb_unlocked_b_row = record {
  clock_class = arb_gm_unlocked_b;
  enable_timing_output = false;
  holdover = degraded_to arb_gm_unlocked_b accuracy_unknown false false;
  unlocked = degraded_to arb_gm_unlocked_b accuracy_unknown false false;
}

unfoldable pub clock_degradation : List ClockDegradation
clock_degradation = ptp_locked_row ∷ arb_locked_row ∷ arb_unlocked_a_row ∷ arb_unlocked_b_row ∷ []

-- A row of defaultDeviceAttributes
abbrev pub default_row : (accuracy variance source : ℕ) (scale traceable : Bool) → DefaultAttributes
default_row accuracy variance source scale traceable = record {
  clock_accuracy = accuracy;
  time_source = source;
  offset_scaled_log_variance = variance;
  ptp_time_scale = scale;
  frequency_traceable = traceable;
  time_traceable = traceable;
}

-- defaultDeviceAttributes, with the class of each row
unfoldable pub default_device_attributes : List (ℕ × DefaultAttributes)
default_device_attributes =
    (ptp_gm_locked, default_row accuracy_100_ns variance_locked gnss true true)
    ∷ (ptp_gm_holdover, default_row accuracy_100_ns variance_default internal_oscillator true true)
    ∷ (
      ptp_gm_unlocked_a,
      default_row accuracy_unknown variance_default internal_oscillator true false,
    )
    ∷ (
      ptp_gm_unlocked_b,
      default_row accuracy_unknown variance_default internal_oscillator true false,
    )
    ∷ (arb_gm_locked, default_row accuracy_25_ns variance_locked atomic_clock false false)
    ∷ (arb_gm_holdover, default_row accuracy_25_ns variance_default internal_oscillator false false)
    ∷ (
      arb_gm_unlocked_a,
      default_row accuracy_25_ns variance_default internal_oscillator false false,
    )
    ∷ (
      arb_gm_unlocked_b,
      default_row accuracy_25_ns variance_default internal_oscillator false false,
    )
    ∷ []

-- The last row, for any other class
abbrev pub default_for_others : DefaultAttributes
default_for_others = default_row accuracy_unknown variance_default internal_oscillator false false
