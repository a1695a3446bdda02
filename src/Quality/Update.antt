-- ===== src/Quality/Update.antt =====
-- The operations of proto-standard/bmc_clock_quality.c.
use ppsi.Ds.{ClockQuality, Globals, Output, RtOpts, TimeOps, TimePropertiesDs, TimingMode, emit}
use ppsi.Prelude.{
  Bool, List, Option, [], eqb_ℤ, false, if◌then◌else◌, is_set, ltb, ltb_ℤ, negsuc, none, pos, some,
  to_word, true, update, ℕ, ℤ, ◌%◌, ◌+◌, ◌==◌, ◌^◌, ◌∷◌,
}
use ppsi.Quality.Tables.{
  ClockDegradation, DefaultAttributes, Degradation, clock_degradation, default_device_attributes,
  default_for_others,
}

unfoldable pub find_degradation : ℕ → ℕ → List ClockDegradation → Option (ℕ × ClockDegradation)
find_degradation c i [] = none
find_degradation c i (row ∷ rows) =
    if c == row.clock_class then some (i, row) else find_degradation c (i + 1) rows

-- bmc_apply_configured_device_attributes; what the options hold is cut to the width of the field.
unfoldable pub bmc_apply_configured_device_attributes : Globals → Globals
bmc_apply_configured_device_attributes g =
    let opts = g.rt_opts in
    record g {
      default_ds = record (g.default_ds) {
        clock_quality = record {
          clock_class = opts.clock_quality_clock_class % 2 ^ 8;
          clock_accuracy = to_word 8 opts.clock_quality_clock_accuracy;
          offset_scaled_log_variance = to_word 16 opts.clock_quality_offset_scaled_log_variance;
        };
        priority1 = opts.priority1 % 2 ^ 8;
        priority2 = opts.priority2 % 2 ^ 8;
        domain_number = opts.domain_number % 2 ^ 8;
      };
      time_properties_ds = record (g.time_properties_ds) {
        time_source = to_word 8 opts.time_source;
        ptp_timescale = is_set opts.ptp_time_scale;
        frequency_traceable = is_set opts.frequency_traceable;
        time_traceable = is_set opts.time_traceable;
      };
    }

-- The attributes of a degraded clock: those of the table where they are worse than what is configured.
unfoldable pub degrade_quality : RtOpts → Degradation → ClockQuality → ClockQuality
degrade_quality opts d q = record {
  clock_class = d.clock_quality.clock_class;
  clock_accuracy =
      if ltb (to_word 8 opts.clock_quality_clock_accuracy) d.clock_quality.clock_accuracy
      then d.clock_quality.clock_accuracy
      else q.clock_accuracy;
  offset_scaled_log_variance =
      if ltb (to_word 16 opts.clock_quality_offset_scaled_log_variance)
        d.clock_quality.offset_scaled_log_variance
      then d.clock_quality.offset_scaled_log_variance
      else q.offset_scaled_log_variance;
}

unfoldable pub degrade_properties : RtOpts → Degradation → TimePropertiesDs → TimePropertiesDs
degrade_properties opts d prop = record prop {
  time_source =
      if ltb_ℤ opts.time_source (pos d.time_source) then d.time_source else prop.time_source;
  ptp_timescale = if is_set opts.ptp_time_scale then d.ptp_time_scale else prop.ptp_timescale;
  frequency_traceable =
      if is_set opts.frequency_traceable then d.frequency_traceable else prop.frequency_traceable;
  time_traceable = if is_set opts.time_traceable then d.time_traceable else prop.time_traceable;
}

unfoldable pub degrade : Degradation → Globals → Globals
degrade d g = record g {
  default_ds = record (g.default_ds) {
    clock_quality = degrade_quality g.rt_opts d g.default_ds.clock_quality;
  };
  time_properties_ds = degrade_properties g.rt_opts d g.time_properties_ds;
}

unfoldable pub restore : ClockDegradation → Globals → Globals
restore row g =
    let g1 = bmc_apply_configured_device_attributes g in
    if row.enable_timing_output then emit g1 (Output.enable_timing_output true) else g1

unfoldable pub enter_mode : ClockDegradation → TimingMode → Globals → Globals
enter_mode row TimingMode.tm_locked g = restore row g
enter_mode row TimingMode.tm_unlocked g = degrade row.unlocked g
enter_mode row TimingMode.tm_holdover g = degrade row.holdover g

unfoldable pub is_last : Option TimingMode → TimingMode → Bool
is_last (some TimingMode.tm_locked) TimingMode.tm_locked = true
is_last (some TimingMode.tm_unlocked) TimingMode.tm_unlocked = true
is_last (some TimingMode.tm_holdover) TimingMode.tm_holdover = true
is_last last mode = false

-- *lastTimingModeState = timing_mode_state
abbrev pub note_mode : ℕ → TimingMode → Globals → Globals
note_mode i mode g = record g {
  last_timing_mode_state = update g.last_timing_mode_state i (some mode);
}

unfoldable pub follow_mode : ℕ → ClockDegradation → Globals → Option TimingMode → Globals
follow_mode i row g none = g
follow_mode i row g (some mode) =
    if is_last (g.last_timing_mode_state i) mode
    then g
    else note_mode i mode (enter_mode row mode g)

unfoldable pub update_by : TimeOps → Globals → Option (ℕ × ClockDegradation) → Globals
update_by ops g none = g
update_by ops g (some (i, row)) = follow_mode i row g (ops.get_gm_lock_state g)

unfoldable pub bmc_update_clock_quality : TimeOps → Globals → Globals
bmc_update_clock_quality ops g =
    update_by ops g (find_degradation g.rt_opts.clock_quality_clock_class 0 clock_degradation)

unfoldable pub find_default : ℕ → List (ℕ × DefaultAttributes) → DefaultAttributes
find_default c [] = default_for_others
find_default c ((c', d) ∷ rows) = if c' == c then d else find_default c rows

abbrev pub unset : ℤ
unset = negsuc 0

-- An octet is never -1: the last three tests always fail.
unfoldable pub fill_octet : ℕ → Bool → ℕ
fill_octet n b = if eqb_ℤ (pos n) unset then (if b then 1 else 0) else n

unfoldable pub fill_int : ℤ → ℕ → ℤ
fill_int z n = if eqb_ℤ z unset then pos n else z

unfoldable pub fill_options : DefaultAttributes → RtOpts → RtOpts
fill_options d opts = record opts {
  clock_quality_clock_accuracy = fill_int opts.clock_quality_clock_accuracy d.clock_accuracy;
  clock_quality_offset_scaled_log_variance =
      fill_int opts.clock_quality_offset_scaled_log_variance d.offset_scaled_log_variance;
  time_source = fill_int opts.time_source d.time_source;
  ptp_time_scale = fill_octet opts.ptp_time_scale d.ptp_time_scale;
  frequency_traceable = fill_octet opts.frequency_traceable d.frequency_traceable;
  time_traceable = fill_octet opts.time_traceable d.time_traceable;
}

unfoldable pub bmc_set_default_device_attributes : Globals → Globals
bmc_set_default_device_attributes g = record g {
  rt_opts =
      fill_options (find_default g.rt_opts.clock_quality_clock_class default_device_attributes)
        g.rt_opts;
}
