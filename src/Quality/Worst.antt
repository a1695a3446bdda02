-- ===== src/Quality/Worst.antt =====
-- From the configured attributes, a loss of the lock announces the worse of each pair; after a first
-- degradation it does not.
use mathlib.Core.Path.{subst}
use Prim.Native.Nat.{max}
use ppsi.Ds.{ClockQuality, Globals, RtOpts, TimeOps, TimePropertiesDs, TimingMode}
use ppsi.Prelude.{
  Bool, arith, false, if◌then◌else◌, is_set, ltb, ltb_ℤ, pos, refl, some, sym, to_word, true, ℕ,
  ◌&&◌, ◌<◌, ◌≡◌, ◌≢◌,
}
use ppsi.Quality.Tables.{ClockDegradation, Degradation, clock_degradation}
use ppsi.Quality.Update.{
  bmc_apply_configured_device_attributes, bmc_update_clock_quality, degrade, degrade_properties,
  degrade_quality, enter_mode, find_degradation, follow_mode, is_last, note_mode, update_by,
}

-- clkDeg->unlocked or clkDeg->holdover
abbrev pub attributes_in : ClockDegradation → TimingMode → Degradation
attributes_in row TimingMode.tm_unlocked = row.unlocked
attributes_in row mode = row.holdover

abbrev pub worst_quality : RtOpts → Degradation → ClockQuality
worst_quality opts d = record {
  clock_class = d.clock_quality.clock_class;
  clock_accuracy = max (to_word 8 opts.clock_quality_clock_accuracy) d.clock_quality.clock_accuracy;
  offset_scaled_log_variance =
      max (to_word 16 opts.clock_quality_offset_scaled_log_variance)
        d.clock_quality.offset_scaled_log_variance;
}

abbrev pub worst_properties : RtOpts → Degradation → TimePropertiesDs → TimePropertiesDs
worst_properties opts d prop = record prop {
  time_source = max (to_word 8 opts.time_source) d.time_source;
  ptp_timescale = is_set opts.ptp_time_scale && d.ptp_time_scale;
  frequency_traceable = is_set opts.frequency_traceable && d.frequency_traceable;
  time_traceable = is_set opts.time_traceable && d.time_traceable;
}

worse_number : (own new : ℕ) → (if ltb own new then new else own) ≡ max own new
worse_number own new = ground arith

worse_source :
    (n new : ℕ)
    → n < 256
    → (if ltb_ℤ (pos n) (pos new) then new else to_word 8 (pos n)) ≡ max (to_word 8 (pos n)) new
unfolding to_word
worse_source n new h = ground arith

worse_flag : (own new : Bool) → (if own then new else own) ≡ (own && new)
worse_flag true new = refl
worse_flag false new = refl

-- An update with a row and a mode that has changed
pub update-changed :
    (ops : TimeOps) (g : Globals) (i : ℕ) (row : ClockDegradation) (mode : TimingMode)
    → find_degradation g.rt_opts.clock_quality_clock_class 0 clock_degradation ≡ some (i, row)
    → ops.get_gm_lock_state g ≡ some mode
    → is_last (g.last_timing_mode_state i) mode ≡ false
    → bmc_update_clock_quality ops g ≡ note_mode i mode (enter_mode row mode g)
unfolding bmc_update_clock_quality update_by follow_mode
update-changed ops g i row mode found answered changed = rw found (rw answered (rw changed refl))

-- The attributes that a device starts with
abbrev pub started : Globals → Globals
started g = bmc_apply_configured_device_attributes g

degrade_quality-started :
    (opts : RtOpts) (d : Degradation) (q : ClockQuality)
    → q.clock_accuracy ≡ to_word 8 opts.clock_quality_clock_accuracy
    → q.offset_scaled_log_variance ≡ to_word 16 opts.clock_quality_offset_scaled_log_variance
    → degrade_quality opts d q ≡ worst_quality opts d
unfolding degrade_quality
degrade_quality-started opts d q ea ev = rw ea (
    rw ev (λ k. record {
      clock_class = d.clock_quality.clock_class;
      clock_accuracy =
          worse_number (to_word 8 opts.clock_quality_clock_accuracy) d.clock_quality.clock_accuracy
            k;
      offset_scaled_log_variance =
          worse_number (to_word 16 opts.clock_quality_offset_scaled_log_variance)
            d.clock_quality.offset_scaled_log_variance k;
    }))

degrade_properties-started :
    (g : Globals) (d : Degradation) (n : ℕ)
    → g.rt_opts.time_source ≡ pos n
    → n < 256
    → degrade_properties g.rt_opts d (started g).time_properties_ds
      ≡ worst_properties g.rt_opts d (started g).time_properties_ds
unfolding degrade_properties bmc_apply_configured_device_attributes
degrade_properties-started g d n src h =
    let opts = g.rt_opts in
    λ k. record (g.time_properties_ds) {
      time_source =
          subst
            (λ z.
              (if ltb_ℤ z (pos d.time_source) then d.time_source else to_word 8 z)
              ≡ max (to_word 8 z) d.time_source)
            (sym src) (worse_source n d.time_source h) k;
      ptp_timescale = worse_flag (is_set opts.ptp_time_scale) d.ptp_time_scale k;
      frequency_traceable = worse_flag (is_set opts.frequency_traceable) d.frequency_traceable k;
      time_traceable = worse_flag (is_set opts.time_traceable) d.time_traceable k;
    }

-- The attributes of `h` are the worse of what `g` is configured with and of `d`.
abbrev pub IsWorst : Globals → Degradation → Globals → Type 0
IsWorst g d h =
    (h.default_ds.clock_quality ≡ worst_quality g.rt_opts d)
    × (h.time_properties_ds ≡ worst_properties g.rt_opts d (started g).time_properties_ds)

degrade-IsWorst :
    (g : Globals) (d : Degradation) (n : ℕ)
    → g.rt_opts.time_source ≡ pos n
    → n < 256
    → IsWorst g d (degrade d (started g))
unfolding degrade bmc_apply_configured_device_attributes
degrade-IsWorst g d n src h = (
  degrade_quality-started g.rt_opts d (started g).default_ds.clock_quality refl refl,
  degrade_properties-started g d n src h,
)

enter_mode-IsWorst :
    (g : Globals) (row : ClockDegradation) (mode : TimingMode) (n : ℕ)
    → mode ≢ TimingMode.tm_locked
    → g.rt_opts.time_source ≡ pos n
    → n < 256
    → IsWorst g (attributes_in row mode) (enter_mode row mode (started g))
unfolding enter_mode
enter_mode-IsWorst g row TimingMode.tm_locked n lost src h = absurd (lost refl)
enter_mode-IsWorst g row TimingMode.tm_unlocked n lost src h =
    degrade-IsWorst g row.unlocked n src h
enter_mode-IsWorst g row TimingMode.tm_holdover n lost src h =
    degrade-IsWorst g row.holdover n src h

-- With the configured attributes applied, an update to holdover or to unlocked takes the class of the
-- table and, of each other attribute, the worse of the configured value and the table's: the greater
-- accuracy, variance and time source, and a flag only when both are set. The time source is configured as
-- an octet.
pub bmc_update_clock_quality-worst :
    (ops : TimeOps) (g : Globals) (i n : ℕ) (row : ClockDegradation) (mode : TimingMode)
    → find_degradation g.rt_opts.clock_quality_clock_class 0 clock_degradation ≡ some (i, row)
    → ops.get_gm_lock_state (started g) ≡ some mode
    → mode ≢ TimingMode.tm_locked
    → is_last (g.last_timing_mode_state i) mode ≡ false
    → g.rt_opts.time_source ≡ pos n
    → n < 256
    → ((bmc_update_clock_quality ops (started g)).default_ds.clock_quality
        ≡ worst_quality g.rt_opts (attributes_in row mode))
      × ((bmc_update_clock_quality ops (started g)).time_properties_ds
          ≡ worst_properties g.rt_opts (attributes_in row mode) (started g).time_properties_ds)
unfolding enter_mode degrade degrade_quality degrade_properties
    bmc_apply_configured_device_attributes
bmc_update_clock_quality-worst ops g i n row mode found answered lost changed src h =
    subst (IsWorst g (attributes_in row mode))
      (sym (update-changed ops (started g) i row mode found answered changed))
      (enter_mode-IsWorst g row mode n lost src h)
