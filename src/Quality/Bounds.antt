-- ===== src/Quality/Bounds.antt =====
-- bmc_update_clock_quality never makes the clock look better than it is configured.
use mathlib.Core.Path.{subst}
use ppsi.Ds.{ClockQuality, Globals, RtOpts, TimeOps, TimePropertiesDs, TimingMode}
use ppsi.Prelude.{
  Bool, Option, arith, false, if_either, if◌then◌else◌, is_set, ltb, ltb_ℤ, none, not, pos, refl,
  some, sym, to_word, true, ℕ, ◌%◌, ◌^◌, ◌||◌, ◌≡◌, ◌≤◌,
}
use ppsi.Quality.Lookup.{find_degradation-by}
use ppsi.Quality.Tables.{
  ClockDegradation, Degradation, arb_locked_row, arb_unlocked_a_row, arb_unlocked_b_row,
  ptp_locked_row,
}
use ppsi.Quality.Update.{
  bmc_apply_configured_device_attributes, bmc_update_clock_quality, degrade, degrade_properties,
  degrade_quality, enter_mode, follow_mode, is_last, restore, update_by,
}

-- The announced attributes are not better than the configured ones.
abbrev pub NotBetter : RtOpts → ClockQuality → TimePropertiesDs → Type 0
NotBetter opts q prop =
    (opts.clock_quality_clock_class % 2 ^ 8 ≤ q.clock_class)
    × (to_word 8 opts.clock_quality_clock_accuracy ≤ q.clock_accuracy)
    × (to_word 16 opts.clock_quality_offset_scaled_log_variance ≤ q.offset_scaled_log_variance)
    × (to_word 8 opts.time_source ≤ prop.time_source)
    × ((not prop.ptp_timescale || is_set opts.ptp_time_scale) ≡ true)
    × ((not prop.frequency_traceable || is_set opts.frequency_traceable) ≡ true)
    × ((not prop.time_traceable || is_set opts.time_traceable) ≡ true)

abbrev pub IsModest : Globals → Type 0
IsModest g = NotBetter g.rt_opts g.default_ds.clock_quality g.time_properties_ds

raised : (own new old : ℕ) → own ≤ old → own ≤ (if ltb own new then new else old)
raised own new old h = ground arith

source_raised :
    (n new old : ℕ)
    → to_word 8 (pos n) ≤ old
    → to_word 8 (pos n) ≤ (if ltb_ℤ (pos n) (pos new) then new else old)
unfolding to_word
source_raised n new old h = ground arith

flag_lowered :
    (own new old : Bool) → (not old || own) ≡ true → (not (if own then new else old) || own) ≡ true
flag_lowered true true old h = refl
flag_lowered true false old h = refl
flag_lowered false new old h = h

degrade-IsModest :
    (d : Degradation) (g : Globals) (n : ℕ)
    → g.rt_opts.time_source ≡ pos n
    → g.rt_opts.clock_quality_clock_class % 2 ^ 8 ≤ d.clock_quality.clock_class
    → IsModest g
    → IsModest (degrade d g)
unfolding degrade degrade_quality degrade_properties
degrade-IsModest d g n src c (hc, ha, hv, hs, hp, hf, ht) =
    let opts = g.rt_opts in
    let prop = g.time_properties_ds in
    (
      c,
      raised (to_word 8 opts.clock_quality_clock_accuracy) d.clock_quality.clock_accuracy
          g.default_ds.clock_quality.clock_accuracy ha,
      raised (to_word 16 opts.clock_quality_offset_scaled_log_variance)
          d.clock_quality.offset_scaled_log_variance
          g.default_ds.clock_quality.offset_scaled_log_variance hv,
      subst
          (λ z.
            to_word 8 z ≤ (if ltb_ℤ z (pos d.time_source) then d.time_source else prop.time_source))
          (sym src)
          (source_raised n d.time_source prop.time_source
            (subst (λ z. to_word 8 z ≤ prop.time_source) src hs)),
      flag_lowered (is_set opts.ptp_time_scale) d.ptp_time_scale prop.ptp_timescale hp,
      flag_lowered (is_set opts.frequency_traceable) d.frequency_traceable prop.frequency_traceable
          hf,
      flag_lowered (is_set opts.time_traceable) d.time_traceable prop.time_traceable ht,
    )

same_flag : (b : Bool) → (not b || b) ≡ true
same_flag true = refl
same_flag false = refl

apply-IsModest : (g : Globals) → IsModest (bmc_apply_configured_device_attributes g)
unfolding bmc_apply_configured_device_attributes
apply-IsModest g =
    let opts = g.rt_opts in
    (
      omega arith,
      omega arith,
      omega arith,
      omega arith,
      same_flag (is_set opts.ptp_time_scale),
      same_flag (is_set opts.frequency_traceable),
      same_flag (is_set opts.time_traceable),
    )

restore-IsModest : (row : ClockDegradation) (g : Globals) → IsModest (restore row g)
unfolding restore
restore-IsModest row g =
    if_either row.enable_timing_output IsModest (apply-IsModest g) (apply-IsModest g)

-- A row only lowers the class that it is for.
abbrev pub IsLowering : ℕ → ClockDegradation → Type 0
IsLowering c row =
    (c % 2 ^ 8 ≤ row.holdover.clock_quality.clock_class)
    × (c % 2 ^ 8 ≤ row.unlocked.clock_quality.clock_class)

enter_mode-IsModest :
    (row : ClockDegradation) (mode : TimingMode) (g : Globals) (n : ℕ)
    → g.rt_opts.time_source ≡ pos n
    → IsLowering g.rt_opts.clock_quality_clock_class row
    → IsModest g
    → IsModest (enter_mode row mode g)
unfolding enter_mode
enter_mode-IsModest row TimingMode.tm_locked g n src low h = restore-IsModest row g
enter_mode-IsModest row TimingMode.tm_unlocked g n src low h =
    degrade-IsModest row.unlocked g n src low.1 h
enter_mode-IsModest row TimingMode.tm_holdover g n src low h =
    degrade-IsModest row.holdover g n src low.0 h

follow_mode-IsModest :
    (i : ℕ) (row : ClockDegradation) (g : Globals) (reply : Option TimingMode) (n : ℕ)
    → g.rt_opts.time_source ≡ pos n
    → IsLowering g.rt_opts.clock_quality_clock_class row
    → IsModest g
    → IsModest (follow_mode i row g reply)
unfolding follow_mode
follow_mode-IsModest i row g none n src low h = h
follow_mode-IsModest i row g (some mode) n src low h =
    if_either (is_last (g.last_timing_mode_state i) mode) IsModest h
      (enter_mode-IsModest row mode g n src low h)

-- An update of the clock quality keeps the invariant that no announced attribute, clock class included,
-- is better than the configured one, when the configured time source is set.
pub bmc_update_clock_quality-IsModest :
    (ops : TimeOps) (g : Globals) (n : ℕ)
    → g.rt_opts.time_source ≡ pos n
    → IsModest g
    → IsModest (bmc_update_clock_quality ops g)
unfolding bmc_update_clock_quality update_by
bmc_update_clock_quality-IsModest ops g n src h =
    let follow =
      λ (i : ℕ) (row : ClockDegradation) (low : IsLowering g.rt_opts.clock_quality_clock_class row).
        follow_mode-IsModest i row g (ops.get_gm_lock_state g) n src low h in
    find_degradation-by g.rt_opts.clock_quality_clock_class
      (λ found. IsModest (update_by ops g found)) h
      (λ e. follow 0 ptp_locked_row (omega arith, omega arith))
      (λ e. follow 1 arb_locked_row (omega arith, omega arith))
      (λ e. follow 2 arb_unlocked_a_row (omega arith, omega arith))
      (λ e. follow 3 arb_unlocked_b_row (omega arith, omega arith))
