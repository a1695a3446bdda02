-- ===== src/Bmc/DataSets.antt =====
-- The updates of the data sets on a state decision: bmc_m1, bmc_m2, bmc_m3 and bmc_s1 (tables 13, 14
-- and 16 of the standard). bmc_p1 and bmc_p2 are empty.
use Prim.Native.Nat.{bit_and}
use ppsi.Ds.{FrgnMaster, Globals, Output, TimeOps, TimePropertiesDs, emit, to_gm_by_bmca}
use ppsi.Prelude.{
  Bool, Option, eqb_ℤ, false, if◌then◌else◌, is_set, ltb, none, not, pos, some, to_word, true, ℕ, ℤ,
  ◌*◌, ◌==◌,
}
use ppsi.Timeout.Defs.{pp_timeout, pp_timeout_disable, pp_timeout_is_disabled, pp_timeout_set}

-- PP_DEFAULT_UTC_OFFSET
abbrev pub default_utc_offset : ℤ
default_utc_offset = pos 37

-- `flagField[1] & v` of a foreign master, as a truth value
unfoldable pub flag : FrgnMaster → ℕ → Bool
flag m v = not (bit_and m.flag_field_1 v == 0)

-- The part of bmc_m1 on the UTC offset of a PTP timescale.
unfoldable pub m1_ptp_offset : Globals → Option (ℤ × Bool × Bool) → Globals
m1_ptp_offset g utc =
    let prop = g.time_properties_ds in
    let offset = elim utc as (λ u. ℤ) [
      | none ↦ default_utc_offset
      | some (offset, l59, l61) ↦ offset
    ] in
    let g' =
      if eqb_ℤ prop.current_utc_offset offset
      then g
      else emit (record g { time_properties_ds = record prop { current_utc_offset = offset } })
          Output.set_tai_offset in
    let prop' = g'.time_properties_ds in
    record g' {
      time_properties_ds = elim utc as (λ u. TimePropertiesDs) [
        | none ↦ record prop' { current_utc_offset_valid = false; leap59 = false; leap61 = false }
        | some (offset', l59, l61) ↦ record prop' {
          current_utc_offset_valid = true;
          leap59 = l59;
          leap61 = l61;
        }
      ];
    }

-- The same for an arbitrary timescale.
unfoldable pub m1_arb_offset : Globals → Globals
m1_arb_offset g = record g {
  time_properties_ds = record (g.time_properties_ds) {
    current_utc_offset = default_utc_offset;
    current_utc_offset_valid = false;
    leap59 = false;
    leap61 = false;
  };
}

-- The current and parent data sets of bmc_m1: the device itself is the parent and the grandmaster.
unfoldable pub m1_parent : Globals → Globals
m1_parent g =
    let defds = g.default_ds in
    emit
      (record g {
        current_ds = record { steps_removed = 0; offset_from_master = pos 0; mean_delay = pos 0 };
        parent_ds = record {
          parent_port_identity = record { clock_identity = defds.clock_identity; port_number = 0 };
          observed_parent_offset_scaled_log_variance = 0;
          observed_parent_clock_phase_change_rate = pos 0;
          grandmaster_identity = defds.clock_identity;
          grandmaster_clock_quality = defds.clock_quality;
          grandmaster_priority1 = defds.priority1;
          grandmaster_priority2 = defds.priority2;
          new_grandmaster = false;
        };
      })
      Output.clear_servo_delays

-- The traceability and the time source come from the run-time options.
unfoldable pub m1_source : Globals → Globals
m1_source g = record g {
  time_properties_ds = record (g.time_properties_ds) {
    time_traceable = is_set g.rt_opts.time_traceable;
    frequency_traceable = is_set g.rt_opts.frequency_traceable;
    time_source = to_word 8 g.rt_opts.time_source;
  };
}

unfoldable pub bmc_m1 : TimeOps → Globals → Globals
bmc_m1 ops g =
    let g = m1_parent g in
    m1_source (
      if g.time_properties_ds.ptp_timescale
      then m1_ptp_offset g (ops.get_utc_offset g)
      else m1_arb_offset g)

-- After bmc_m1, the timer after which a grandmaster by the BMCA outputs its timing.
unfoldable pub bmc_m2 : TimeOps → Globals → Globals
bmc_m2 ops g =
    let g = bmc_m1 ops g in
    let delay = g.rt_opts.gm_delay_to_gen_pps_sec in
    if ltb 0 delay
    then (if pp_timeout_is_disabled g 0 to_gm_by_bmca
        then pp_timeout_set g 0 to_gm_by_bmca (pos (delay * 1000))
        else if pp_timeout g 0 to_gm_by_bmca
        then emit (pp_timeout_disable g 0 to_gm_by_bmca) (Output.enable_timing_output true)
        else g)
    else g

unfoldable pub bmc_m3 : Globals → Globals
bmc_m3 g =
    if ltb 0 g.rt_opts.gm_delay_to_gen_pps_sec then pp_timeout_disable g 0 to_gm_by_bmca else g
