-- ===== src/Bmc/Slave.antt =====
-- bmc_s1: the port is synchronized to Ebest (table 16 of the standard).
use ppsi.Bmc.Compare.{bmc_pidcmp}
use ppsi.Bmc.DataSets.{flag}
use ppsi.Ds.{BmcHooks, FrgnMaster, Globals, Output, TimeOps, TimePropertiesDs, emit, to_gm_by_bmca}
use ppsi.Prelude.{
  Bool, Option, eqb_ℤ, false, if◌then◌else◌, is_zero, leb, none, not, some, true, ℕ, ℤ, ◌%◌, ◌&&◌,
  ◌*◌, ◌+◌, ◌==◌, ◌^◌, ◌||◌,
}
use ppsi.Timeout.Defs.{pp_timeout_disable}

-- `prop` with the offset and the leap flags that the master announces
unfoldable pub received_flags : TimePropertiesDs → FrgnMaster → TimePropertiesDs
received_flags prop m = record prop {
  leap59 = flag m 2;
  leap61 = flag m 1;
  current_utc_offset = m.current_utc_offset;
}

abbrev pub set_prop : Globals → TimePropertiesDs → Globals
set_prop g prop = record g { time_properties_ds = prop }

abbrev same_flag : Bool → Bool → Bool
same_flag true b = b
same_flag false b = not b

-- Noon to midnight, away from midnight: the announced flags are taken over, and handed to the system
-- if they differ from its own.
unfoldable pub s1_afternoon : Globals → FrgnMaster → Option (ℤ × Bool × Bool) → Globals
s1_afternoon g m none = set_prop g (received_flags g.time_properties_ds m)
s1_afternoon g m (some (offset, leap59, leap61)) =
    if not (same_flag leap59 (flag m 2))
      || not (same_flag leap61 (flag m 1))
      || not (eqb_ℤ offset m.current_utc_offset)
    then emit (set_prop g (received_flags g.time_properties_ds m))
        (Output.set_utc_offset m.current_utc_offset (flag m 2) (flag m 1))
    else g

-- Shortly after midnight: the system's offset, if it has one, and no leap second.
unfoldable pub s1_after_midnight : Globals → Option (ℤ × Bool × Bool) → Globals
s1_after_midnight g utc =
    let prop = g.time_properties_ds in
    set_prop g (record prop {
      current_utc_offset = elim utc as (λ u. ℤ) [
        | none ↦ prop.current_utc_offset
        | some (offset, l59, l61) ↦ offset
      ];
      leap59 = false;
      leap61 = false;
    })

-- The rest of the morning: a new offset is taken over and told to the system.
unfoldable pub s1_morning : Globals → FrgnMaster → Globals
s1_morning g m =
    let g' =
      if eqb_ℤ g.time_properties_ds.current_utc_offset m.current_utc_offset
      then g
      else emit
          (set_prop g (record (g.time_properties_ds) { current_utc_offset = m.current_utc_offset }))
          Output.set_tai_offset in
    set_prop g' (record (g'.time_properties_ds) { leap59 = flag m 2; leap61 = flag m 1 })

-- By the time of day: two announce intervals before midnight nothing is updated.
unfoldable pub s1_by_time : TimeOps → Globals → ℕ → FrgnMaster → ℕ × ℕ × ℕ → Globals
s1_by_time ops g ppi m (hours, minutes, seconds) =
    let margin = 2 * 2 ^ (g.inst ppi).port_ds.log_announce_interval in
    if leb 12 hours
    then (if hours == 23 && minutes == 59 && leb 60 (seconds + margin)
        then g
        else s1_afternoon g m (ops.get_utc_offset g))
    else if hours == 0 && minutes == 0 && leb seconds margin
    then s1_after_midnight g (ops.get_utc_offset g)
    else s1_morning g m

unfoldable pub s1_utc : TimeOps → Globals → ℕ → FrgnMaster → Globals
s1_utc ops g ppi m =
    if flag m 8
    then elim (ops.get_utc_time g) [
      | none ↦ set_prop g (received_flags g.time_properties_ds m)
      | some time ↦ s1_by_time ops g ppi m time
    ]
    else set_prop g (received_flags g.time_properties_ds m)

-- The current and parent data sets.
unfoldable pub s1_parent : Globals → FrgnMaster → Globals
s1_parent g m = record g {
  current_ds = record (g.current_ds) { steps_removed = (m.steps_removed + 1) % 2 ^ 16 };
  parent_ds = record (g.parent_ds) {
    new_grandmaster =
        not (is_zero (bmc_pidcmp g.parent_ds.parent_port_identity m.source_port_identity));
    parent_port_identity = m.source_port_identity;
    grandmaster_identity = m.grandmaster_identity;
    grandmaster_clock_quality = m.grandmaster_clock_quality;
    grandmaster_priority1 = m.grandmaster_priority1;
    grandmaster_priority2 = m.grandmaster_priority2;
  };
  time_properties_ds = record (g.time_properties_ds) { ptp_timescale = flag m 8 };
}

-- The flags that are always taken from the master.
unfoldable pub s1_flags : Globals → FrgnMaster → Globals
s1_flags g m = set_prop g (record (g.time_properties_ds) {
  current_utc_offset_valid = flag m 4;
  time_traceable = flag m 16;
  frequency_traceable = flag m 32;
  ptp_timescale = flag m 8;
  time_source = m.time_source;
})

unfoldable pub bmc_s1 : TimeOps → BmcHooks → Globals → ℕ → FrgnMaster → Globals
bmc_s1 ops hooks g ppi m =
    let g = s1_utc ops (s1_parent g m) ppi m in
    let g = pp_timeout_disable (s1_flags g m) 0 to_gm_by_bmca in hooks.bmca_s1 g ppi m
