-- ===== src/Bmc/Decision.antt =====
-- The state decision algorithm (figure 26 of the standard), a function for each label of the source.
use ppsi.Bmc.Compare.{bmc_dataset_cmp, bmc_gm_cmp, bmc_pidcmp, bmc_topology_cmp}
use ppsi.Bmc.DataSets.{bmc_m1, bmc_m2, bmc_m3}
use ppsi.Bmc.Select.{erbest_record}
use ppsi.Bmc.Slave.{bmc_s1}
use ppsi.Bmc.Table.{empty_frgn_master}
use ppsi.Ds.{
  BmcHooks, FrgnMaster, Globals, Instance, State, TimeOps, same_state, to_ann_receipt,
  to_qualification,
}
use ppsi.Prelude.{
  Bool, Option, false, if◌then◌else◌, is_index, is_neg, is_pos, is_some, is_zero, ltb, none, not,
  some, ℕ, ◌&&◌, ◌+◌, ◌==◌, ◌||◌,
}
use ppsi.Timeout.Reset.{pp_timeout_init, pp_timeout_reset, pp_timeout_reset_n}

-- The 9.2.6.11 c) rule: the announce receipt timeout is reset unless the port is in the state already.
unfoldable pub leave_for : State → Globals → ℕ → Globals × State
leave_for target g ppi = (
  if same_state (g.inst ppi).state target then g else pp_timeout_reset g ppi to_ann_receipt,
  target,
)

-- clockClass == PP_CLASS_SLAVE_ONLY
unfoldable pub slave_only_class : Globals → Bool
slave_only_class g = g.default_ds.clock_quality.clock_class == 255

-- The labels passive_p1 and passive_p2 (bmc_p1 and bmc_p2 are empty).
unfoldable pub passive_p : Globals → ℕ → Globals × State
passive_p g ppi =
    if slave_only_class g then leave_for State.listening g ppi else leave_for State.passive g ppi

unfoldable pub is_master_state : State → Bool
is_master_state s = same_state s State.master || same_state s State.pre_master

-- The end of master_m1, master_m2 and master_m3, after the data sets: `enter` sets the timers of a
-- port that was no master before.
unfoldable pub master_end : (Globals → Globals) → Globals → ℕ → Globals × State
master_end enter g ppi =
    if is_master_state (g.inst ppi).state
    then (g, (g.inst ppi).state)
    else (enter g, State.pre_master)

-- 9.2.6.10 a): the qualification timeout is 0
unfoldable pub qualify_now : ℕ → Globals → Globals
qualify_now ppi g = pp_timeout_reset_n g ppi to_qualification 0

unfoldable pub master_m1 : TimeOps → Globals → ℕ → Globals × State
master_m1 ops g ppi =
    if slave_only_class g
    then leave_for State.listening g ppi
    else master_end (qualify_now ppi) (bmc_m1 ops g) ppi

unfoldable pub master_m2 : TimeOps → Globals → ℕ → Globals × State
master_m2 ops g ppi =
    if slave_only_class g
    then leave_for State.listening g ppi
    else master_end (qualify_now ppi) (bmc_m2 ops g) ppi

-- 9.2.6.11 b): the qualification timeout is stepsRemoved + 1 intervals
unfoldable pub qualify_later : ℕ → Globals → Globals
qualify_later ppi g =
    let g = pp_timeout_init g ppi in
    pp_timeout_reset_n g ppi to_qualification (g.current_ds.steps_removed + 1)

unfoldable pub master_m3 : Globals → ℕ → Globals × State
master_m3 g ppi =
    if slave_only_class g
    then leave_for State.listening g ppi
    else master_end (qualify_later ppi) (bmc_m3 g) ppi

unfoldable pub is_slave_state : State → Bool
is_slave_state s = same_state s State.slave || same_state s State.uncalibrated

-- The end of slave_s1: `changed` says that the parent changed.
unfoldable pub slave_end : Bool → Globals → ℕ → Globals × State
slave_end changed g ppi =
    let s = (g.inst ppi).state in
    if not (is_slave_state s)
    then (pp_timeout_reset g ppi to_ann_receipt, State.uncalibrated)
    else if changed
    then leave_for State.uncalibrated g ppi
    else (if same_state s State.slave then g else pp_timeout_reset g ppi to_ann_receipt, s)

unfoldable pub slave_s1 : TimeOps → BmcHooks → Globals → ℕ → FrgnMaster → Globals × State
slave_s1 ops hooks g ppi ebest =
    if is_index g.ebest_idx ppi
    then slave_end
        (not (is_zero (bmc_pidcmp g.parent_ds.parent_port_identity ebest.source_port_identity)))
        (bmc_s1 ops hooks g ppi ebest) ppi
    else slave_end false g ppi

-- TIME_SRC_INTERNAL_OSCILLATOR
abbrev pub internal_oscillator : ℕ
internal_oscillator = 0xa0

-- bmc_setup_local_frgn_master: the device's own data set. What the source leaves uninitialised and
-- never reads is cleared here.
unfoldable pub bmc_setup_local_frgn_master : Globals → ℕ → FrgnMaster
bmc_setup_local_frgn_master g ppi = record empty_frgn_master {
  qualified = not g.default_ds.external_port_configuration_enabled;
  receive_port_identity = (g.inst ppi).port_ds.port_identity;
  source_port_identity = (g.inst ppi).port_ds.port_identity;
  grandmaster_priority1 = g.default_ds.priority1;
  grandmaster_clock_quality = g.default_ds.clock_quality;
  grandmaster_priority2 = g.default_ds.priority2;
  grandmaster_identity = g.default_ds.clock_identity;
  time_source = internal_oscillator;
}

-- The port's Erbest, or the static empty record.
unfoldable pub erbest_or_empty : Instance → FrgnMaster
erbest_or_empty p = elim (erbest_record p) [ none ↦ empty_frgn_master | some m ↦ m ]

-- The record at frgn_rec_best, which is read without a test for -1.
unfoldable pub ebest_record : Instance → FrgnMaster
ebest_record p = elim p.frgn_rec_best [
  | none ↦ p.frgn_master_before
  | some best ↦ p.frgn_master best
]

-- The label check_boundary_clk.
unfoldable pub check_boundary_clk :
    TimeOps → BmcHooks → Globals → ℕ → FrgnMaster → FrgnMaster → Globals × State
check_boundary_clk ops hooks g ppi ebest erbest =
    let by_gm = bmc_gm_cmp g ebest erbest in
    let by_topology = bmc_topology_cmp g ebest erbest in
    if is_index g.ebest_idx ppi
    then slave_s1 ops hooks g ppi ebest
    else if is_neg by_gm
    then master_m3 g ppi
    else if is_neg by_topology
    then passive_p g ppi
    else if is_pos by_topology
    then master_m3 g ppi
    else (g, State.faulty)

-- The comparison of D0 with Erbest, for a clock class below 128.
unfoldable pub decide_low_class : TimeOps → Globals → ℕ → FrgnMaster → FrgnMaster → Globals × State
decide_low_class ops g ppi d0 erbest =
    let cmpres = bmc_dataset_cmp g d0 erbest in
    if is_neg cmpres
    then master_m1 ops g ppi
    else if is_pos cmpres
    then passive_p g ppi
    else (g, State.faulty)

-- The comparison of D0 with Ebest, for the other classes.
unfoldable pub decide_high_class :
    TimeOps → BmcHooks → Globals → ℕ → FrgnMaster → FrgnMaster → FrgnMaster → Globals × State
decide_high_class ops hooks g ppi d0 ebest erbest =
    let cmpres = bmc_dataset_cmp g d0 ebest in
    if is_neg cmpres
    then master_m2 ops g ppi
    else if is_pos cmpres
    then (if g.default_ds.number_ports == 1
        then slave_s1 ops hooks g ppi ebest
        else check_boundary_clk ops hooks g ppi ebest erbest)
    else (g, State.faulty)

-- From the local data set on, for a port that may be a slave: `ebest` is the record of the Ebest port.
unfoldable pub decide_by_ebest : TimeOps → BmcHooks → Globals → ℕ → FrgnMaster → Globals × State
decide_by_ebest ops hooks g ppi ebest =
    let d0 = bmc_setup_local_frgn_master g ppi in
    let erbest = erbest_or_empty (g.inst ppi) in
    if ltb g.default_ds.clock_quality.clock_class 128
    then decide_low_class ops g ppi d0 erbest
    else decide_high_class ops hooks g ppi d0 ebest erbest

unfoldable pub slave_only_by :
    TimeOps → BmcHooks → Globals → ℕ → Option FrgnMaster → Globals × State
slave_only_by ops hooks g ppi none = (g, State.listening)
slave_only_by ops hooks g ppi (some erbest) =
    if is_index g.ebest_idx ppi then slave_s1 ops hooks g ppi erbest else (g, State.listening)

-- A slave-only clock listens, unless the port has the Ebest.
unfoldable pub decide_slave_only : TimeOps → BmcHooks → Globals → ℕ → Globals × State
decide_slave_only ops hooks g ppi = slave_only_by ops hooks g ppi (erbest_record (g.inst ppi))

-- A port that may be a slave, by the index of the Ebest port.
unfoldable pub decide_by_index : TimeOps → BmcHooks → Globals → ℕ → Option ℕ → Globals × State
decide_by_index ops hooks g ppi none = master_m1 ops g ppi
decide_by_index ops hooks g ppi (some i) = decide_by_ebest ops hooks g ppi (ebest_record (g.inst i))

unfoldable pub bmc_state_decision : TimeOps → BmcHooks → Globals → ℕ → Globals × State
bmc_state_decision ops hooks g ppi =
    let p = g.inst ppi in
    if same_state p.state State.faulty || same_state p.state State.initializing
    then (g, p.state)
    else if g.default_ds.slave_only
    then decide_slave_only ops hooks g ppi
    else if not (is_some p.frgn_rec_best) && same_state p.state State.listening
    then (g, State.listening)
    else if p.port_ds.master_only
    then (if is_some g.ebest_idx then master_m3 g ppi else master_m1 ops g ppi)
    else decide_by_index ops hooks g ppi g.ebest_idx
