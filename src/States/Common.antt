-- ===== src/States/Common.antt =====
-- Functions of proto-standard/common-fun.c, msg.c and lib/time-arith.c that the states share, and the states
-- that only wait: state-faulty.c and state-disabled.c.
use ppsi.Bmc.Compare.{bmc_pidcmp}
use ppsi.Bmc.DataSets.{bmc_m1, bmc_m3}
use ppsi.Bmc.Table.{bmc_flush_erbest}
use ppsi.Ds.{Globals, State, TimeOps, set_inst, to_ann_receipt, to_in_state}
use ppsi.Prelude.{
  Bool, false, if◌then◌else◌, is_zero, ltb, not, pos, suc, true, zero, ℕ, ℤ, ◌&&◌, ◌+◌, ◌||◌,
}
use ppsi.Servo.Port.{Stamps}
use ppsi.Time.Arith.{is_incorrect}
use ppsi.Timeout.Defs.{pp_next_delay_1, pp_timeout, pp_timeout_disable, pp_timeout_set}
use ppsi.Timeout.Reset.{pp_timeout_reset}

unfoldable pub msg_from_current_master : Globals → ℕ → Bool
msg_from_current_master g ppi = is_zero (
    bmc_pidcmp g.parent_ds.parent_port_identity
      (g.inst ppi).received_ptp_header.source_port_identity)

abbrev pub counts_as_slave : State → Bool
counts_as_slave State.uncalibrated = true
counts_as_slave State.slave = true
counts_as_slave s = false

abbrev pub counts_as_master : State → Bool
counts_as_master State.master = true
counts_as_master State.pre_master = true
counts_as_master State.passive = true
counts_as_master s = false

-- The loop of is_grand_master, from port `i` on with `n` left: is there a port with the property?
unfoldable pub any_port : (State → Bool) → ℕ → ℕ → Globals → Bool
any_port test zero i g = false
any_port test (suc n) i g = test (g.inst i).state || any_port test n (i + 1) g

unfoldable pub is_grand_master : Globals → Bool
is_grand_master g =
    any_port counts_as_master g.default_ds.number_ports 0 g
    && not (any_port counts_as_slave g.default_ds.number_ports 0 g)

abbrev pub set_next_state : Globals → ℕ → State → Globals
set_next_state g ppi s = set_inst g ppi (record (g.inst ppi) { next_state = s })

-- The state after an announce receipt timeout, with the updates of the data sets
unfoldable pub lose_master : TimeOps → Globals → ℕ → Globals
lose_master ops g ppi =
    if g.default_ds.slave_only
    then set_next_state g ppi State.listening
    else set_next_state (if is_grand_master g then bmc_m1 ops g else bmc_m3 g) ppi State.master

-- Its result is always 0.
unfoldable pub st_com_check_announce_receive_timeout : TimeOps → Globals → ℕ → Globals
st_com_check_announce_receive_timeout ops g ppi =
    let g1 = lose_master ops (pp_timeout_reset g ppi to_ann_receipt) ppi in
    if pp_timeout g ppi to_ann_receipt then set_inst g1 ppi (bmc_flush_erbest (g1.inst ppi)) else g

-- is_timestamp_incorrect_thres with the mask of t1 and t2. The counter of the errors is for printing.
unfoldable pub is_timestamp_incorrect : Stamps → Bool
is_timestamp_incorrect t = is_incorrect t.t1 || is_incorrect t.t2

-- TIMEOUT_FAULTY_STATE_MS
abbrev pub timeout_faulty_state_ms : ℕ
timeout_faulty_state_ms = 60000

abbrev pub set_next_delay : Globals → ℕ → ℤ → Globals
set_next_delay g ppi d = set_inst g ppi (record (g.inst ppi) { next_delay = d })

-- A port that has to be a slave of a device with a grandmaster's class stays faulty.
unfoldable pub is_stuck_faulty : Globals → ℕ → Bool
is_stuck_faulty g ppi =
    g.default_ds.external_port_configuration_enabled
    && ltb g.default_ds.clock_quality.clock_class 128
    && counts_as_slave (g.inst ppi).desired_state

unfoldable pub stay_faulty : Globals → ℕ → Globals
stay_faulty g ppi = set_next_delay g ppi (pp_next_delay_1 g ppi to_in_state)

-- The result of the actions is 0.
unfoldable pub pp_faulty : Globals → ℕ → Globals
pp_faulty g ppi =
    if is_stuck_faulty g ppi
    then set_next_delay g ppi (pos 1000)
    else if (g.inst ppi).is_new_state
    then stay_faulty (pp_timeout_set g ppi to_in_state (pos timeout_faulty_state_ms)) ppi
    else if pp_timeout g ppi to_in_state
    then set_next_state (pp_timeout_disable g ppi to_in_state) ppi State.initializing
    else stay_faulty g ppi

-- PP_DEFAULT_NEXT_DELAY_MS
abbrev pub default_next_delay_ms : ℕ
default_next_delay_ms = 1000

unfoldable pub pp_disabled : Globals → ℕ → Globals
pp_disabled g ppi = set_next_delay g ppi (pos default_next_delay_ms)
