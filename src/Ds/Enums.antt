-- ===== src/Ds/Enums.antt =====
-- The enumerations of include/ppsi/ieee1588_types.h, pp-instance.h and timeout_def.h.
use ppsi.Prelude.{ℕ, ◌+◌, ◌==◌, Bool}

-- pp_std_states. `extension n` stands for the value PPS_LAST_STATE + n, which only an extension uses.
pub data State : Type 0 where
  end_of_table initializing faulty disabled listening pre_master master passive uncalibrated slave :
      State
  extension : ℕ → State

-- The value of the enumerator.
abbrev pub state_value : State → ℕ
state_value State.end_of_table = 0
state_value State.initializing = 1
state_value State.faulty = 2
state_value State.disabled = 3
state_value State.listening = 4
state_value State.pre_master = 5
state_value State.master = 6
state_value State.passive = 7
state_value State.uncalibrated = 8
state_value State.slave = 9
state_value (State.extension n) = n + 10

-- `a == b` on two states
abbrev pub same_state : State → State → Bool
same_state a b = state_value a == state_value b

-- The predefined counters of enum pp_timeouts.
abbrev pub to_request : ℕ
to_request = 0

abbrev pub to_sync_send : ℕ
to_sync_send = 1

abbrev pub to_bmc : ℕ
to_bmc = 2

abbrev pub to_ann_receipt : ℕ
to_ann_receipt = 3

abbrev pub to_ann_send : ℕ
to_ann_send = 4

abbrev pub to_qualification : ℕ
to_qualification = 5

abbrev pub to_prot_state : ℕ
to_prot_state = 6

abbrev pub to_in_state : ℕ
to_in_state = 7

abbrev pub to_gm_by_bmca : ℕ
to_gm_by_bmca = 8

abbrev pub to_l1e_tx_sync : ℕ
to_l1e_tx_sync = 9

abbrev pub to_l1e_rx_sync : ℕ
to_l1e_rx_sync = 10

abbrev pub to_wr_ext_0 : ℕ
to_wr_ext_0 = 11

-- PP_TO_COUNT without the two counters of the switch's own architecture.
abbrev pub to_count : ℕ
to_count = 12

-- to_rand_t
pub data Rand : Type 0 where
  rand_none rand_70_130 rand_0_200 : Rand

-- pp_pdstate_t
pub data PdState : Type 0 where
  pd_none pd_wait_msg pd_pdetection pd_pdetected pd_failure : PdState

-- pp_exstate_t
pub data ExState : Type 0 where
  ex_disable ex_active ex_ptp : ExState

abbrev pub is_ex_active : ExState → Bool
is_ex_active ExState.ex_active = Bool.true
is_ex_active _ = Bool.false

abbrev pub is_pd_none : PdState → Bool
is_pd_none PdState.pd_none = Bool.true
is_pd_none _ = Bool.false

-- pp_std_messages, by their values.
abbrev pub ppm_sync : ℕ
ppm_sync = 0

abbrev pub ppm_announce : ℕ
ppm_announce = 11

abbrev pub ppm_signaling : ℕ
ppm_signaling = 12

abbrev pub ppm_no_message : ℕ
ppm_no_message = 15
