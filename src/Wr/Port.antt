-- ===== src/Wr/Port.antt =====
-- The White Rabbit state of a port: struct wr_dsport of proto-ext-whiterabbit/wr-api.h and the
-- enumerations of wr-constants.h.
use ppsi.Ds.{Globals}
use ppsi.Fsm.Link.{FsmHooks}
use ppsi.Prelude.{Bool, List, false, true, update, ℕ, ℤ, ◌∷◌}

-- wr_state_t; `max_states` is the value WRS_MAX_STATES, which is no state.
pub data WrState : Type 0 where
  idle present s_lock m_lock locked calibration calibrated resp_calib_req link_on max_states :
      WrState

-- wr_role_t
pub data WrRole : Type 0 where
  role_none role_master role_slave : WrRole

abbrev pub is_wr_master : WrRole → Bool
is_wr_master WrRole.role_master = true
is_wr_master _ = false

abbrev pub is_wr_slave : WrRole → Bool
is_wr_slave WrRole.role_slave = true
is_wr_slave _ = false

-- ParentDetection
pub data ParentDetection : Type 0 where
  no_detection wr_parent not_wr_parent : ParentDetection

-- struct FixedDelta: scaled picoseconds, in two words of 32 bits.
pub record FixedDelta : Type 0 where
  pub msb : ℕ
  pub lsb : ℕ

-- struct wr_dsport, the fields that the handshake uses, with the latencies of the port's
-- timestampCorrectionPortDS and two flags of its servo (readyForSync and doRestart).
pub record WrPort : Type 0 where
  pub wr_state : WrState
  pub wr_next_state : WrState
  pub wr_mode_on : Bool
  pub parent_wr_mode_on : Bool
  pub delta_tx : FixedDelta
  pub delta_rx : FixedDelta
  pub other_node_delta_tx : FixedDelta
  pub other_node_delta_rx : FixedDelta
  pub wr_mode : WrRole
  pub wr_port_state : ℕ
  pub was_calibrated : Bool
  pub wr_state_timeout : ℕ
  pub wr_state_retry : ℕ
  pub cal_period : ℕ
  pub cal_retry : ℕ
  pub parent_wr_config : ℕ
  pub parent_is_wr_node : Bool
  pub parent_calibrated : Bool
  pub other_node_cal_send_pattern : ℕ
  pub other_node_cal_period : ℕ
  pub other_node_cal_retry : ℕ
  pub parent_detection : ParentDetection
  pub egress_latency : ℤ
  pub ingress_latency : ℤ
  pub semistatic_latency : ℤ
  pub ready_for_sync : Bool
  pub do_restart : Bool

-- The calls that leave the handshake: messages sent, the hardware, and the servo, which takes the
-- four fixed delays.
pub data WrCall : Type 0 where
  send_wrsig : ℕ → WrCall
  locking_enable locking_disable enable_ptracker : WrCall
  wr_servo_init wr_servo_reset : WrCall
  set_delta_txs set_delta_rxs set_delta_txm set_delta_rxm : FixedDelta → WrCall

-- The globals with the White Rabbit state of every port, and the calls of the port, latest first.
pub record World : Type 0 where
  pub globals : Globals
  pub wr_ports : ℕ → WrPort
  pub wr_calls : ℕ → List WrCall

abbrev pub set_wr : World → ℕ → WrPort → World
set_wr w ppi q = record w { wr_ports = update w.wr_ports ppi q }

abbrev pub set_globals : World → Globals → World
set_globals w g = record w { globals = g }

abbrev pub call : World → ℕ → WrCall → World
call w ppi c = record w { wr_calls = update w.wr_calls ppi (c ∷ w.wr_calls ppi) }

-- What the environment answers: does sending fail, and is the PLL locked?
pub record WrEnv : Type 0 where
  pub fsm_hooks : FsmHooks
  pub send_fails : World → ℕ → ℕ → Bool
  pub pll_locked : World → ℕ → Bool
