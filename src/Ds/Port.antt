-- ===== src/Ds/Port.antt =====
-- struct pp_frgn_master, timeOutInstCnt_t, portDS_t and struct pp_instance. A pointer that every
-- instance owns alone (portDS) is the record it points to. An array is a function from the index.
use ppsi.Prelude.{ℕ, ℤ, Bool, Option, List}
use ppsi.Ds.Enums.{State, Rand, PdState, ExState}
use ppsi.Ds.Identity.{ClockIdentity, PortIdentity, ClockQuality, MsgHeader}

-- struct pp_frgn_master
pub record FrgnMaster : Type 0 where
  pub sequence_id : ℕ
  pub steps_removed : ℕ
  pub current_utc_offset : ℤ
  pub receive_port_identity : PortIdentity
  pub source_port_identity : PortIdentity
  pub grandmaster_clock_quality : ClockQuality
  pub grandmaster_identity : ClockIdentity
  pub grandmaster_priority1 : ℕ
  pub grandmaster_priority2 : ℕ
  pub time_source : ℕ
  pub flag_field_0 : ℕ
  pub flag_field_1 : ℕ
  pub qualified : Bool
  pub last_announce_msg_ms : ℕ
  pub ext_specific : List ℕ
  pub peer_mac : List ℕ

-- timeOutInstCnt_t
pub record Timer : Type 0 where
  pub which_rand : Rand
  pub init_value_ms : ℤ
  pub tmo : ℕ

-- portDS_t, the fields that the state machines read. The configuration keeps logAnnounceInterval
-- within 0 and 4, so it is a natural number here; the other intervals may be negative.
pub record PortDs : Type 0 where
  pub port_identity : PortIdentity
  pub log_min_delay_req_interval : ℤ
  pub log_announce_interval : ℕ
  pub announce_receipt_timeout : ℕ
  pub log_sync_interval : ℤ
  pub log_min_pdelay_req_interval : ℤ
  pub master_only : Bool

-- struct pp_instance, the part that the portable state machines use. `is_new_state` is derived from
-- `current_state_item`, the state whose table entry ran last (none before the first run). `frgn_master_before`
-- is what memory holds before the table, where the index -1 reads.
pub record Instance : Type 0 where
  pub state : State
  pub next_state : State
  pub next_delay : ℤ
  pub is_new_state : Bool
  pub current_state_item : Option State
  pub waiting_for_f_up : Bool
  pub waiting_for_rf_up : Bool
  pub delay_mechanism_p2p : Bool
  pub peer : List ℕ
  pub active_peer : List ℕ
  pub frgn_rec_num : ℕ
  pub frgn_rec_best : Option ℕ
  pub frgn_master_time_window_ms : ℕ
  pub frgn_master : ℕ → FrgnMaster
  pub frgn_master_before : FrgnMaster
  pub port_ds : PortDs
  pub desired_state : State
  pub tmo_cfg : ℕ → Timer
  pub received_ptp_header : MsgHeader
  pub link_up : Bool
  pub bmca_execute : Bool
  pub ptp_fallback : Bool
  pub pdstate : PdState
  pub ext_state : ExState
