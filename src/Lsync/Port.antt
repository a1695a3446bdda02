-- ===== src/Lsync/Port.antt =====
-- The L1Sync state of a port: proto-ext-l1sync/l1e-api.h.
use ppsi.Ds.{Globals, PpTime}
use ppsi.Fsm.Link.{FsmHooks}
use ppsi.Prelude.{Bool, List, negsuc, pos, update, ℕ, ℤ, ◌*◌, ◌+◌, ◌-◌, ◌^◌, ◌∷◌}

-- enum l1_sync_states; `beyond` is any value past the table of actions.
pub data SyncState : Type 0 where
  sync_missing sync_disabled sync_idle sync_link_alive sync_config_match sync_up beyond : SyncState

abbrev pub sync_value : SyncState → ℕ
sync_value SyncState.sync_missing = 0
sync_value SyncState.sync_disabled = 1
sync_value SyncState.sync_idle = 2
sync_value SyncState.sync_link_alive = 3
sync_value SyncState.sync_config_match = 4
sync_value SyncState.sync_up = 5
sync_value SyncState.beyond = 6

-- L1SyncBasicPortDS_t with execute_state_machine, and the servo's readyForSync.
pub record SyncPort : Type 0 where
  pub l1sync_enabled : Bool
  pub tx_coherent_is_required : Bool
  pub rx_coherent_is_required : Bool
  pub congruent_is_required : Bool
  pub log_l1sync_interval : ℤ
  pub l1sync_receipt_timeout : ℕ
  pub l1sync_link_alive : Bool
  pub is_tx_coherent : Bool
  pub is_rx_coherent : Bool
  pub is_congruent : Bool
  pub l1sync_state : SyncState
  pub peer_tx_coherent_is_required : Bool
  pub peer_rx_coherent_is_required : Bool
  pub peer_congruent_is_required : Bool
  pub peer_is_tx_coherent : Bool
  pub peer_is_rx_coherent : Bool
  pub peer_is_congruent : Bool
  pub l1sync_next_state : SyncState
  pub execute_state_machine : Bool
  pub l1e_ready_for_sync : Bool

-- The calls that leave the extension: its message, the hardware and its servo.
pub data SyncCall : Type 0 where
  send_l1sync pll_enable pll_disable ptracker_enable l1e_servo_init l1e_servo_reset : SyncCall

pub record SyncWorld : Type 0 where
  pub sync_globals : Globals
  pub sync_ports : ℕ → SyncPort
  pub sync_calls : ℕ → List SyncCall

abbrev pub set_sync : SyncWorld → ℕ → SyncPort → SyncWorld
set_sync w ppi q = record w { sync_ports = update w.sync_ports ppi q }

abbrev pub set_sync_globals : SyncWorld → Globals → SyncWorld
set_sync_globals w g = record w { sync_globals = g }

abbrev pub sync_call : SyncWorld → ℕ → SyncCall → SyncWorld
sync_call w ppi c = record w { sync_calls = update w.sync_calls ppi (c ∷ w.sync_calls ppi) }

-- What the environment answers: is the PLL locked, and what does the clock show before and after a
-- message is sent?
pub record SyncEnv : Type 0 where
  pub sync_hooks : FsmHooks
  pub is_locked : SyncWorld → ℕ → Bool
  pub clock_before : SyncWorld → ℕ → PpTime
  pub clock_after : SyncWorld → ℕ → PpTime

-- l1e_get_rx_tmo_ms, for the intervals from 2^-8 seconds on
unfoldable pub l1e_get_rx_tmo_ms : SyncPort → ℤ
l1e_get_rx_tmo_ms q = pos (interval_ms q.log_l1sync_interval * q.l1sync_receipt_timeout)
  where
    interval_ms : ℤ → ℕ
    interval_ms (pos n) = 4 * 2 ^ (n + 8)
    interval_ms (negsuc n) = 4 * 2 ^ (8 - (n + 1))
