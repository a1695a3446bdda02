-- ===== src/Lsync/Steps.antt =====
-- The states of the L1Sync state machine and l1e_run_state_machine
-- (proto-ext-l1sync/l1e-state-machine.c), not for the WRPC architecture.
use ppsi.Ds.{State, is_ex_active, same_state, to_l1e_rx_sync, to_l1e_tx_sync}
use ppsi.Fsm.Link.{pdstate_disable_extension, pdstate_enable_extension}
use ppsi.Lsync.Events.{
  l1e_send_sync_msg, le1_evt_config_ok, le1_evt_l1_sync_reset, le1_evt_state_ok,
}
use ppsi.Lsync.Port.{
  SyncCall, SyncEnv, SyncPort, SyncState, SyncWorld, l1e_get_rx_tmo_ms, set_sync, set_sync_globals,
  sync_call, sync_value,
}
use ppsi.Prelude.{
  Bool, Option, false, if◌then◌else◌, is_zero, leb, none, not, pos, some, true, ℕ, ℤ, ◌&&◌, ◌==◌,
  ◌||◌,
}
use ppsi.Timeout.Defs.{pp_next_delay_2, pp_timeout, pp_timeout_set}

unfoldable pub next_delay : SyncWorld → ℕ → ℤ
next_delay w ppi = pp_next_delay_2 w.sync_globals ppi to_l1e_tx_sync to_l1e_rx_sync

abbrev pub set_sync_next : SyncWorld → ℕ → SyncState → SyncWorld
set_sync_next w ppi s = set_sync w ppi (record (w.sync_ports ppi) { l1sync_next_state = s })

-- `basic->next_state = s; return 0;`
abbrev pub go_to : SyncState → SyncWorld → ℕ → SyncWorld × ℤ
go_to s w ppi = (set_sync_next w ppi s, pos 0)

-- The iterative treatment: the message is sent when its time has come.
unfoldable pub iterate : SyncEnv → SyncWorld → ℕ → SyncWorld × ℤ
iterate env w ppi = let w1 = l1e_send_sync_msg env w ppi false in (w1, next_delay w1 ppi)

unfoldable pub forget_peer : SyncPort → SyncPort
forget_peer q = record q {
  peer_tx_coherent_is_required = false;
  peer_rx_coherent_is_required = false;
  peer_congruent_is_required = false;
  peer_is_tx_coherent = false;
  peer_is_rx_coherent = false;
  peer_is_congruent = false;
}

unfoldable pub forget_all : SyncPort → SyncPort
forget_all q = record (forget_peer q) {
  is_tx_coherent = false;
  is_rx_coherent = false;
  is_congruent = false;
}

unfoldable pub is_usable : SyncWorld → ℕ → Bool
is_usable w ppi = (w.sync_ports ppi).l1sync_enabled && not (le1_evt_l1_sync_reset w ppi)

unfoldable pub l1e_handle_state_disabled : SyncEnv → SyncWorld → ℕ → Bool → SyncWorld × ℤ
l1e_handle_state_disabled env w ppi new_state =
    let w1 = if new_state then set_sync w ppi (forget_all (w.sync_ports ppi)) else w in
    if is_usable w1 ppi then go_to SyncState.sync_idle w1 ppi else (w1, next_delay w1 ppi)

-- pdstate_disable_extension and pdstate_enable_extension
abbrev pub without_extension : SyncEnv → SyncWorld → ℕ → SyncWorld
without_extension env w ppi =
    set_sync_globals w (pdstate_disable_extension env.sync_hooks w.sync_globals ppi)

abbrev pub with_extension : SyncEnv → SyncWorld → ℕ → SyncWorld
with_extension env w ppi =
    set_sync_globals w (pdstate_enable_extension env.sync_hooks w.sync_globals ppi)

unfoldable pub l1e_handle_state_idle : SyncEnv → SyncWorld → ℕ → Bool → SyncWorld × ℤ
l1e_handle_state_idle env w ppi new_state =
    let w1 =
      if new_state
      then l1e_send_sync_msg env (set_sync w ppi (forget_peer (w.sync_ports ppi))) ppi true
      else w in
    if not (is_usable w1 ppi)
    then (without_extension env (set_sync_next w1 ppi SyncState.sync_disabled) ppi, pos 0)
    else if (w1.sync_ports ppi).l1sync_link_alive
    then go_to SyncState.sync_link_alive w1 ppi
    else iterate env w1 ppi

unfoldable pub is_slave_side : SyncWorld → ℕ → Bool
is_slave_side w ppi =
    let s = (w.sync_globals.inst ppi).state in
    same_state s State.slave || same_state s State.uncalibrated

unfoldable pub start_rx_timer : SyncWorld → ℕ → SyncWorld
start_rx_timer w ppi =
    set_sync_globals w
      (pp_timeout_set w.sync_globals ppi to_l1e_rx_sync (l1e_get_rx_tmo_ms (w.sync_ports ppi)))

unfoldable pub l1e_handle_state_link_alive : SyncEnv → SyncWorld → ℕ → Bool → SyncWorld × ℤ
l1e_handle_state_link_alive env w ppi new_state =
    let w1 = if new_state then start_rx_timer w ppi else w in
    let q = w1.sync_ports ppi in
    if not q.l1sync_link_alive
    then go_to SyncState.sync_idle w1 ppi
    else if le1_evt_config_ok q
        && (is_slave_side w1 ppi || same_state (w1.sync_globals.inst ppi).state State.master)
    then go_to SyncState.sync_config_match w1 ppi
    else iterate env w1 ppi

-- A slave that needs congruence locks its PLL.
unfoldable pub start_locking : SyncWorld → ℕ → SyncWorld
start_locking w ppi =
    let q = w.sync_ports ppi in
    if is_slave_side w ppi && q.congruent_is_required
    then sync_call
        (sync_call (set_sync w ppi (record q { is_rx_coherent = false })) ppi SyncCall.pll_enable)
        ppi SyncCall.l1e_servo_init
    else w

unfoldable pub l1e_handle_state_config_match : SyncEnv → SyncWorld → ℕ → Bool → SyncWorld × ℤ
l1e_handle_state_config_match env w ppi new_state =
    let w1 = if new_state then start_locking w ppi else w in
    let q = w1.sync_ports ppi in
    let (w2, state_ok) = le1_evt_state_ok env w1 ppi in
    if not q.l1sync_link_alive
    then go_to SyncState.sync_idle w1 ppi
    else if not (le1_evt_config_ok q)
    then go_to SyncState.sync_link_alive w1 ppi
    else if state_ok
    then go_to SyncState.sync_up w2 ppi
    else iterate env w2 ppi

-- On entering, the phase tracker runs and the servo may synchronize.
unfoldable pub start_up : SyncWorld → ℕ → SyncWorld
start_up w ppi =
    set_sync (sync_call w ppi SyncCall.ptracker_enable) ppi
      (record (w.sync_ports ppi) { l1e_ready_for_sync = true })

-- The next state, if the port is to leave UP: a later reason replaces an earlier one.
unfoldable pub leave_up_for : Bool → Bool → Bool → Option SyncState
leave_up_for link_ok config_ok state_ok =
    if not state_ok
    then some SyncState.sync_config_match
    else if not config_ok
    then some SyncState.sync_link_alive
    else if not link_ok
    then some SyncState.sync_idle
    else none

unfoldable pub up_or_leave : SyncEnv → SyncWorld → ℕ → Bool → Option SyncState → SyncWorld × ℤ
up_or_leave env w ppi new_state (some s) =
    let w1 = set_sync_next w ppi s in
    (
      if is_slave_side w1 ppi
          then sync_call (sync_call w1 ppi SyncCall.pll_disable) ppi SyncCall.l1e_servo_reset
          else w1,
      pos 0,
    )
up_or_leave env w ppi new_state none =
    iterate env (if new_state then with_extension env w ppi else w) ppi

unfoldable pub l1e_handle_state_up : SyncEnv → SyncWorld → ℕ → Bool → SyncWorld × ℤ
l1e_handle_state_up env w ppi new_state =
    let w1 = if new_state then start_up w ppi else w in
    let q = w1.sync_ports ppi in
    let w2 = if q.l1sync_link_alive then w1 else without_extension env w1 ppi in
    let (w3, state_ok) = le1_evt_state_ok env w2 ppi in
    up_or_leave env w3 ppi new_state
      (leave_up_for q.l1sync_link_alive (le1_evt_config_ok q) state_ok)

unfoldable pub l1e_empty_action : SyncWorld → ℕ → SyncWorld × ℤ
l1e_empty_action w ppi = (w, next_delay w ppi)

-- le1_state_actions; a value past its end does not come here
unfoldable pub le1_state_action : SyncEnv → SyncState → SyncWorld → ℕ → Bool → SyncWorld × ℤ
le1_state_action env SyncState.sync_missing w ppi n = l1e_empty_action w ppi
le1_state_action env SyncState.sync_disabled w ppi n = l1e_handle_state_disabled env w ppi n
le1_state_action env SyncState.sync_idle w ppi n = l1e_handle_state_idle env w ppi n
le1_state_action env SyncState.sync_link_alive w ppi n = l1e_handle_state_link_alive env w ppi n
le1_state_action env SyncState.sync_config_match w ppi n = l1e_handle_state_config_match env w ppi n
le1_state_action env SyncState.sync_up w ppi n = l1e_handle_state_up env w ppi n
le1_state_action env SyncState.beyond w ppi n = l1e_empty_action w ppi

-- The link is dead when the receive timer has run out.
unfoldable pub check_rx_timer : SyncWorld → ℕ → SyncWorld
check_rx_timer w ppi =
    let q = w.sync_ports ppi in
    if pp_timeout w.sync_globals ppi to_l1e_rx_sync
    then set_sync (start_rx_timer w ppi) ppi
        (record q { l1sync_link_alive = false; execute_state_machine = true })
    else w

-- The dynamic data that does not depend on the state, and the entering of the next state.
unfoldable pub prepare : SyncWorld → ℕ → Bool → SyncWorld
prepare w ppi new_state =
    let q = record (w.sync_ports ppi) { is_tx_coherent = (w.sync_globals.inst ppi).link_up } in
    let w1 = check_rx_timer (set_sync w ppi q) ppi in
    let q1 = w1.sync_ports ppi in
    set_sync w1 ppi (record q1 {
      l1sync_state = q1.l1sync_next_state;
      execute_state_machine =
          (q1.execute_state_machine || pp_timeout w1.sync_globals ppi to_l1e_tx_sync) || new_state;
    })

-- The state machine runs when it is told to, and is told to go on when the delay is 0.
unfoldable pub run_prepared : SyncEnv → SyncWorld → ℕ → Bool → SyncWorld × ℤ
run_prepared env w ppi new_state =
    let q = w.sync_ports ppi in
    let (w1, delay) : SyncWorld × ℤ =
      if q.execute_state_machine
      then le1_state_action env q.l1sync_state w ppi new_state
      else (w, next_delay w ppi) in
    (set_sync w1 ppi (record (w1.sync_ports ppi) { execute_state_machine = is_zero delay }), delay)

unfoldable pub is_off : SyncWorld → ℕ → Bool
is_off w ppi =
    let p = w.sync_globals.inst ppi in
    not (sync_value (w.sync_ports ppi).l1sync_next_state == 1)
    && (not (is_ex_active p.ext_state) || same_state p.state State.initializing)

abbrev pub is_new : SyncWorld → ℕ → Bool
is_new w ppi =
    let q = w.sync_ports ppi in not (sync_value q.l1sync_next_state == sync_value q.l1sync_state)

unfoldable pub l1e_run_state_machine : SyncEnv → SyncWorld → ℕ → SyncWorld × ℤ
l1e_run_state_machine env w ppi =
    if is_off w ppi
    then (w, pos 1000)
    else if leb 6 (sync_value (w.sync_ports ppi).l1sync_next_state)
    then (w, next_delay w ppi)
    else run_prepared env (prepare w ppi (is_new w ppi)) ppi (is_new w ppi)
