-- ===== src/Lsync/Events.antt =====
-- The events of the L1Sync state machine, and the sending of its message
-- (proto-ext-l1sync/l1e-state-machine.c).
use ppsi.Ds.{PpTime, State, same_state, to_l1e_tx_sync}
use ppsi.Lsync.Port.{SyncCall, SyncEnv, SyncPort, SyncWorld, set_sync, set_sync_globals, sync_call}
use ppsi.Prelude.{
  Bool, false, if◌then◌else◌, leb, ltb, not, pos, pos_part, sub_ℕ, to_word, true, ℕ, ℤ, ◌&&◌, ◌*◌,
  ◌+◌, ◌/◌, ◌^◌, ◌||◌,
}
use ppsi.Timeout.Defs.{pp_timeout, pp_timeout_set}
use ppsi.Timeout.Reset.{pp_timeout_log_to_ms}

unfoldable pub le1_evt_l1_sync_reset : SyncWorld → ℕ → Bool
le1_evt_l1_sync_reset w ppi =
    let p = w.sync_globals.inst ppi in not p.link_up || same_state p.state State.initializing

abbrev same_flag : Bool → Bool → Bool
same_flag true b = b
same_flag false b = not b

unfoldable pub le1_evt_config_ok : SyncPort → Bool
le1_evt_config_ok q =
    same_flag q.tx_coherent_is_required q.peer_tx_coherent_is_required
    && same_flag q.rx_coherent_is_required q.peer_rx_coherent_is_required
    && same_flag q.congruent_is_required q.peer_congruent_is_required

-- What is required of a property holds on both sides.
unfoldable pub holds_both : Bool → Bool → Bool → Bool
holds_both required own peer = not required || (own && peer)

-- isRxCoherent and isCongruent follow the state of the port.
unfoldable pub follow_state : SyncEnv → SyncWorld → ℕ → SyncPort
follow_state env w ppi =
    let s = (w.sync_globals.inst ppi).state in
    let q = w.sync_ports ppi in
    if same_state s State.slave || same_state s State.uncalibrated
    then record q { is_rx_coherent = env.is_locked w ppi; is_congruent = env.is_locked w ppi }
    else if same_state s State.master
    then record q {
      is_rx_coherent = q.peer_is_tx_coherent && q.peer_is_rx_coherent && q.is_tx_coherent;
      is_congruent = true;
    }
    else record q { is_congruent = false }

unfoldable pub is_state_ok : SyncPort → Bool
is_state_ok q =
    holds_both q.tx_coherent_is_required q.is_tx_coherent q.peer_is_tx_coherent
    && holds_both q.rx_coherent_is_required q.is_rx_coherent q.peer_is_rx_coherent
    && holds_both q.congruent_is_required q.is_congruent q.peer_is_congruent

unfoldable pub le1_evt_state_ok : SyncEnv → SyncWorld → ℕ → SyncWorld × Bool
le1_evt_state_ok env w ppi = let q = follow_state env w ppi in (set_sync w ppi q, is_state_ok q)

-- measure_first_time on a reading of the clock
unfoldable pub measure_first_time : PpTime → ℕ
measure_first_time t =
    to_word 16 t.secs * 1000 + (pos_part t.scaled_nsecs + 0x8000) / 2 ^ 16 / 1000000

unfoldable pub measure_last_time : PpTime → ℕ → ℕ
measure_last_time t fmeas =
    let ms = measure_first_time t in if ltb ms fmeas then ms + 0xffff * 1000 else ms

-- The time until the next message, less the time that sending took. `lmeas` may lie before `fmeas`.
unfoldable pub next_tmo : ℕ → ℕ → ℕ → ℤ
next_tmo tmo_ms fmeas lmeas =
    if leb lmeas (fmeas + tmo_ms) then sub_ℕ (tmo_ms + fmeas) lmeas else pos tmo_ms

unfoldable pub l1e_send_sync_msg : SyncEnv → SyncWorld → ℕ → Bool → SyncWorld
l1e_send_sync_msg env w ppi immediately =
    let fmeas = measure_first_time (env.clock_before w ppi) in
    let lmeas = measure_last_time (env.clock_after w ppi) fmeas in
    let tmo_ms = pp_timeout_log_to_ms (w.sync_ports ppi).log_l1sync_interval in
    let w1 = sync_call w ppi SyncCall.send_l1sync in
    if not immediately && not (pp_timeout w.sync_globals ppi to_l1e_tx_sync)
    then w
    else set_sync_globals w1
        (pp_timeout_set w1.sync_globals ppi to_l1e_tx_sync (next_tmo tmo_ms fmeas lmeas))
