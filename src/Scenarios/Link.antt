-- ===== src/Scenarios/Link.antt =====
-- A slave whose link has carried the L1Sync messages and that goes to UP.
use ppsi.Ds.{ExState, Rand, State}
use ppsi.Lsync.Events.{follow_state, holds_both, is_state_ok, le1_evt_config_ok, le1_evt_state_ok}
use ppsi.Lsync.Order.{IsSafe}
use ppsi.Lsync.Packing.{OptParams, l1e_unpack_signal}
use ppsi.Lsync.Peer.{l1e_unpack_signal-pack, l1sync_message, learnt}
use ppsi.Lsync.Port.{SyncEnv, SyncPort, SyncState, SyncWorld}
use ppsi.Lsync.Run.{l1e_run_state_machine-IsSafe}
use ppsi.Lsync.Steps.{
  check_rx_timer, is_off, is_slave_side, l1e_handle_state_config_match, l1e_run_state_machine,
  le1_state_action, prepare, run_prepared, start_locking,
}
use ppsi.Prelude.{[], arith, false, inl, none, pos, refl, some, to_word, true, ◌*◌, ◌^◌, ◌≡◌}
use ppsi.Scenarios.Device.{sample, sample_port}
use ppsi.Scenarios.Messages.{silent_sender}
use ppsi.Timeout.Clock.{calc_timeout, time_after_eq}
use ppsi.Timeout.Defs.{pp_get_counter, pp_timeout}

abbrev sync_sample : SyncPort
sync_sample = record {
  l1sync_enabled = true;
  tx_coherent_is_required = true;
  rx_coherent_is_required = true;
  congruent_is_required = true;
  log_l1sync_interval = pos 0;
  l1sync_receipt_timeout = 3;
  l1sync_link_alive = true;
  is_tx_coherent = true;
  is_rx_coherent = false;
  is_congruent = false;
  l1sync_state = SyncState.sync_config_match;
  peer_tx_coherent_is_required = true;
  peer_rx_coherent_is_required = true;
  peer_congruent_is_required = true;
  peer_is_tx_coherent = true;
  peer_is_rx_coherent = true;
  peer_is_congruent = true;
  l1sync_next_state = SyncState.sync_config_match;
  execute_state_machine = true;
  l1e_ready_for_sync = false;
}

abbrev lsync_sample : SyncWorld
lsync_sample = record {
  sync_globals = record sample {
    inst = λ i. record sample_port {
      state = State.uncalibrated;
      ext_state = ExState.ex_active;
      link_up = true;
      tmo_cfg = λ n. record { which_rand = Rand.rand_none; init_value_ms = pos 1000; tmo = 100500 };
    };
  };
  sync_ports = λ i. sync_sample;
  sync_calls = λ i. [];
}

abbrev sync_env : SyncEnv
sync_env = record {
  sync_hooks = record {
    state_change = none;
    get_tmo_lstate_detection = none;
    extension_state_changed = none;
    run_ext_state_machine = none;
  };
  is_locked = λ w ppi. true;
  clock_before = λ w ppi. record { secs = pos 100; scaled_nsecs = pos 0 };
  clock_after = λ w ppi. record { secs = pos 100; scaled_nsecs = pos (2000000 * 2 ^ 16) };
}

l1e_run_state_machine-IsSafe_example :
    IsSafe ((l1e_run_state_machine sync_env lsync_sample 0).0.sync_ports 0)
l1e_run_state_machine-IsSafe_example =
    l1e_run_state_machine-IsSafe sync_env lsync_sample 0 (inl (omega arith))

goes_up :
    ((l1e_run_state_machine sync_env lsync_sample 0).0.sync_ports 0).l1sync_next_state
    ≡ SyncState.sync_up
unfolding l1e_run_state_machine is_off prepare check_rx_timer run_prepared le1_state_action
    l1e_handle_state_config_match start_locking le1_evt_state_ok follow_state is_state_ok holds_both
    le1_evt_config_ok is_slave_side pp_timeout pp_get_counter time_after_eq calc_timeout to_word
goes_up = refl

-- What the sample port requires, without the optional parameters
abbrev no_params : OptParams
no_params = record {
  opt_params_enabled = false;
  timestamps_corrected_tx = false;
  phase_offset_tx_valid = false;
  frequency_offset_tx_valid = false;
}

l1e_unpack_signal-pack_example :
    l1e_unpack_signal sync_sample
      (l1sync_message sample_port.port_ds silent_sender sync_sample no_params).0
      (l1sync_message sample_port.port_ds silent_sender sync_sample no_params).1
    ≡ some (learnt sync_sample sync_sample)
l1e_unpack_signal-pack_example =
    l1e_unpack_signal-pack sample_port.port_ds silent_sender sync_sample sync_sample no_params
