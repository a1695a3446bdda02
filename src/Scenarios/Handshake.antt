-- ===== src/Scenarios/Handshake.antt =====
-- A slave and a master of White Rabbit, and the message that they exchange.
use ppsi.Ds.{ExState, PdState, State}
use ppsi.Fsm.Link.{FsmHooks}
use ppsi.Msg.Bytes.{Buffer}
use ppsi.Prelude.{
  List, [], arith, false, none, pos, refl, some, true, ℕ, ◌*◌, ◌+◌, ◌-◌, ◌<◌, ◌∷◌, ◌≡◌, ◌≤◌,
}
use ppsi.Scenarios.Device.{other_port, sample, sample_port}
use ppsi.Timeout.Expiry.{total}
use ppsi.Wr.Common.{time_left, wr_reset_process}
use ppsi.Wr.GiveUp.{waited_since, waiting_state-gives_up}
use ppsi.Wr.Handshake.{wr_run_state_machine-Moved}
use ppsi.Wr.Order.{Moved}
use ppsi.Wr.Packing.{FitsWrsig, LearntDelays, LearntPeriod, msg_pack_wrsig, unpack-pack_wrsig}
use ppsi.Wr.Port.{FixedDelta, ParentDetection, World, WrEnv, WrPort, WrRole, WrState}
use ppsi.Wr.Retry.{budget, in_m_lock, sent, waiting_state-budget}
use ppsi.Wr.Run.{
  by_detection, chosen_state, leave_slave, start_as_slave, wr_idle, wr_parent_found,
  wr_run_state_machine, wr_state_action,
}
use ppsi.Wr.Signaling.{calibrate_id, calibrated_id, msg_unpack_wrsig}
use ppsi.Wr.Steps.{m_lock_step, waiting_state}
use ppsi.Wr.Ticking.{later}

abbrev zero_delta : FixedDelta
zero_delta = record { msb = 0; lsb = 0 }

abbrev wr_sample : WrPort
wr_sample = record {
  wr_state = WrState.idle;
  wr_next_state = WrState.idle;
  wr_mode_on = false;
  parent_wr_mode_on = false;
  delta_tx = zero_delta;
  delta_rx = zero_delta;
  other_node_delta_tx = zero_delta;
  other_node_delta_rx = zero_delta;
  wr_mode = WrRole.role_none;
  wr_port_state = 0;
  was_calibrated = true;
  wr_state_timeout = 300;
  wr_state_retry = 0;
  cal_period = 3000;
  cal_retry = 3;
  parent_wr_config = 1;
  parent_is_wr_node = true;
  parent_calibrated = true;
  other_node_cal_send_pattern = 0;
  other_node_cal_period = 0;
  other_node_cal_retry = 0;
  parent_detection = ParentDetection.wr_parent;
  egress_latency = pos 200000;
  ingress_latency = pos 210000;
  semistatic_latency = pos 8000;
  ready_for_sync = false;
  do_restart = false;
}

abbrev quiet_hooks : FsmHooks
quiet_hooks = record {
  state_change = none;
  get_tmo_lstate_detection = none;
  extension_state_changed = none;
  run_ext_state_machine = none;
}

abbrev hardware : WrEnv
hardware = record {
  fsm_hooks = quiet_hooks;
  send_fails = λ w ppi id. false;
  pll_locked = λ w ppi. true;
}

-- The extension is active and a White Rabbit parent was found.
abbrev wr_slave : World
wr_slave = record {
  globals = record sample {
    inst = λ i. record sample_port {
      state = State.uncalibrated;
      ext_state = ExState.ex_active;
      pdstate = PdState.pd_pdetected;
    };
  };
  wr_ports = λ i. wr_sample;
  wr_calls = λ i. [];
}

wr_run_state_machine-Moved_example :
    Moved (chosen_state wr_slave 0) ((wr_run_state_machine hardware wr_slave 0 none).0.wr_ports 0)
wr_run_state_machine-Moved_example = wr_run_state_machine-Moved hardware wr_slave 0 none

slave_starts :
    ((wr_run_state_machine hardware wr_slave 0 none).0.wr_ports 0).wr_next_state ≡ WrState.present
unfolding wr_run_state_machine chosen_state wr_state_action wr_idle by_detection wr_parent_found
    start_as_slave wr_reset_process leave_slave
slave_starts = refl

waiting_state-budget_example :
    (budget 0 (waiting_state hardware m_lock_step wr_slave 0 none true).0
      ≡ sent (wr_slave.wr_calls 0) + 4)
    × (budget 0 (waiting_state hardware m_lock_step wr_slave 0 none false).0 ≡ budget 0 wr_slave)
waiting_state-budget_example = waiting_state-budget hardware m_lock_step wr_slave 0 none in_m_lock

-- The master sends its LOCK again after 15, 30 and 45 seconds, and gives up after a minute.
abbrev retry_times : List ℕ
retry_times = 15000 ∷ 15000 ∷ 15000 ∷ []

abbrev three_retries : World
three_retries = waited_since hardware m_lock_step 0 none retry_times wr_slave

m_lock-early : total retry_times < m_lock_step.tmo_ms * 4
unfolding m_lock_step
m_lock-early = omega arith

waiting_state-gives_up_example :
    (time_left three_retries 0 ≡ pos (m_lock_step.tmo_ms * 4 - total retry_times))
    × ((three_retries.wr_ports 0).wr_next_state ≡ WrState.idle)
    × (m_lock_step.tmo_ms * 4 ≤ total retry_times + 15000
        → ((waiting_state hardware m_lock_step (later 15000 three_retries) 0 none false).0.wr_ports
            0).wr_next_state
          ≡ WrState.idle)
waiting_state-gives_up_example =
    waiting_state-gives_up hardware m_lock_step wr_slave 0 none retry_times 15000 in_m_lock
      (omega arith) (omega arith) m_lock-early

-- So the handshake ends a minute after it was started and not a millisecond before.
m_lock_ms : m_lock_step.tmo_ms ≡ 15000
unfolding m_lock_step
m_lock_ms = refl

wr_sample-FitsWrsig : FitsWrsig wr_sample
wr_sample-FitsWrsig = record {
  retry = omega arith;
  period = omega arith;
  tx_msb = omega arith;
  tx_lsb = omega arith;
  rx_msb = omega arith;
  rx_lsb = omega arith;
}

abbrev message : Buffer
message = (msg_pack_wrsig (other_port 1) wr_sample calibrate_id (λ i. 0)).0

unpack-pack_wrsig_example :
    ((msg_unpack_wrsig wr_slave 0 message).1 ≡ some calibrate_id)
    × (calibrate_id ≡ calibrate_id
        → LearntPeriod wr_sample ((msg_unpack_wrsig wr_slave 0 message).0.wr_ports 0))
    × (calibrate_id ≡ calibrated_id
        → LearntDelays wr_sample ((msg_unpack_wrsig wr_slave 0 message).0.wr_ports 0))
unpack-pack_wrsig_example =
    unpack-pack_wrsig wr_slave 0 (other_port 1) wr_sample calibrate_id (λ i. 0) wr_sample-FitsWrsig
      (omega arith)
