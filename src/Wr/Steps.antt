-- ===== src/Wr/Steps.antt =====
-- The states of the handshake: state-wr-*.c of proto-ext-whiterabbit. A handler takes whether the
-- state is new, and returns the delay until it is to run again.
use ppsi.Msg.Bytes.{Buffer}
use ppsi.Prelude.{
  Bool, Option, if◌then◌else◌, leb_ℤ, none, pos, some, to_word, true, ℕ, ℤ, ◌%◌, ◌&&◌, ◌*ℤ◌, ◌+ℤ◌,
  ◌/◌, ◌==◌, ◌^◌,
}
use ppsi.Wr.Common.{
  Verdict, check_timer, delay_to_retry, msg_issue_wrsig, next_retry, set_wr_next, start_timer,
  time_left, wr_reset_process,
}
use ppsi.Wr.Port.{
  FixedDelta, World, WrCall, WrEnv, WrPort, WrRole, WrState, call, is_wr_master, is_wr_slave,
  set_wr,
}
use ppsi.Wr.Signaling.{
  calibrate_id, calibrated_id, lock_id, locked_id, receive_wrsig, slave_present_id, wr_mode_on_id,
}

-- A state that sends a message until the other node answers. Four states have this form.
pub record Waiting : Type 0 where
  pub tmo_ms : ℕ
  pub on_enter : World → ℕ → World
  pub accepts : WrPort → ℕ → Option WrState
  pub message : ℕ

-- The answer of the other node: it goes on to the next state, or is of no use here.
unfoldable pub answer : Option WrState → World → ℕ → World
answer none w ppi = w
answer (some s) w ppi = set_wr_next w ppi s

unfoldable pub send_and_wait : WrEnv → Waiting → World → ℕ → World × ℤ
send_and_wait env st w ppi =
    let w1 = (msg_issue_wrsig env w ppi st.message).0 in (w1, delay_to_retry st.tmo_ms w1 ppi)

unfoldable pub by_verdict : WrEnv → Waiting → ℕ → World × Verdict → World × ℤ
by_verdict env st ppi (w, Verdict.is_over) = (w, pos 0)
by_verdict env st ppi (w, Verdict.send_again) = send_and_wait env st w ppi
by_verdict env st ppi (w, Verdict.wait_on) = (w, delay_to_retry st.tmo_ms w ppi)

-- With the message that arrived, if any.
unfoldable pub by_message : WrEnv → Waiting → ℕ → World × Option ℕ → World × ℤ
by_message env st ppi (w, none) = by_verdict env st ppi (check_timer env st.tmo_ms w ppi)
by_message env st ppi (w, some id) = (answer (st.accepts (w.wr_ports ppi) id) w ppi, pos 0)

unfoldable pub waiting_state : WrEnv → Waiting → World → ℕ → Option Buffer → Bool → World × ℤ
waiting_state env st w ppi buf new_state =
    if new_state
    then send_and_wait env st (start_timer st.tmo_ms (st.on_enter w ppi) ppi) ppi
    else by_message env st ppi (receive_wrsig w ppi buf)

-- One message that is accepted.
abbrev pub on_message : ℕ → WrState → WrPort → ℕ → Option WrState
on_message expected s q id = if id == expected then some s else none

unfoldable pub present_step : Waiting
present_step = record {
  tmo_ms = 1000;
  on_enter = λ w ppi. call w ppi WrCall.wr_servo_init;
  accepts = on_message lock_id WrState.s_lock;
  message = slave_present_id;
}

unfoldable pub m_lock_step : Waiting
m_lock_step = record {
  tmo_ms = 15000;
  on_enter = λ w ppi. wr_reset_process w ppi WrRole.role_master;
  accepts = on_message locked_id WrState.calibration;
  message = lock_id;
}

unfoldable pub locked_step : Waiting
locked_step = record {
  tmo_ms = 300;
  on_enter = λ w ppi. set_wr w ppi (record (w.wr_ports ppi) { ready_for_sync = true });
  accepts = on_message calibrate_id WrState.resp_calib_req;
  message = locked_id;
}

unfoldable pub calibrated_step : Waiting
calibrated_step = record {
  tmo_ms = 300;
  on_enter = λ w ppi. w;
  accepts = λ q id.
      if (id == calibrate_id) && is_wr_master q.wr_mode
      then some WrState.resp_calib_req
      else if (id == wr_mode_on_id) && is_wr_slave q.wr_mode
      then some WrState.link_on
      else none;
  message = calibrated_id;
}

unfoldable pub wr_present : WrEnv → World → ℕ → Option Buffer → Bool → World × ℤ
wr_present env = waiting_state env present_step

unfoldable pub wr_m_lock : WrEnv → World → ℕ → Option Buffer → Bool → World × ℤ
wr_m_lock env = waiting_state env m_lock_step

unfoldable pub wr_locked : WrEnv → World → ℕ → Option Buffer → Bool → World × ℤ
wr_locked env = waiting_state env locked_step

unfoldable pub wr_calibrated : WrEnv → World → ℕ → Option Buffer → Bool → World × ℤ
wr_calibrated env = waiting_state env calibrated_step

-- WR_S_LOCK_TIMEOUT_MS, for the targets that do not set their own
abbrev pub s_lock_ms : ℕ
s_lock_ms = 15000

unfoldable pub relock : ℕ → World × Verdict → World
relock ppi (w, Verdict.send_again) = call w ppi WrCall.locking_enable
relock ppi (w, _) = w

-- The PLL is not locked yet.
unfoldable pub poll_again : WrEnv → World → ℕ → World
poll_again env w ppi =
    let w1 =
      if leb_ℤ (time_left w ppi) (pos (next_retry s_lock_ms w ppi))
      then call w ppi WrCall.locking_disable
      else w in
    relock ppi (check_timer env s_lock_ms w1 ppi)

unfoldable pub wr_s_lock : WrEnv → World → ℕ → Option Buffer → Bool → World × ℤ
wr_s_lock env w ppi buf new_state = (
  if new_state
      then call (start_timer s_lock_ms w ppi) ppi WrCall.locking_enable
      else if env.pll_locked w ppi
      then set_wr_next w ppi WrState.locked
      else poll_again env w ppi,
  pos 0,
)

-- A time interval in picoseconds as a FixedDelta: ti >> 32 and ti & 0xFFFFFFFF.
unfoldable pub fixed_delta : ℤ → FixedDelta
fixed_delta ti = record { msb = to_word 64 ti / 2 ^ 32; lsb = to_word 64 ti % 2 ^ 32 }

unfoldable pub wr_calibration : WrEnv → World → ℕ → Option Buffer → Bool → World × ℤ
wr_calibration env w ppi buf new_state =
    let q = w.wr_ports ppi in
    let tx = fixed_delta (q.egress_latency *ℤ pos 1000) in
    let rx = fixed_delta ((q.ingress_latency +ℤ q.semistatic_latency) *ℤ pos 1000) in
    let w1 = set_wr w ppi (record q {
      delta_tx = tx;
      delta_rx = rx;
      wr_next_state = WrState.calibrated;
      was_calibrated = true;
    }) in
    let w2 = call (call w1 ppi (WrCall.set_delta_txs tx)) ppi (WrCall.set_delta_rxs rx) in
    let w3 = (msg_issue_wrsig env w2 ppi calibrate_id).0 in
    (set_wr w3 ppi (record (w3.wr_ports ppi) { wr_port_state = 0 }), pos 0)

-- Only CALIBRATED is accepted; the servo is told the other node's delays.
unfoldable pub calibrated_by_other : World → ℕ → World
calibrated_by_other w ppi =
    let q = w.wr_ports ppi in
    let w1 =
      call (call w ppi (WrCall.set_delta_txm q.other_node_delta_tx)) ppi
        (WrCall.set_delta_rxm q.other_node_delta_rx) in
    set_wr_next w1 ppi (if is_wr_master q.wr_mode then WrState.link_on else WrState.calibration)

-- WR_RESP_CALIB_REQ_TIMEOUT_MS
abbrev pub resp_calib_req_ms : ℕ
resp_calib_req_ms = 300

-- A retry sends nothing here.
unfoldable pub keep_waiting : ℕ → World × Verdict → World × ℤ
keep_waiting ppi (w, Verdict.is_over) = (w, pos 0)
keep_waiting ppi (w, _) = (w, delay_to_retry resp_calib_req_ms w ppi)

unfoldable pub request_answer : WrEnv → ℕ → World × Option ℕ → World × ℤ
request_answer env ppi (w, none) = keep_waiting ppi (check_timer env resp_calib_req_ms w ppi)
request_answer env ppi (w, some id) =
    (if id == calibrated_id then calibrated_by_other w ppi else w, pos 0)

unfoldable pub wr_resp_calib_req : WrEnv → World → ℕ → Option Buffer → Bool → World × ℤ
wr_resp_calib_req env w ppi buf new_state =
    let w1 = if new_state then start_timer resp_calib_req_ms w ppi else w in
    request_answer env ppi (receive_wrsig w1 ppi buf)

-- The link is on; a master that cannot send its message tries again.
unfoldable pub link_is_on : World → ℕ → World
link_is_on w ppi =
    let w1 = call w ppi WrCall.enable_ptracker in
    set_wr w1 ppi (record (w1.wr_ports ppi) {
      wr_mode_on = true;
      parent_wr_mode_on = true;
      wr_next_state = WrState.idle;
    })

unfoldable pub wr_link_on : WrEnv → World → ℕ → Option Buffer → Bool → World × ℤ
wr_link_on env w ppi buf new_state =
    let (w1, failed) = msg_issue_wrsig env w ppi wr_mode_on_id in
    if is_wr_master (w.wr_ports ppi).wr_mode
    then (if failed then (w1, pos 0) else (link_is_on w1 ppi, pos 0))
    else (link_is_on w ppi, pos 0)
