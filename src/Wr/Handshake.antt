-- ===== src/Wr/Handshake.antt =====
-- The remaining states, and a whole run of the state machine of the extension.
use ppsi.Ds.{State, is_ex_active, same_state}
use ppsi.Fsm.Link.{pdstate_enable_extension}
use ppsi.Msg.Bytes.{Buffer}
use ppsi.Prelude.{
  Bool, Option, ap, arith, if_either, if◌then◌else◌, none, not, pos, refl, some, true, ℕ, ℤ, ◌*ℤ◌,
  ◌+ℤ◌, ◌<◌, ◌==◌, ◌∙◌, ◌≡◌,
}
use ppsi.Wr.Common.{
  Verdict, check_timer, msg_issue_wrsig, start_timer, wr_disable_extension, wr_reset_process,
}
use ppsi.Wr.Edges.{calibrated-Moved, locked-Moved, m_lock-Moved, present-Moved, s_lock-Moved}
use ppsi.Wr.Order.{
  After, At, At-Moved, Edge, Moved, along, calibrates, calibrates_too, check_timer-After,
  link_is_up, master_is_done, receive_wrsig-At, set_wr-port, start_timer-At, starts_as_master,
  starts_as_slave,
}
use ppsi.Wr.Port.{
  ParentDetection, World, WrCall, WrEnv, WrRole, WrState, call, is_wr_master, is_wr_slave,
  set_globals, set_wr,
}
use ppsi.Wr.Run.{
  by_detection, chosen_state, is_ex_ptp, is_idle, leave_slave, master_idle, plain_parent_found,
  start_as_slave, wr_idle, wr_parent_found, wr_run_state_machine, wr_state_action, wr_state_value,
}
use ppsi.Wr.Signaling.{calibrated_id, receive_wrsig, slave_present_id, wr_mode_on_id}
use ppsi.Wr.Steps.{
  calibrated_by_other, fixed_delta, keep_waiting, link_is_on, request_answer, resp_calib_req_ms,
  wr_calibration, wr_link_on, wr_resp_calib_req,
}

calibration-Moved :
    (env : WrEnv) (w : World) (ppi : ℕ) (buf : Option Buffer) (new_state : Bool)
    → At WrState.calibration (w.wr_ports ppi)
    → Moved WrState.calibration ((wr_calibration env w ppi buf new_state).0.wr_ports ppi)
unfolding wr_calibration msg_issue_wrsig
calibration-Moved env w ppi buf new_state h =
    let q = w.wr_ports ppi in
    let q1 = record q {
      delta_tx = fixed_delta (q.egress_latency *ℤ pos 1000);
      delta_rx = fixed_delta ((q.ingress_latency +ℤ q.semistatic_latency) *ℤ pos 1000);
      wr_next_state = WrState.calibrated;
      was_calibrated = true;
    } in
    let w1 = set_wr w ppi q1 in
    let there = set_wr-port (Moved WrState.calibration) w ppi q1 (h.0, calibrates) in
    set_wr-port (Moved WrState.calibration) w1 ppi (record (w1.wr_ports ppi) { wr_port_state = 0 })
      there

keep_waiting-Moved :
    (ppi : ℕ) (r : World × Verdict)
    → After WrState.resp_calib_req ppi r
    → Moved WrState.resp_calib_req ((keep_waiting ppi r).0.wr_ports ppi)
unfolding keep_waiting After
keep_waiting-Moved ppi (w, Verdict.is_over) h = h
keep_waiting-Moved ppi (w, Verdict.send_again) h =
    At-Moved WrState.resp_calib_req (w.wr_ports ppi) h
keep_waiting-Moved ppi (w, Verdict.wait_on) h = At-Moved WrState.resp_calib_req (w.wr_ports ppi) h

after_request :
    (r : WrRole)
    → Edge r WrState.resp_calib_req
        (if is_wr_master r then WrState.link_on else WrState.calibration)
after_request WrRole.role_master = master_is_done refl
after_request WrRole.role_slave = calibrates_too refl
after_request WrRole.role_none = calibrates_too refl

request_answer-Moved :
    (env : WrEnv) (ppi : ℕ) (r : World × Option ℕ)
    → At WrState.resp_calib_req (r.0.wr_ports ppi)
    → Moved WrState.resp_calib_req ((request_answer env ppi r).0.wr_ports ppi)
unfolding request_answer calibrated_by_other
request_answer-Moved env ppi (w, none) h =
    keep_waiting-Moved ppi (check_timer env resp_calib_req_ms w ppi)
      (check_timer-After WrState.resp_calib_req env resp_calib_req_ms w ppi h)
request_answer-Moved env ppi (w, some id) h =
    let q = w.wr_ports ppi in
    if_either (id == calibrated_id) (λ (v : World). Moved WrState.resp_calib_req (v.wr_ports ppi))
      (set_wr-port (Moved WrState.resp_calib_req) w ppi
        (record q {
          wr_next_state = if is_wr_master q.wr_mode then WrState.link_on else WrState.calibration;
        })
        (h.0, after_request q.wr_mode))
      (At-Moved WrState.resp_calib_req q h)

resp_calib_req-Moved :
    (env : WrEnv) (w : World) (ppi : ℕ) (buf : Option Buffer) (new_state : Bool)
    → At WrState.resp_calib_req (w.wr_ports ppi)
    → Moved WrState.resp_calib_req ((wr_resp_calib_req env w ppi buf new_state).0.wr_ports ppi)
unfolding wr_resp_calib_req
resp_calib_req-Moved env w ppi buf new_state h =
    let w1 = if new_state then start_timer resp_calib_req_ms w ppi else w in
    let h1 : At WrState.resp_calib_req (w1.wr_ports ppi) =
      if_either new_state (λ (v : World). At WrState.resp_calib_req (v.wr_ports ppi))
        (start_timer-At WrState.resp_calib_req resp_calib_req_ms w ppi h) h in
    request_answer-Moved env ppi (receive_wrsig w1 ppi buf)
      (receive_wrsig-At WrState.resp_calib_req w1 ppi buf h1)

link_is_on-Moved :
    (w : World) (ppi : ℕ)
    → At WrState.link_on (w.wr_ports ppi)
    → Moved WrState.link_on ((link_is_on w ppi).wr_ports ppi)
unfolding link_is_on
link_is_on-Moved w ppi h =
    set_wr-port (Moved WrState.link_on) w ppi
      (record (w.wr_ports ppi) {
        wr_mode_on = true;
        parent_wr_mode_on = true;
        wr_next_state = WrState.idle;
      })
      (h.0, link_is_up)

link_on-Moved :
    (env : WrEnv) (w : World) (ppi : ℕ) (buf : Option Buffer) (new_state : Bool)
    → At WrState.link_on (w.wr_ports ppi)
    → Moved WrState.link_on ((wr_link_on env w ppi buf new_state).0.wr_ports ppi)
unfolding wr_link_on msg_issue_wrsig
link_on-Moved env w ppi buf new_state h =
    if_either (is_wr_master (w.wr_ports ppi).wr_mode)
      (λ (r : World × ℤ). Moved WrState.link_on (r.0.wr_ports ppi))
      (if_either (env.send_fails w ppi wr_mode_on_id)
        (λ (r : World × ℤ). Moved WrState.link_on (r.0.wr_ports ppi))
        (At-Moved WrState.link_on (w.wr_ports ppi) h)
        (link_is_on-Moved (call w ppi (WrCall.send_wrsig wr_mode_on_id)) ppi h))
      (link_is_on-Moved w ppi h)

master_idle-Moved :
    (env : WrEnv) (ppi : ℕ) (r : World × Option ℕ)
    → At WrState.idle (r.0.wr_ports ppi)
    → Moved WrState.idle ((master_idle env ppi r).0.wr_ports ppi)
unfolding master_idle
master_idle-Moved env ppi (w, none) h = At-Moved WrState.idle (w.wr_ports ppi) h
master_idle-Moved env ppi (w, some id) h =
    if_either (id == slave_present_id) (λ (v : World). Moved WrState.idle (v.wr_ports ppi))
      (set_wr-port (Moved WrState.idle) w ppi
        (record (w.wr_ports ppi) { wr_next_state = WrState.m_lock }) (h.0, starts_as_master))
      (At-Moved WrState.idle (w.wr_ports ppi) h)

started_port :
    (w : World) (ppi : ℕ)
    → (((start_as_slave w ppi).wr_ports ppi).wr_state ≡ (w.wr_ports ppi).wr_state)
      × (((start_as_slave w ppi).wr_ports ppi).wr_next_state ≡ WrState.present)
      × (((start_as_slave w ppi).wr_ports ppi).wr_mode ≡ WrRole.role_slave)
unfolding start_as_slave wr_reset_process leave_slave
started_port w ppi = (ground arith, ground arith, ground arith)

start_as_slave-Moved :
    (w : World) (ppi : ℕ)
    → At WrState.idle (w.wr_ports ppi)
    → Moved WrState.idle ((start_as_slave w ppi).wr_ports ppi)
start_as_slave-Moved w ppi h =
    let port = started_port w ppi in
    along WrState.idle WrState.present ((start_as_slave w ppi).wr_ports ppi) (port.0 ∙ h.0) port.1
      (starts_as_slave (ap is_wr_slave port.2))

wr_parent_found-Moved :
    (env : WrEnv) (w : World) (ppi : ℕ)
    → At WrState.idle (w.wr_ports ppi)
    → Moved WrState.idle ((wr_parent_found env w ppi).wr_ports ppi)
unfolding wr_parent_found
wr_parent_found-Moved env w ppi h =
    let w1 =
      if is_ex_ptp (w.globals.inst ppi).ext_state
      then set_globals w (pdstate_enable_extension env.fsm_hooks w.globals ppi)
      else w in
    let h1 : At WrState.idle (w1.wr_ports ppi) =
      if_either (is_ex_ptp (w.globals.inst ppi).ext_state)
        (λ (v : World). At WrState.idle (v.wr_ports ppi)) h h in
    if_either (is_ex_active (w1.globals.inst ppi).ext_state)
      (λ (v : World). Moved WrState.idle (v.wr_ports ppi))
      (if_either (is_idle (w1.wr_ports ppi).wr_state)
        (λ (v : World). Moved WrState.idle (v.wr_ports ppi)) (start_as_slave-Moved w1 ppi h1)
        (At-Moved WrState.idle (w1.wr_ports ppi) h1))
      (set_wr-port (Moved WrState.idle) w1 ppi
        (record (w1.wr_ports ppi) { parent_detection = ParentDetection.no_detection })
        (At-Moved WrState.idle (w1.wr_ports ppi) h1))

plain_parent_found-At :
    (env : WrEnv) (w : World) (ppi : ℕ)
    → At WrState.idle (w.wr_ports ppi)
    → At WrState.idle ((plain_parent_found env w ppi).wr_ports ppi)
unfolding plain_parent_found wr_disable_extension wr_reset_process leave_slave
plain_parent_found-At env w ppi h = (ground arith, ground arith)

by_detection-Moved :
    (env : WrEnv) (w : World) (ppi : ℕ) (d : ParentDetection)
    → At WrState.idle (w.wr_ports ppi)
    → Moved WrState.idle ((by_detection env w ppi d).0.wr_ports ppi)
unfolding by_detection
by_detection-Moved env w ppi ParentDetection.wr_parent h = wr_parent_found-Moved env w ppi h
by_detection-Moved env w ppi ParentDetection.not_wr_parent h =
    At-Moved WrState.idle ((plain_parent_found env w ppi).wr_ports ppi)
      (plain_parent_found-At env w ppi h)
by_detection-Moved env w ppi ParentDetection.no_detection h =
    At-Moved WrState.idle (w.wr_ports ppi) h

idle-Moved :
    (env : WrEnv) (w : World) (ppi : ℕ) (buf : Option Buffer) (new_state : Bool)
    → At WrState.idle (w.wr_ports ppi)
    → Moved WrState.idle ((wr_idle env w ppi buf new_state).0.wr_ports ppi)
unfolding wr_idle
idle-Moved env w ppi buf new_state h =
    if_either (same_state (w.globals.inst ppi).state State.master)
      (λ (r : World × ℤ). Moved WrState.idle (r.0.wr_ports ppi))
      (master_idle-Moved env ppi (receive_wrsig w ppi buf)
        (receive_wrsig-At WrState.idle w ppi buf h))
      (by_detection-Moved env w ppi (w.wr_ports ppi).parent_detection h)

-- A state that the table of actions has.
IsState : WrState → Type 0
IsState s = wr_state_value s < 9

action-Moved :
    (env : WrEnv) (s : WrState) (w : World) (ppi : ℕ) (buf : Option Buffer) (new_state : Bool)
    → IsState s
    → At s (w.wr_ports ppi)
    → Moved s ((wr_state_action env s w ppi buf new_state).0.wr_ports ppi)
unfolding wr_state_action IsState
action-Moved env WrState.idle w ppi buf n i h = idle-Moved env w ppi buf n h
action-Moved env WrState.present w ppi buf n i h = present-Moved env w ppi buf n h
action-Moved env WrState.m_lock w ppi buf n i h = m_lock-Moved env w ppi buf n h
action-Moved env WrState.s_lock w ppi buf n i h = s_lock-Moved env w ppi buf n h
action-Moved env WrState.locked w ppi buf n i h = locked-Moved env w ppi buf n h
action-Moved env WrState.calibration w ppi buf n i h = calibration-Moved env w ppi buf n h
action-Moved env WrState.calibrated w ppi buf n i h = calibrated-Moved env w ppi buf n h
action-Moved env WrState.resp_calib_req w ppi buf n i h = resp_calib_req-Moved env w ppi buf n h
action-Moved env WrState.link_on w ppi buf n i h = link_on-Moved env w ppi buf n h
action-Moved env WrState.max_states w ppi buf n i h = absurd (omega (arith, i))

chosen_state-IsState : (w : World) (ppi : ℕ) → IsState (chosen_state w ppi)
unfolding chosen_state IsState
chosen_state-IsState w ppi = ground arith

-- A run of the state machine of the extension is in the state that was chosen, which is idle where
-- the extension is not active, the port initializes or no such state exists, and goes on from there
-- only along an edge of the handshake, whatever arrives and whatever the hardware answers.
pub wr_run_state_machine-Moved :
    (env : WrEnv) (w : World) (ppi : ℕ) (buf : Option Buffer)
    → Moved (chosen_state w ppi) ((wr_run_state_machine env w ppi buf).0.wr_ports ppi)
unfolding wr_run_state_machine
wr_run_state_machine-Moved env w ppi buf =
    let s = chosen_state w ppi in
    let q = record (w.wr_ports ppi) { wr_state = s; wr_next_state = s } in
    action-Moved env s (set_wr w ppi q) ppi buf
      (not (wr_state_value (w.wr_ports ppi).wr_state == wr_state_value s))
      (chosen_state-IsState w ppi) (set_wr-port (At s) w ppi q (refl, refl))
