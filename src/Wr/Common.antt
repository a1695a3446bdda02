-- ===== src/Wr/Common.antt =====
-- wr_reset_process, wr_handshake_fail and wr_handshake_retry of
-- proto-ext-whiterabbit/common-fun.c, and the timer of a state.
use ppsi.Ds.{is_ex_active, to_wr_ext_0}
use ppsi.Fsm.Link.{pdstate_disable_extension}
use ppsi.Prelude.{
  Bool, false, if◌then◌else◌, is_zero, leb_ℤ, ltb, pos, true, ℕ, ℤ, ◌*◌, ◌+◌, ◌-ℤ◌, ◌-◌,
}
use ppsi.Timeout.Defs.{pp_next_delay_1, pp_timeout_set}
use ppsi.Wr.Port.{World, WrCall, WrEnv, WrRole, WrState, call, is_wr_slave, set_globals, set_wr}

-- WR_STATE_RETRY
abbrev pub wr_state_retries : ℕ
wr_state_retries = 3

unfoldable pub wr_reset_process : World → ℕ → WrRole → World
wr_reset_process w ppi role =
    let q = record (w.wr_ports ppi) {
      wr_state_timeout = 300;
      cal_period = 3000;
      wr_mode = role;
      wr_mode_on = false;
      was_calibrated = true;
    } in
    set_wr w ppi (
      if is_wr_slave role then q else record q {
        parent_wr_config = 0;
        parent_is_wr_node = false;
        parent_wr_mode_on = false;
        parent_calibrated = false;
      })

abbrev pub set_wr_next : World → ℕ → WrState → World
set_wr_next w ppi s = set_wr w ppi (record (w.wr_ports ppi) { wr_next_state = s })

-- pdstate_disable_extension, with what its hook wr_extension_state_changed does to the port: the state of
-- the extension is then PTP. What it does to the globals is an argument.
unfoldable pub wr_disable_extension : WrEnv → World → ℕ → World
wr_disable_extension env w ppi =
    let w1 = set_globals w (pdstate_disable_extension env.fsm_hooks w.globals ppi) in
    if is_ex_active (w.globals.inst ppi).ext_state
    then wr_reset_process w1 ppi WrRole.role_none
    else w1

-- Without the fallback to PTP the servo starts again and the handshake is tried again.
unfoldable pub wr_handshake_fail : WrEnv → World → ℕ → World
wr_handshake_fail env w ppi =
    let w1 = set_wr_next w ppi WrState.idle in
    let w2 = call (wr_reset_process w1 ppi WrRole.role_none) ppi WrCall.wr_servo_reset in
    if (w.globals.inst ppi).ptp_fallback
    then wr_disable_extension env w2 ppi
    else set_wr w1 ppi (record (w1.wr_ports ppi) { do_restart = true })

-- `true` if there is a retry left.
unfoldable pub wr_handshake_retry : World → ℕ → World × Bool
wr_handshake_retry w ppi =
    let q = w.wr_ports ppi in
    if ltb 0 q.wr_state_retry
    then (set_wr w ppi (record q { wr_state_retry = q.wr_state_retry - 1 }), true)
    else (w, false)

-- On entering a state with a timer: all retries, and the time for all of them.
unfoldable pub start_timer : ℕ → World → ℕ → World
start_timer tmo w ppi =
    let w1 = set_wr w ppi (record (w.wr_ports ppi) { wr_state_retry = wr_state_retries }) in
    set_globals w1 (pp_timeout_set w1.globals ppi to_wr_ext_0 (pos (tmo * (wr_state_retries + 1))))

-- What the timer says: wait on, send again, or the time is over and the handshake has failed.
pub data Verdict : Type 0 where
  wait_on send_again is_over : Verdict

-- The time that the whole state has left, and the time at which it is to be sent again.
unfoldable pub time_left : World → ℕ → ℤ
time_left w ppi = pp_next_delay_1 w.globals ppi to_wr_ext_0

unfoldable pub next_retry : ℕ → World → ℕ → ℕ
next_retry tmo w ppi = (w.wr_ports ppi).wr_state_retry * tmo

unfoldable pub check_timer : WrEnv → ℕ → World → ℕ → World × Verdict
check_timer env tmo w ppi =
    let (w1, again) = wr_handshake_retry w ppi in
    if leb_ℤ (time_left w ppi) (pos (next_retry tmo w ppi))
    then (if is_zero (time_left w ppi)
        then (wr_handshake_fail env w ppi, Verdict.is_over)
        else (w1, if again then Verdict.send_again else Verdict.wait_on))
    else (w, Verdict.wait_on)

-- pp_next_delay_1(ppi,PP_TO_WR_EXT_0)-wrp->wrStateRetry*WR_TMO_MS
unfoldable pub delay_to_retry : ℕ → World → ℕ → ℤ
delay_to_retry tmo w ppi = time_left w ppi -ℤ pos (next_retry tmo w ppi)

-- msg_issue_wrsig; `true` is a failure
unfoldable pub msg_issue_wrsig : WrEnv → World → ℕ → ℕ → World × Bool
msg_issue_wrsig env w ppi id = (call w ppi (WrCall.send_wrsig id), env.send_fails w ppi id)
