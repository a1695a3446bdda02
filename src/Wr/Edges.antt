-- ===== src/Wr/Edges.antt =====
-- Every run of the handshake goes along an edge.
use mathlib.Core.Path.{subst}
use ppsi.Msg.Bytes.{Buffer}
use ppsi.Prelude.{
  Bool, Bool-cases, Option, arith, false, if_either, if◌then◌else◌, inl, inr, leb_ℤ, none, pos,
  some, true, ℕ, ◌&&◌, ◌==◌, ◌≡◌,
}
use ppsi.Wr.Common.{Verdict, check_timer, next_retry, start_timer, time_left, wr_reset_process}
use ppsi.Wr.Order.{
  After, At, At-Moved, Edge, Enters, Leads, Moved, check_timer-After, is_asked, is_told_to_lock,
  master_is_asked, pll_locks, set_wr-port, slave_is_done, slave_locked, start_timer-At,
  waiting_state-Moved,
}
use ppsi.Wr.Port.{World, WrCall, WrEnv, WrPort, WrRole, WrState, call, is_wr_master, is_wr_slave}
use ppsi.Wr.Signaling.{calibrate_id, lock_id, locked_id, wr_mode_on_id}
use ppsi.Wr.Steps.{
  calibrated_step, locked_step, m_lock_step, on_message, poll_again, present_step, relock,
  s_lock_ms, wr_calibrated, wr_locked, wr_m_lock, wr_present, wr_s_lock,
}

picks : (b : Bool) (s t : WrState) → (if b then some s else none) ≡ some t → s ≡ t
picks true s t h = cc
picks false s t h = cc

on_message-Leads :
    (expected : ℕ) (s t : WrState)
    → ((r : WrRole) → Edge r s t)
    → (q : WrPort) (id : ℕ) (u : WrState) → on_message expected t q id ≡ some u
    → Edge q.wr_mode s u
on_message-Leads expected s t e q id u h =
    subst (λ v. Edge q.wr_mode s v) (picks (id == expected) t u h) (e q.wr_mode)

by_mode_on :
    (q : WrPort) (id : ℕ) (t : WrState)
    → ((id == calibrate_id) && is_wr_master q.wr_mode) ≡ false
    → calibrated_step.accepts q id ≡ some t
    → Edge q.wr_mode WrState.calibrated t
unfolding calibrated_step
by_mode_on q id t e h = elim (Bool-cases ((id == wr_mode_on_id) && is_wr_slave q.wr_mode)) [
  | inl f ↦
      subst (λ v. Edge q.wr_mode WrState.calibrated v) (ground arith) (slave_is_done (ground arith))
  | inr f ↦ ground arith
]

calibrated-Leads :
    (q : WrPort) (id : ℕ) (t : WrState)
    → calibrated_step.accepts q id ≡ some t
    → Edge q.wr_mode WrState.calibrated t
unfolding calibrated_step
calibrated-Leads q id t h = elim (Bool-cases ((id == calibrate_id) && is_wr_master q.wr_mode)) [
  | inl e ↦
      subst (λ v. Edge q.wr_mode WrState.calibrated v) (ground arith)
        (master_is_asked (ground arith))
  | inr e ↦ by_mode_on q id t e h
]

pub reset-At :
    (s : WrState) (w : World) (ppi : ℕ) (r : WrRole)
    → At s (w.wr_ports ppi)
    → At s ((wr_reset_process w ppi r).wr_ports ppi)
unfolding wr_reset_process
reset-At s w ppi r h = ground arith

pub present-Moved :
    (env : WrEnv) (w : World) (ppi : ℕ) (buf : Option Buffer) (new_state : Bool)
    → At WrState.present (w.wr_ports ppi)
    → Moved WrState.present ((wr_present env w ppi buf new_state).0.wr_ports ppi)
unfolding wr_present present_step Leads Enters
present-Moved env w ppi buf new_state h =
    waiting_state-Moved WrState.present env present_step w ppi buf new_state
      (on_message-Leads lock_id WrState.present WrState.s_lock (λ r. is_told_to_lock))
      (λ s w ppi h. h) h

pub m_lock-Moved :
    (env : WrEnv) (w : World) (ppi : ℕ) (buf : Option Buffer) (new_state : Bool)
    → At WrState.m_lock (w.wr_ports ppi)
    → Moved WrState.m_lock ((wr_m_lock env w ppi buf new_state).0.wr_ports ppi)
unfolding wr_m_lock m_lock_step Leads Enters
m_lock-Moved env w ppi buf new_state h =
    waiting_state-Moved WrState.m_lock env m_lock_step w ppi buf new_state
      (on_message-Leads locked_id WrState.m_lock WrState.calibration (λ r. slave_locked))
      (λ s w ppi h. reset-At s w ppi WrRole.role_master h) h

pub locked-Moved :
    (env : WrEnv) (w : World) (ppi : ℕ) (buf : Option Buffer) (new_state : Bool)
    → At WrState.locked (w.wr_ports ppi)
    → Moved WrState.locked ((wr_locked env w ppi buf new_state).0.wr_ports ppi)
unfolding wr_locked locked_step Leads Enters
locked-Moved env w ppi buf new_state h =
    waiting_state-Moved WrState.locked env locked_step w ppi buf new_state
      (on_message-Leads calibrate_id WrState.locked WrState.resp_calib_req (λ r. is_asked))
      (λ s w ppi h. set_wr-port (At s) w ppi (record (w.wr_ports ppi) { ready_for_sync = true }) h)
      h

pub calibrated-Moved :
    (env : WrEnv) (w : World) (ppi : ℕ) (buf : Option Buffer) (new_state : Bool)
    → At WrState.calibrated (w.wr_ports ppi)
    → Moved WrState.calibrated ((wr_calibrated env w ppi buf new_state).0.wr_ports ppi)
unfolding wr_calibrated calibrated_step Leads Enters
calibrated-Moved env w ppi buf new_state h =
    waiting_state-Moved WrState.calibrated env calibrated_step w ppi buf new_state calibrated-Leads
      (λ s w ppi h. h) h

relock-Moved :
    (ppi : ℕ) (r : World × Verdict)
    → After WrState.s_lock ppi r
    → Moved WrState.s_lock ((relock ppi r).wr_ports ppi)
unfolding relock After
relock-Moved ppi (w, Verdict.is_over) h = h
relock-Moved ppi (w, Verdict.send_again) h = At-Moved WrState.s_lock (w.wr_ports ppi) h
relock-Moved ppi (w, Verdict.wait_on) h = At-Moved WrState.s_lock (w.wr_ports ppi) h

poll-Moved :
    (env : WrEnv) (w : World) (ppi : ℕ)
    → At WrState.s_lock (w.wr_ports ppi)
    → Moved WrState.s_lock ((poll_again env w ppi).wr_ports ppi)
unfolding poll_again
poll-Moved env w ppi h =
    let w1 =
      if leb_ℤ (time_left w ppi) (pos (next_retry s_lock_ms w ppi))
      then call w ppi WrCall.locking_disable
      else w in
    let h1 : At WrState.s_lock (w1.wr_ports ppi) =
      if_either (leb_ℤ (time_left w ppi) (pos (next_retry s_lock_ms w ppi)))
        (λ (v : World). At WrState.s_lock (v.wr_ports ppi)) h h in
    relock-Moved ppi (check_timer env s_lock_ms w1 ppi)
      (check_timer-After WrState.s_lock env s_lock_ms w1 ppi h1)

pub s_lock-Moved :
    (env : WrEnv) (w : World) (ppi : ℕ) (buf : Option Buffer) (new_state : Bool)
    → At WrState.s_lock (w.wr_ports ppi)
    → Moved WrState.s_lock ((wr_s_lock env w ppi buf new_state).0.wr_ports ppi)
unfolding wr_s_lock
s_lock-Moved env w ppi buf new_state h =
    if_either new_state (λ (v : World). Moved WrState.s_lock (v.wr_ports ppi))
      (At-Moved WrState.s_lock ((start_timer s_lock_ms w ppi).wr_ports ppi)
        (start_timer-At WrState.s_lock s_lock_ms w ppi h))
      (if_either (env.pll_locked w ppi) (λ (v : World). Moved WrState.s_lock (v.wr_ports ppi))
        (set_wr-port (Moved WrState.s_lock) w ppi
          (record (w.wr_ports ppi) { wr_next_state = WrState.locked }) (h.0, pll_locks))
        (poll-Moved env w ppi h))
