-- ===== src/Wr/Order.antt =====
-- The order of the states of the handshake.
use mathlib.Core.Path.{subst}
use ppsi.Ds.{ppm_signaling}
use ppsi.Msg.Bytes.{Buffer, get16}
use ppsi.Prelude.{
  Bool, Option, arith, false, if_either, if◌then◌else◌, is_zero, leb_ℤ, ltb, none, pos, refl, some,
  sym, true, update_self, ℕ, ℤ, ◌-◌, ◌==◌, ◌∙◌, ◌≡◌,
}
use ppsi.Wr.Common.{
  Verdict, check_timer, msg_issue_wrsig, next_retry, start_timer, time_left, wr_disable_extension,
  wr_handshake_fail, wr_handshake_retry, wr_reset_process, wr_state_retries,
}
use ppsi.Wr.GiveUp.{wr_handshake_fail-next}
use ppsi.Wr.Port.{World, WrEnv, WrPort, WrRole, WrState, is_wr_master, is_wr_slave, set_wr}
use ppsi.Wr.Signaling.{
  calibrate_id, calibrated_id, is_pdetection, is_wr_tlv, msg_unpack_wrsig, note_other_node,
  receive_wrsig,
}
use ppsi.Wr.Steps.{Waiting, answer, by_message, by_verdict, send_and_wait, waiting_state}

-- From which state which one may follow, by the role that the port has then.
pub data Edge (r : WrRole) : WrState → WrState → Type 0 where
  stays : (s : WrState) → Edge r s s
  fails : (s : WrState) → Edge r s WrState.idle
  starts_as_slave : is_wr_slave r ≡ true → Edge r WrState.idle WrState.present
  starts_as_master : Edge r WrState.idle WrState.m_lock
  is_told_to_lock : Edge r WrState.present WrState.s_lock
  pll_locks : Edge r WrState.s_lock WrState.locked
  slave_locked : Edge r WrState.m_lock WrState.calibration
  is_asked : Edge r WrState.locked WrState.resp_calib_req
  calibrates : Edge r WrState.calibration WrState.calibrated
  master_is_asked : is_wr_master r ≡ true → Edge r WrState.calibrated WrState.resp_calib_req
  slave_is_done : is_wr_slave r ≡ true → Edge r WrState.calibrated WrState.link_on
  master_is_done : is_wr_master r ≡ true → Edge r WrState.resp_calib_req WrState.link_on
  calibrates_too : is_wr_master r ≡ false → Edge r WrState.resp_calib_req WrState.calibration
  link_is_up : Edge r WrState.link_on WrState.idle

-- The port is in state `s`, and goes on from there along an edge.
abbrev pub Moved : WrState → WrPort → Type 0
Moved s q = (q.wr_state ≡ s) × Edge q.wr_mode s q.wr_next_state

-- The port is in state `s` and stays there so far.
abbrev pub At : WrState → WrPort → Type 0
At s q = (q.wr_state ≡ s) × (q.wr_next_state ≡ s)

pub At-Moved : (s : WrState) (q : WrPort) → At s q → Moved s q
At-Moved s q (e, f) = (e, subst (λ t. Edge q.wr_mode s t) (sym f) (stays s))

pub set_wr-port :
    (P : WrPort → Type 0) (w : World) (ppi : ℕ) (q : WrPort)
    → P q
    → P ((set_wr w ppi q).wr_ports ppi)
set_wr-port P w ppi q h = subst P (sym (update_self w.wr_ports ppi q)) h

note_other_node-At :
    (s : WrState) (buf : Buffer) (q : WrPort) → At s q → At s (note_other_node buf q)
unfolding note_other_node
note_other_node-At s buf q h =
    if_either (get16 buf 54 == calibrate_id) (At s) h
      (if_either (get16 buf 54 == calibrated_id) (At s) h h)

pub receive_wrsig-At :
    (s : WrState) (w : World) (ppi : ℕ) (buf : Option Buffer)
    → At s (w.wr_ports ppi)
    → At s ((receive_wrsig w ppi buf).0.wr_ports ppi)
unfolding receive_wrsig msg_unpack_wrsig
receive_wrsig-At s w ppi none h = h
receive_wrsig-At s w ppi (some buf) h =
    let q = note_other_node buf (w.wr_ports ppi) in
    let noted = set_wr-port (At s) w ppi q (note_other_node-At s buf (w.wr_ports ppi) h) in
    let w1 = set_wr w ppi q in
    if_either ((w.globals.inst ppi).received_ptp_header.message_type == ppm_signaling)
      (λ (r : World × Option ℕ). At s (r.0.wr_ports ppi))
      (if_either (is_wr_tlv buf) (λ (r : World × Option ℕ). At s (r.0.wr_ports ppi))
        (if_either (is_pdetection (w1.globals.inst ppi).pdstate)
          (λ (v : World). At s (v.wr_ports ppi)) noted noted)
        h)
      h

pub start_timer-At :
    (s : WrState) (tmo : ℕ) (w : World) (ppi : ℕ)
    → At s (w.wr_ports ppi)
    → At s ((start_timer tmo w ppi).wr_ports ppi)
unfolding start_timer
start_timer-At s tmo w ppi h =
    set_wr-port (At s) w ppi (record (w.wr_ports ppi) { wr_state_retry = wr_state_retries }) h

pub along :
    (s t : WrState) (q : WrPort)
    → q.wr_state ≡ s
    → q.wr_next_state ≡ t
    → Edge q.wr_mode s t
    → Moved s q
along s t q e f edge = (e, subst (λ t. Edge q.wr_mode s t) (sym f) edge)

wr_handshake_fail-state :
    (env : WrEnv) (w : World) (ppi : ℕ)
    → ((wr_handshake_fail env w ppi).wr_ports ppi).wr_state ≡ (w.wr_ports ppi).wr_state
unfolding wr_handshake_fail wr_disable_extension wr_reset_process
wr_handshake_fail-state env w ppi = ground arith

wr_handshake_fail-Moved :
    (s : WrState) (env : WrEnv) (w : World) (ppi : ℕ)
    → At s (w.wr_ports ppi)
    → Moved s ((wr_handshake_fail env w ppi).wr_ports ppi)
wr_handshake_fail-Moved s env w ppi h =
    along s WrState.idle ((wr_handshake_fail env w ppi).wr_ports ppi)
      (wr_handshake_fail-state env w ppi ∙ h.0) (wr_handshake_fail-next env w ppi) (fails s)

-- After the timer's verdict: the handshake has failed, or the port stays.
unfoldable pub After : WrState → ℕ → World × Verdict → Type 0
After s ppi (w, Verdict.is_over) = Moved s (w.wr_ports ppi)
After s ppi (w, Verdict.send_again) = At s (w.wr_ports ppi)
After s ppi (w, Verdict.wait_on) = At s (w.wr_ports ppi)

retry-At :
    (s : WrState) (w : World) (ppi : ℕ)
    → At s (w.wr_ports ppi)
    → At s ((wr_handshake_retry w ppi).0.wr_ports ppi)
unfolding wr_handshake_retry
retry-At s w ppi h =
    let q = w.wr_ports ppi in
    if_either (ltb 0 q.wr_state_retry) (λ (r : World × Bool). At s (r.0.wr_ports ppi))
      (set_wr-port (At s) w ppi (record q { wr_state_retry = q.wr_state_retry - 1 }) h) h

After-retried :
    (s : WrState) (ppi : ℕ) (w : World) (again : Bool)
    → At s (w.wr_ports ppi)
    → After s ppi (w, if again then Verdict.send_again else Verdict.wait_on)
unfolding After
After-retried s ppi w true h = h
After-retried s ppi w false h = h

pub check_timer-After :
    (s : WrState) (env : WrEnv) (tmo : ℕ) (w : World) (ppi : ℕ)
    → At s (w.wr_ports ppi)
    → After s ppi (check_timer env tmo w ppi)
unfolding check_timer After
check_timer-After s env tmo w ppi h =
    let r = wr_handshake_retry w ppi in
    if_either (leb_ℤ (time_left w ppi) (pos (next_retry tmo w ppi))) (After s ppi)
      (if_either (is_zero (time_left w ppi)) (After s ppi) (wr_handshake_fail-Moved s env w ppi h)
        (After-retried s ppi r.0 r.1 (retry-At s w ppi h)))
      h

-- What a state that repeats its message accepts leads along an edge.
unfoldable pub Leads : WrState → Waiting → Type 0
Leads s st = (q : WrPort) (id : ℕ) (t : WrState) → st.accepts q id ≡ some t → Edge q.wr_mode s t

answer-Moved :
    (s : WrState) (a : Option WrState) (w : World) (ppi : ℕ)
    → ((t : WrState) → a ≡ some t → Edge (w.wr_ports ppi).wr_mode s t)
    → At s (w.wr_ports ppi)
    → Moved s ((answer a w ppi).wr_ports ppi)
unfolding answer
answer-Moved s none w ppi l h = At-Moved s (w.wr_ports ppi) h
answer-Moved s (some t) w ppi l h =
    set_wr-port (Moved s) w ppi (record (w.wr_ports ppi) { wr_next_state = t }) (h.0, l t refl)

by_verdict-Moved :
    (s : WrState) (env : WrEnv) (st : Waiting) (ppi : ℕ) (r : World × Verdict)
    → After s ppi r
    → Moved s ((by_verdict env st ppi r).0.wr_ports ppi)
unfolding by_verdict After send_and_wait msg_issue_wrsig
by_verdict-Moved s env st ppi (w, Verdict.is_over) h = h
by_verdict-Moved s env st ppi (w, Verdict.send_again) h = At-Moved s (w.wr_ports ppi) h
by_verdict-Moved s env st ppi (w, Verdict.wait_on) h = At-Moved s (w.wr_ports ppi) h

by_message-Moved :
    (s : WrState) (env : WrEnv) (st : Waiting) (ppi : ℕ) (r : World × Option ℕ)
    → Leads s st
    → At s (r.0.wr_ports ppi)
    → Moved s ((by_message env st ppi r).0.wr_ports ppi)
unfolding by_message Leads
by_message-Moved s env st ppi (w, none) l h =
    by_verdict-Moved s env st ppi (check_timer env st.tmo_ms w ppi)
      (check_timer-After s env st.tmo_ms w ppi h)
by_message-Moved s env st ppi (w, some id) l h =
    answer-Moved s (st.accepts (w.wr_ports ppi) id) w ppi (l (w.wr_ports ppi) id) h

-- Entering leaves the two states of the port alone.
unfoldable pub Enters : Waiting → Type 0
Enters st =
    (s : WrState) (w : World) (ppi : ℕ)
    → At s (w.wr_ports ppi)
    → At s ((st.on_enter w ppi).wr_ports ppi)

pub waiting_state-Moved :
    (s : WrState) (env : WrEnv) (st : Waiting) (w : World) (ppi : ℕ) (buf : Option Buffer)
    (new_state : Bool)
    → Leads s st
    → Enters st
    → At s (w.wr_ports ppi)
    → Moved s ((waiting_state env st w ppi buf new_state).0.wr_ports ppi)
unfolding waiting_state send_and_wait msg_issue_wrsig Enters
waiting_state-Moved s env st w ppi buf new_state l en h =
    let w1 = start_timer st.tmo_ms (st.on_enter w ppi) ppi in
    if_either new_state (λ (r : World × ℤ). Moved s (r.0.wr_ports ppi))
      (At-Moved s (w1.wr_ports ppi)
        (start_timer-At s st.tmo_ms (st.on_enter w ppi) ppi (en s w ppi h)))
      (by_message-Moved s env st ppi (receive_wrsig w ppi buf) l (receive_wrsig-At s w ppi buf h))
