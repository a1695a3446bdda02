-- ===== src/Wr/Retry.antt =====
-- How often and how long a state of the handshake repeats its message.
use ppsi.Msg.Bytes.{Buffer}
use ppsi.Prelude.{List, Option, [], arith, false, none, refl, some, true, ℕ, ◌+◌, ◌∙◌, ◌∷◌, ◌≡◌}
use ppsi.Wr.Common.{
  Verdict, check_timer, msg_issue_wrsig, start_timer, wr_disable_extension, wr_handshake_fail,
  wr_handshake_retry, wr_reset_process,
}
use ppsi.Wr.Port.{World, WrCall, WrEnv, WrPort, WrState}
use ppsi.Wr.Signaling.{msg_unpack_wrsig, note_other_node, receive_wrsig}
use ppsi.Wr.Steps.{
  Waiting, answer, by_message, by_verdict, calibrated_step, locked_step, m_lock_step, present_step,
  send_and_wait, waiting_state,
}

-- The messages that the port has sent.
unfoldable pub sent : List WrCall → ℕ
sent [] = 0
sent (WrCall.send_wrsig id ∷ calls) = sent calls + 1
sent (_ ∷ calls) = sent calls

-- The messages sent and the retries that are left.
abbrev pub budget : ℕ → World → ℕ
budget ppi w = sent (w.wr_calls ppi) + (w.wr_ports ppi).wr_state_retry

answer-budget :
    (s : Option WrState) (w : World) (ppi : ℕ) → budget ppi (answer s w ppi) ≡ budget ppi w
unfolding answer
answer-budget none w ppi = refl
answer-budget (some s) w ppi = ground arith

note_other_node-retry :
    (buf : Buffer) (q : WrPort) → (note_other_node buf q).wr_state_retry ≡ q.wr_state_retry
unfolding note_other_node
note_other_node-retry buf q = ground arith

receive_wrsig-budget :
    (w : World) (ppi : ℕ) (buf : Option Buffer)
    → budget ppi (receive_wrsig w ppi buf).0 ≡ budget ppi w
unfolding receive_wrsig msg_unpack_wrsig
receive_wrsig-budget w ppi none = refl
receive_wrsig-budget w ppi (some buf) =
    let noted = note_other_node-retry buf (w.wr_ports ppi) in ground arith

wr_handshake_fail-budget :
    (env : WrEnv) (w : World) (ppi : ℕ) → budget ppi (wr_handshake_fail env w ppi) ≡ budget ppi w
unfolding wr_handshake_fail wr_disable_extension wr_reset_process sent
wr_handshake_fail-budget env w ppi = ground arith

-- A retry is worth a message.
abbrev worth : Verdict → ℕ
worth Verdict.send_again = 1
worth _ = 0

check_timer-budget :
    (env : WrEnv) (tmo : ℕ) (w : World) (ppi : ℕ)
    → budget ppi (check_timer env tmo w ppi).0 + worth (check_timer env tmo w ppi).1 ≡ budget ppi w
unfolding check_timer wr_handshake_retry
check_timer-budget env tmo w ppi = let failed = wr_handshake_fail-budget env w ppi in ground arith

send_and_wait-budget :
    (env : WrEnv) (st : Waiting) (w : World) (ppi : ℕ)
    → budget ppi (send_and_wait env st w ppi).0 ≡ budget ppi w + 1
unfolding send_and_wait msg_issue_wrsig sent
send_and_wait-budget env st w ppi = ground arith

by_verdict-budget :
    (env : WrEnv) (st : Waiting) (ppi : ℕ) (r : World × Verdict)
    → budget ppi (by_verdict env st ppi r).0 ≡ budget ppi r.0 + worth r.1
unfolding by_verdict
by_verdict-budget env st ppi (w, Verdict.is_over) = omega arith
by_verdict-budget env st ppi (w, Verdict.send_again) = send_and_wait-budget env st w ppi
by_verdict-budget env st ppi (w, Verdict.wait_on) = omega arith

by_message-budget :
    (env : WrEnv) (st : Waiting) (ppi : ℕ) (r : World × Option ℕ)
    → budget ppi (by_message env st ppi r).0 ≡ budget ppi r.0
unfolding by_message
by_message-budget env st ppi (w, none) =
    by_verdict-budget env st ppi (check_timer env st.tmo_ms w ppi)
    ∙ check_timer-budget env st.tmo_ms w ppi
by_message-budget env st ppi (w, some id) = answer-budget (st.accepts (w.wr_ports ppi) id) w ppi

-- The states that repeat a message, by what they send and accept.
pub data IsWaiting : Waiting → Type 0 where
  in_present : IsWaiting present_step
  in_m_lock : IsWaiting m_lock_step
  in_locked : IsWaiting locked_step
  in_calibrated : IsWaiting calibrated_step

enter-budget :
    (w : World) (ppi : ℕ) (tmo : ℕ) → budget ppi (start_timer tmo w ppi) ≡ sent (w.wr_calls ppi) + 3
unfolding start_timer
enter-budget w ppi tmo = ground arith

on_enter-sent :
    (st : Waiting) (w : World) (ppi : ℕ)
    → IsWaiting st
    → sent ((st.on_enter w ppi).wr_calls ppi) ≡ sent (w.wr_calls ppi)
unfolding present_step m_lock_step locked_step calibrated_step sent wr_reset_process
on_enter-sent st w ppi in_present = ground arith
on_enter-sent st w ppi in_m_lock = refl
on_enter-sent st w ppi in_locked = refl
on_enter-sent st w ppi in_calibrated = refl

-- A state of the handshake that repeats its message sends it once when it is entered and has three
-- retries then; in every later run the messages sent and the retries left add up to the same number,
-- whatever arrives and whatever the clock says. So it sends four messages at most.
pub waiting_state-budget :
    (env : WrEnv) (st : Waiting) (w : World) (ppi : ℕ) (buf : Option Buffer)
    → IsWaiting st
    → (budget ppi (waiting_state env st w ppi buf true).0 ≡ sent (w.wr_calls ppi) + 4)
      × (budget ppi (waiting_state env st w ppi buf false).0 ≡ budget ppi w)
unfolding waiting_state
waiting_state-budget env st w ppi buf h =
    let w1 = start_timer st.tmo_ms (st.on_enter w ppi) ppi in
    (
      (omega (
        arith,
        send_and_wait-budget env st w1 ppi,
        enter-budget (st.on_enter w ppi) ppi st.tmo_ms,
        on_enter-sent st w ppi h,
      )),
      by_message-budget env st ppi (receive_wrsig w ppi buf) ∙ receive_wrsig-budget w ppi buf,
    )
