-- ===== src/Wr/GiveUp.antt =====
-- How a state of the handshake gives up.
use mathlib.Core.Path.{subst}
use ppsi.Ds.{Globals, to_wr_ext_0}
use ppsi.Msg.Bytes.{Buffer}
use ppsi.Prelude.{
  List, Option, ap, arith, false, none, pos, refl, sym, true, ℕ, ℤ, ◌%◌, ◌*◌, ◌+◌, ◌-◌, ◌<◌, ◌^◌,
  ◌∙◌, ◌≡◌, ◌≤◌,
}
use ppsi.Timeout.Clock.{ulong_mod}
use ppsi.Timeout.Defs.{pp_timeout_set, pp_timeout_set_tmo, set_counter}
use ppsi.Timeout.Expiry.{advance, total}
use ppsi.Wr.Common.{
  Verdict, check_timer, msg_issue_wrsig, start_timer, time_left, wr_disable_extension,
  wr_handshake_fail, wr_reset_process,
}
use ppsi.Wr.Port.{World, WrEnv, WrState}
use ppsi.Wr.Retry.{IsWaiting, in_calibrated, in_locked, in_m_lock, in_present}
use ppsi.Wr.Signaling.{receive_wrsig}
use ppsi.Wr.Steps.{
  Waiting, by_message, by_verdict, calibrated_step, locked_step, m_lock_step, present_step,
  send_and_wait, waiting_state,
}
use ppsi.Wr.Ticking.{Ticking, armed, later, later-Ticking, left_of, waited, waited-Ticking}

on_enter-globals :
    (st : Waiting) (w : World) (ppi : ℕ) → IsWaiting st → (st.on_enter w ppi).globals ≡ w.globals
unfolding present_step m_lock_step locked_step calibrated_step wr_reset_process
on_enter-globals st w ppi in_present = refl
on_enter-globals st w ppi in_m_lock = refl
on_enter-globals st w ppi in_locked = refl
on_enter-globals st w ppi in_calibrated = refl

-- The globals of a state that was just entered.
entered-globals :
    (env : WrEnv) (st : Waiting) (w : World) (ppi : ℕ) (buf : Option Buffer)
    → IsWaiting st
    → (waiting_state env st w ppi buf true).0.globals
      ≡ pp_timeout_set w.globals ppi to_wr_ext_0 (pos (st.tmo_ms * 4))
unfolding waiting_state send_and_wait start_timer msg_issue_wrsig
entered-globals env st w ppi buf h =
    ap (λ (g : Globals). pp_timeout_set g ppi to_wr_ext_0 (pos (st.tmo_ms * 4)))
      (on_enter-globals st w ppi h)

tmo_bound : (st : Waiting) → IsWaiting st → st.tmo_ms * 4 < 2 ^ 31
unfolding present_step m_lock_step locked_step calibrated_step
tmo_bound st in_present = omega arith
tmo_bound st in_m_lock = omega arith
tmo_bound st in_locked = omega arith
tmo_bound st in_calibrated = omega arith

pub wr_handshake_fail-next :
    (env : WrEnv) (w : World) (ppi : ℕ)
    → ((wr_handshake_fail env w ppi).wr_ports ppi).wr_next_state ≡ WrState.idle
unfolding wr_handshake_fail wr_disable_extension wr_reset_process
wr_handshake_fail-next env w ppi = ground arith

check_timer-over :
    (env : WrEnv) (tmo : ℕ) (w : World) (ppi : ℕ)
    → time_left w ppi ≡ pos 0
    → check_timer env tmo w ppi ≡ (wr_handshake_fail env w ppi, Verdict.is_over)
unfolding check_timer
check_timer-over env tmo w ppi h = rw h (ground arith)

over-next :
    (env : WrEnv) (st : Waiting) (w : World) (ppi : ℕ)
    → time_left w ppi ≡ pos 0
    → ((waiting_state env st w ppi none false).0.wr_ports ppi).wr_next_state ≡ WrState.idle
unfolding waiting_state by_message receive_wrsig by_verdict
over-next env st w ppi h =
    rw (check_timer-over env st.tmo_ms w ppi h) (wr_handshake_fail-next env w ppi)

entered-next :
    (env : WrEnv) (st : Waiting) (w : World) (ppi : ℕ) (buf : Option Buffer)
    → IsWaiting st
    → ((waiting_state env st w ppi buf true).0.wr_ports ppi).wr_next_state
      ≡ (w.wr_ports ppi).wr_next_state
unfolding waiting_state send_and_wait start_timer msg_issue_wrsig present_step m_lock_step
    locked_step calibrated_step wr_reset_process
entered-next env st w ppi buf in_present = ground arith
entered-next env st w ppi buf in_m_lock = ground arith
entered-next env st w ppi buf in_locked = ground arith
entered-next env st w ppi buf in_calibrated = ground arith

advance-zero :
    (g : Globals) (ppi : ℕ) (ms : ℤ)
    → g.now < ulong_mod
    → advance 0 (pp_timeout_set g ppi to_wr_ext_0 ms) ≡ pp_timeout_set g ppi to_wr_ext_0 ms
unfolding pp_timeout_set pp_timeout_set_tmo set_counter
advance-zero g ppi ms h =
    let same : (g.now + 0) % ulong_mod ≡ g.now = omega arith in
    ap (λ (n : ℕ). record (pp_timeout_set g ppi to_wr_ext_0 ms) { now = n }) same

entered-Ticking :
    (env : WrEnv) (st : Waiting) (w : World) (ppi : ℕ) (buf : Option Buffer)
    → IsWaiting st
    → w.globals.now < ulong_mod
    → Ticking
        (pp_timeout_set w.globals ppi to_wr_ext_0 (pos (st.tmo_ms * 4)))
        (w.wr_ports ppi).wr_next_state
        0
        ppi
        (waiting_state env st w ppi buf true).0
entered-Ticking env st w ppi buf h hn = record {
  clock =
      entered-globals env st w ppi buf h
      ∙ sym (advance-zero w.globals ppi (pos (st.tmo_ms * 4)) hn);
  next_is = entered-next env st w ppi buf h;
}

-- The world after the entry and the later runs
abbrev pub waited_since : WrEnv → Waiting → ℕ → Option Buffer → List ℕ → World → World
waited_since env st ppi buf ds w = waited env st ppi ds (waiting_state env st w ppi buf true).0

-- A state of the handshake that repeats its message and is run any number of times after its entry, at any
-- moments and without a message, gives up exactly when four times its timeout have passed since the entry.
-- As long as they have not, the time left is the rest of them and the next state is what it was before
-- the entry; the first run at which they have sets the next state to idle.
pub waiting_state-gives_up :
    (env : WrEnv) (st : Waiting) (w : World) (ppi : ℕ) (buf : Option Buffer) (ds : List ℕ) (d : ℕ)
    → IsWaiting st
    → w.globals.now < ulong_mod
    → d < 2 ^ 61
    → total ds < st.tmo_ms * 4
    → (time_left (waited_since env st ppi buf ds w) ppi ≡ pos (st.tmo_ms * 4 - total ds))
      × (((waited_since env st ppi buf ds w).wr_ports ppi).wr_next_state
          ≡ (w.wr_ports ppi).wr_next_state)
      × (st.tmo_ms * 4 ≤ total ds + d
          → ((waiting_state env st
                (later d (waited_since env st ppi buf ds w))
                ppi
                none
                false).0.wr_ports
              ppi).wr_next_state
            ≡ WrState.idle)
waiting_state-gives_up env st w ppi buf ds d h hn hd early =
    let m = st.tmo_ms * 4 in
    let s = (w.wr_ports ppi).wr_next_state in
    let hm = tmo_bound st h in
    let end = waited_since env st ppi buf ds w in
    let ticks : Ticking (armed w.globals ppi m) s (total ds) ppi end =
      subst (λ k. Ticking (armed w.globals ppi m) s k ppi end) (omega arith)
        (waited-Ticking w.globals ppi m hn hm env st s ds 0 (waiting_state env st w ppi buf true).0
          (entered-Ticking env st w ppi buf h hn) (omega arith)) in
    let left = left_of w.globals ppi m hn hm s in
    (
      left (total ds) end ticks (omega arith),
      ticks.next_is,
      λ over. over-next env st (later d end) ppi (
          left (total ds + d) (later d end)
            (later-Ticking (armed w.globals ppi m) s (total ds) d ppi end ticks) (omega arith)
          ∙ ap pos (omega arith)),
    )
