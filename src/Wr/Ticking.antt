-- ===== src/Wr/Ticking.antt =====
-- The timer of a state of the handshake that is run again and again without a message.
use mathlib.Core.Path.{subst}
use ppsi.Ds.{Globals, to_wr_ext_0}
use ppsi.Prelude.{List, [], ap, arith, false, none, pos, suc, ℕ, ◌+◌, ◌-◌, ◌<◌, ◌^◌, ◌∙◌, ◌∷◌, ◌≡◌}
use ppsi.Timeout.Clock.{ulong_mod}
use ppsi.Timeout.Defs.{pp_next_delay_1, pp_timeout_set}
use ppsi.Timeout.Expiry.{advance, advance-advance, pp_next_delay_1-set, total}
use ppsi.Wr.Common.{check_timer, msg_issue_wrsig, time_left, wr_handshake_retry}
use ppsi.Wr.Port.{World, WrEnv, WrState, set_globals}
use ppsi.Wr.Signaling.{receive_wrsig}
use ppsi.Wr.Steps.{Waiting, by_message, by_verdict, send_and_wait, waiting_state}

-- The clock runs on.
abbrev pub later : ℕ → World → World
later d w = set_globals w (advance d w.globals)

-- The later runs of a state without a message, each so many milliseconds after the one before it
unfoldable pub waited : WrEnv → Waiting → ℕ → List ℕ → World → World
waited env st ppi [] w = w
waited env st ppi (d ∷ ds) w =
    waited env st ppi ds (waiting_state env st (later d w) ppi none false).0

-- What a run changes while time is left: neither the globals nor the next state
record StillWaiting (w0 w : World) (ppi : ℕ) : Type 0 where
  same_globals : w.globals ≡ w0.globals
  same_next : (w.wr_ports ppi).wr_next_state ≡ (w0.wr_ports ppi).wr_next_state

check_timer-StillWaiting :
    (env : WrEnv) (st : Waiting) (w : World) (ppi k : ℕ)
    → time_left w ppi ≡ pos (suc k)
    → StillWaiting w (by_verdict env st ppi (check_timer env st.tmo_ms w ppi)).0 ppi
unfolding check_timer wr_handshake_retry by_verdict send_and_wait msg_issue_wrsig
check_timer-StillWaiting env st w ppi k h = ground arith

waiting_state-StillWaiting :
    (env : WrEnv) (st : Waiting) (w : World) (ppi k : ℕ)
    → time_left w ppi ≡ pos (suc k)
    → StillWaiting w (waiting_state env st w ppi none false).0 ppi
unfolding waiting_state by_message receive_wrsig
waiting_state-StillWaiting env st w ppi k h = check_timer-StillWaiting env st w ppi k h

-- A world whose globals are those of the entry, `e` milliseconds later
pub record Ticking (g : Globals) (s : WrState) (e ppi : ℕ) (w : World) : Type 0 where
  pub clock : w.globals ≡ advance e g
  pub next_is : (w.wr_ports ppi).wr_next_state ≡ s

pub later-Ticking :
    (g : Globals) (s : WrState) (e d ppi : ℕ) (w : World)
    → Ticking g s e ppi w
    → Ticking g s (e + d) ppi (later d w)
later-Ticking g s e d ppi w t = record {
  clock = ap (advance d) t.clock ∙ advance-advance g e d;
  next_is = t.next_is;
}

run-Ticking :
    (g : Globals) (s : WrState) (e ppi k : ℕ) (env : WrEnv) (st : Waiting) (w : World)
    → time_left w ppi ≡ pos (suc k)
    → Ticking g s e ppi w
    → Ticking g s e ppi (waiting_state env st w ppi none false).0
run-Ticking g s e ppi k env st w left t =
    let still = waiting_state-StillWaiting env st w ppi k left in
    record { clock = still.same_globals ∙ t.clock; next_is = still.same_next ∙ t.next_is }

-- The timer of `m` milliseconds that the entry starts
abbrev pub armed : Globals → ℕ → ℕ → Globals
armed g ppi m = pp_timeout_set g ppi to_wr_ext_0 (pos m)

module _ (g0 : Globals) (ppi m : ℕ) (hn : g0.now < ulong_mod) (hm : m < 2 ^ 31) where
  pub left_of :
      (s : WrState) (e : ℕ) (w : World)
      → Ticking (armed g0 ppi m) s e ppi w
      → e < 2 ^ 62
      → time_left w ppi ≡ pos (m - e)
  unfolding time_left
  left_of s e w t he =
      ap (λ (g : Globals). pp_next_delay_1 g ppi to_wr_ext_0) t.clock
      ∙ pp_next_delay_1-set g0 ppi to_wr_ext_0 m e hn hm he

  pub waited-Ticking :
      (env : WrEnv) (st : Waiting) (s : WrState) (ds : List ℕ) (e : ℕ) (w : World)
      → Ticking (armed g0 ppi m) s e ppi w
      → e + total ds < m
      → Ticking (armed g0 ppi m) s (e + total ds) ppi (waited env st ppi ds w)
  unfolding waited
  waited-Ticking env st s [] e w t h =
      subst (λ k. Ticking (armed g0 ppi m) s k ppi w) (omega arith) t
  waited-Ticking env st s (d ∷ ds) e w t h =
      let t' = later-Ticking (armed g0 ppi m) s e d ppi w t in
      let left : time_left (later d w) ppi ≡ pos (suc (m - (e + d) - 1)) =
        left_of s (e + d) (later d w) t' (omega arith) ∙ ap pos (omega arith) in
      subst (λ k. Ticking (armed g0 ppi m) s k ppi (waited env st ppi (d ∷ ds) w)) (omega arith)
        (waited-Ticking env st s ds (e + d) (waiting_state env st (later d w) ppi none false).0
          (run-Ticking (armed g0 ppi m) s (e + d) ppi (m - (e + d) - 1) env st (later d w) left t')
          (omega arith))
