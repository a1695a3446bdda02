-- ===== src/Fsm/Link.antt =====
-- The detection of a protocol extension on a link: pdstate_* of fsm.c, and the hooks of struct
-- pp_ext_hooks that the state machine calls.
use ppsi.Ds.{
  ExState, Globals, Output, PdState, emit, is_ex_active, is_pd_none, set_inst, to_prot_state,
}
use ppsi.Msg.Bytes.{Buffer}
use ppsi.Prelude.{Option, if◌then◌else◌, none, some, ℕ, ℤ}
use ppsi.Timeout.Reset.{pp_timeout_reset}

-- The hooks that fsm.c calls. A hook that is not there is `none`.
pub record FsmHooks : Type 0 where
  pub state_change : Option (Globals → ℕ → Globals)
  pub get_tmo_lstate_detection : Option (Globals → ℕ → ℤ)
  pub extension_state_changed : Option (Globals → ℕ → Globals)
  pub run_ext_state_machine : Option (Globals → ℕ → Option Buffer → ℕ → Globals × ℤ)

-- A hook without a result is called if it is there.
abbrev pub call_hook : Option (Globals → ℕ → Globals) → Globals → ℕ → Globals
call_hook none g ppi = g
call_hook (some hook) g ppi = hook g ppi

abbrev pub set_pdstate : Globals → ℕ → PdState → Globals
set_pdstate g ppi s = set_inst g ppi (record (g.inst ppi) { pdstate = s })

abbrev pub set_ext_state : Globals → ℕ → ExState → Globals
set_ext_state g ppi s = set_inst g ppi (record (g.inst ppi) { ext_state = s })

unfoldable pub pdstate_disable_extension : FsmHooks → Globals → ℕ → Globals
pdstate_disable_extension hooks g ppi =
    let g1 = set_pdstate g ppi PdState.pd_failure in
    if is_ex_active (g1.inst ppi).ext_state
    then call_hook hooks.extension_state_changed
        (emit (set_ext_state g1 ppi ExState.ex_ptp) Output.servo_init) ppi
    else g1

-- The common part of the three functions below.
unfoldable pub enter_pdstate : PdState → Globals → ℕ → Globals
enter_pdstate s g ppi = pp_timeout_reset (set_pdstate g ppi s) ppi to_prot_state

unfoldable pub pdstate_set_state_pdetection : Globals → ℕ → Globals
pdstate_set_state_pdetection g ppi =
    if is_pd_none (g.inst ppi).pdstate then g else enter_pdstate PdState.pd_pdetection g ppi

unfoldable pub pdstate_set_state_pdetected : Globals → ℕ → Globals
pdstate_set_state_pdetected g ppi =
    if is_pd_none (g.inst ppi).pdstate then g else enter_pdstate PdState.pd_pdetected g ppi

unfoldable pub pdstate_enable_extension : FsmHooks → Globals → ℕ → Globals
pdstate_enable_extension hooks g ppi =
    let g1 = enter_pdstate PdState.pd_pdetected g ppi in
    if is_pd_none (g.inst ppi).pdstate
    then g
    else if is_ex_active (g1.inst ppi).ext_state
    then g1
    else call_hook hooks.extension_state_changed (set_ext_state g1 ppi ExState.ex_active) ppi
