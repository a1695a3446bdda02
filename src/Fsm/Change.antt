-- ===== src/Fsm/Change.antt =====
-- How a run of the machine ends.
use ppsi.Bmc.Apply.{bmc_apply_state_descision}
use ppsi.Ds.{ExState, Globals, Output, PdState, State, emit, same_state, set_inst, state_value}
use ppsi.Fsm.Link.{FsmHooks, call_hook, pdstate_disable_extension, set_ext_state, set_pdstate}
use ppsi.Fsm.Machine.{
  Calls, after_action, check_protocol, enter_next_state, filter_frame, get_current_state_table_item,
  note_frame, pp_leave_current_state, pp_state_machine, receive, run_bmc, run_extension, run_hook,
  run_state, shorten_delay, unless_left,
}
use ppsi.Msg.Bytes.{Buffer}
use ppsi.Prelude.{
  Bool-cases, Option, ap, arith, false, if_either, if◌then◌else◌, inl, inr, none, pos, refl, some,
  sym, true, ℕ, ℤ, ◌-◌, ◌==◌, ◌∙◌, ◌≡◌, ◌⊎◌,
}

-- The state of a value.
unfoldable state_of_value : ℕ → State
state_of_value v =
    if v == 0
    then State.end_of_table
    else if v == 1
    then State.initializing
    else if v == 2
    then State.faulty
    else if v == 3
    then State.disabled
    else if v == 4
    then State.listening
    else if v == 5
    then State.pre_master
    else if v == 6
    then State.master
    else if v == 7
    then State.passive
    else if v == 8
    then State.uncalibrated
    else if v == 9
    then State.slave
    else State.extension (v - 10)

state_of_value-state_value : (s : State) → state_of_value (state_value s) ≡ s
unfolding state_of_value
state_of_value-state_value State.end_of_table = refl
state_of_value-state_value State.initializing = refl
state_of_value-state_value State.faulty = refl
state_of_value-state_value State.disabled = refl
state_of_value-state_value State.listening = refl
state_of_value-state_value State.pre_master = refl
state_of_value-state_value State.master = refl
state_of_value-state_value State.passive = refl
state_of_value-state_value State.uncalibrated = refl
state_of_value-state_value State.slave = refl
state_of_value-state_value (State.extension n) = ground arith

pub same_state_eq : (a b : State) → same_state a b ≡ true → a ≡ b
same_state_eq a b h =
    let same : state_value a ≡ state_value b = ground arith in
    sym (state_of_value-state_value a) ∙ ap state_of_value same ∙ state_of_value-state_value b

-- The run has ended in the state that it chose, and its delay is 0 or the instance's next_delay.
abbrev pub Ends : ℕ → Globals × ℤ → Type 0
Ends ppi r =
    ((r.0.inst ppi).state ≡ (r.0.inst ppi).next_state)
    × ((r.1 ≡ pos 0) ⊎ (r.1 ≡ (r.0.inst ppi).next_delay))

pp_leave_current_state-Ends :
    (hooks : FsmHooks) (g : Globals) (ppi : ℕ) → Ends ppi (pp_leave_current_state hooks g ppi)
unfolding pp_leave_current_state enter_next_state
pp_leave_current_state-Ends hooks g ppi = (ground arith, inl refl)

-- The instance stays in the state that it chose.
abbrev pub Stays : ℕ → Globals → Type 0
Stays ppi g = (g.inst ppi).state ≡ (g.inst ppi).next_state

unless_left-Ends :
    (hooks : FsmHooks) (ppi : ℕ) (rest : Globals → Globals × ℤ) (g : Globals)
    → (Stays ppi g → Ends ppi (rest g))
    → Ends ppi (unless_left hooks ppi rest g)
unfolding unless_left
unless_left-Ends hooks ppi rest g h =
    elim (Bool-cases (same_state (g.inst ppi).state (g.inst ppi).next_state)) [
      | inl e ↦ rw e (h (same_state_eq (g.inst ppi).state (g.inst ppi).next_state e))
      | inr e ↦ rw e (pp_leave_current_state-Ends hooks g ppi)
    ]

shorten_delay-Ends :
    (ppi : ℕ) (delay : ℤ) (g : Globals) → Stays ppi g → Ends ppi (shorten_delay ppi delay g)
unfolding shorten_delay
shorten_delay-Ends ppi delay g h = (ground arith, inr (ground arith))

run_hook-Ends :
    (hook : Option (Globals → ℕ → Option Buffer → ℕ → Globals × ℤ)) (hooks : FsmHooks) (ppi : ℕ)
    (buf : Option Buffer) (len : ℕ) (g : Globals)
    → Stays ppi g
    → Ends ppi (run_hook hook hooks ppi buf len g)
unfolding run_hook
run_hook-Ends none hooks ppi buf len g h = (h, inr refl)
run_hook-Ends (some hook) hooks ppi buf len g h =
    unless_left-Ends hooks ppi (shorten_delay ppi (hook g ppi buf len).1) (hook g ppi buf len).0
      (shorten_delay-Ends ppi (hook g ppi buf len).1 (hook g ppi buf len).0)

-- The hook leaves the state and the next state of the instance as they are.
abbrev pub KeepsState : Option (Globals → ℕ → Globals) → Type 0
KeepsState hook =
    (g : Globals) (ppi : ℕ)
    → (((call_hook hook g ppi).inst ppi).state ≡ (g.inst ppi).state)
      × (((call_hook hook g ppi).inst ppi).next_state ≡ (g.inst ppi).next_state)

check_protocol-Stays :
    (hooks : FsmHooks) (ppi : ℕ) (g : Globals)
    → KeepsState hooks.extension_state_changed
    → Stays ppi g
    → Stays ppi (check_protocol hooks ppi g)
unfolding check_protocol pdstate_disable_extension
check_protocol-Stays hooks ppi g k h =
    let called =
      k
        (emit (set_ext_state (set_pdstate g ppi PdState.pd_failure) ppi ExState.ex_ptp)
          Output.servo_init)
        ppi in
    ground arith

-- The globals after the decision of the best master clock algorithm.
abbrev after_decision : Calls → ℕ → Globals → Globals
after_decision calls ppi g =
    let g1 = set_inst g ppi (record (g.inst ppi) { bmca_execute = false }) in
    let (g2, next) = bmc_apply_state_descision calls.ops calls.bmc_hooks g1 ppi in
    set_inst g2 ppi (record (g2.inst ppi) { next_state = next })

run_bmc-Ends :
    (calls : Calls) (ppi : ℕ) (rest : Globals → Globals × ℤ) (g : Globals)
    → ((g : Globals) → Stays ppi g → Ends ppi (rest g))
    → Stays ppi g
    → Ends ppi (run_bmc calls ppi rest g)
unfolding run_bmc
run_bmc-Ends calls ppi rest g k h =
    if_either (g.inst ppi).bmca_execute (Ends ppi)
      (unless_left-Ends calls.hooks ppi rest (after_decision calls ppi g)
        (k (after_decision calls ppi g)))
      (k g h)

after_action-Ends :
    (calls : Calls) (ppi : ℕ) (frame : Option Buffer × ℕ) (g : Globals)
    → KeepsState calls.hooks.extension_state_changed
    → Stays ppi g
    → Ends ppi (after_action calls ppi frame g)
unfolding after_action run_extension
after_action-Ends calls ppi (buf, len) g k h =
    run_bmc-Ends calls ppi (run_extension calls.hooks ppi buf len)
      (check_protocol calls.hooks ppi g)
      (run_hook-Ends calls.hooks.run_ext_state_machine calls.hooks ppi buf len)
      (check_protocol-Stays calls.hooks ppi g k h)

run_state-Ends :
    (calls : Calls) (ppi : ℕ) (item : State) (frame : Option Buffer × ℕ) (g : Globals)
    → KeepsState calls.hooks.extension_state_changed
    → Ends ppi (run_state calls ppi item frame g)
unfolding run_state
run_state-Ends calls ppi item (buf, len) g k =
    unless_left-Ends calls.hooks ppi (after_action calls ppi (buf, len))
      (calls.f1 item (note_frame calls.hooks ppi len g) ppi buf len)
      (after_action-Ends calls ppi (buf, len)
        (calls.f1 item (note_frame calls.hooks ppi len g) ppi buf len) k)

-- If the hook that reports a change of the extension leaves the state and the next state alone, a run
-- of the machine ends with the port in its next state, and with a result that is 0 or the instance's
-- next_delay, for every frame and whatever the actions and the other hooks do.
pub pp_state_machine-Ends :
    (calls : Calls) (g : Globals) (ppi : ℕ) (buf : Option Buffer) (len : ℤ)
    → KeepsState calls.hooks.extension_state_changed
    → Ends ppi (pp_state_machine calls g ppi buf len)
unfolding pp_state_machine
pp_state_machine-Ends calls g ppi buf len k =
    let g1 = (receive g ppi buf len).0 in
    let g2 = set_inst g1 ppi (get_current_state_table_item (g1.inst ppi)) in
    let frame = filter_frame g2 ppi (receive g ppi buf len).1 in
    unless_left-Ends calls.hooks ppi (run_state calls ppi (g1.inst ppi).state frame) g2
      (λ h. run_state-Ends calls ppi (g1.inst ppi).state frame g2 k)
