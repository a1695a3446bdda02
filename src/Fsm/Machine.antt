-- ===== src/Fsm/Machine.antt =====
-- pp_state_machine and pp_leave_current_state of fsm.c. What only prints is left out.
use ppsi.Bmc.Apply.{bmc_apply_state_descision}
use ppsi.Ds.{
  BmcHooks, ExState, Globals, Instance, PdState, State, TimeOps, is_ex_active, ppm_no_message,
  same_state, set_inst, state_value, to_prot_state,
}
use ppsi.Fsm.Frame.{fsm_unpack_verify_frame, pp_packet_prefilter}
use ppsi.Fsm.Link.{FsmHooks, pdstate_disable_extension, pdstate_set_state_pdetection}
use ppsi.Msg.Bytes.{Buffer}
use ppsi.Prelude.{
  Bool, Option, [], false, if◌then◌else◌, leb, ltb_ℤ, none, not, pos, pos_part, some, true, ℕ, ℤ,
  ◌&&◌, ◌==◌, ◌||◌, ◌∷◌,
}
use ppsi.Timeout.Defs.{pp_timeout, pp_timeout_set}
use ppsi.Timeout.Reset.{pp_timeout_setall}

-- What the machine calls: the action of each state (the f1 of pp_state_table, whose result is only
-- printed), the hooks of the extension, and the time operations.
pub record Calls : Type 0 where
  pub f1 : State → Globals → ℕ → Option Buffer → ℕ → Globals
  pub hooks : FsmHooks
  pub bmc_hooks : BmcHooks
  pub ops : TimeOps

-- A value of PPS_LAST_STATE or more.
unfoldable pub is_extension_state : State → Bool
is_extension_state s = leb 10 (state_value s)

-- bzero(ppi->activePeer, 6) when a master or slave leaves its state.
unfoldable pub clear_active_peer : Instance → Instance
clear_active_peer p =
    if same_state p.state State.master || same_state p.state State.slave
    then record p { active_peer = 0 ∷ 0 ∷ 0 ∷ 0 ∷ 0 ∷ 0 ∷ [] }
    else p

unfoldable pub change_hook : Option (Globals → ℕ → Globals) → Globals → ℕ → Globals
change_hook none g ppi = g
change_hook (some hook) g ppi = hook (set_inst g ppi (clear_active_peer (g.inst ppi))) ppi

-- ppi->state = ppi->next_state, and what a disabled port forgets
unfoldable pub enter_next_state : Instance → Instance
enter_next_state p =
    let q = record p {
      state = p.next_state;
      waiting_for_f_up = false;
      waiting_for_rf_up = false;
    } in
    if same_state p.next_state State.disabled
    then record q { pdstate = PdState.pd_none; ext_state = ExState.ex_disable }
    else q

-- Its result is 0: the new state is entered at once.
unfoldable pub pp_leave_current_state : FsmHooks → Globals → ℕ → Globals × ℤ
pp_leave_current_state hooks g ppi =
    let g1 = change_hook hooks.state_change g ppi in
    let p1 = g1.inst ppi in
    let g2 =
      if is_extension_state p1.state || is_extension_state p1.next_state
      then pp_timeout_setall g1 ppi
      else g1 in
    (set_inst g2 ppi (enter_next_state (g2.inst ppi)), pos 0)

-- `if (ppi->state != ppi->next_state) return pp_leave_current_state(ppi);`, or else what follows.
unfoldable pub unless_left : FsmHooks → ℕ → (Globals → Globals × ℤ) → Globals → Globals × ℤ
unless_left hooks ppi rest g =
    let p = g.inst ppi in
    if same_state p.state p.next_state then rest g else pp_leave_current_state hooks g ppi

-- get_current_state_table_item, and the reset of next_state and next_delay. The table has an item for
-- every state.
unfoldable pub get_current_state_table_item : Instance → Instance
get_current_state_table_item p = record p {
  is_new_state = not (elim p.current_state_item [ none ↦ false | some s ↦ same_state s p.state ]);
  current_state_item = some p.state;
  next_state = p.state;
  next_delay = pos 0;
}

-- The frame that survives the checks on its length and header: the header goes to the instance, and
-- the length is the one that the message states.
unfoldable pub receive : Globals → ℕ → Option Buffer → ℤ → Globals × (Option Buffer × ℕ)
receive g ppi buf len =
    let short = ltb_ℤ len (pos 34) in
    elim (fsm_unpack_verify_frame (if short then none else buf) (if short then 0 else pos_part len))
      as (λ h. Globals × (Option Buffer × ℕ)) [
        | none ↦ (g, (none, 0))
        | some hdr ↦ (
          set_inst g ppi (record (g.inst ppi) { received_ptp_header = hdr }),
          (buf, hdr.message_length),
        )
      ]

-- The frame that survives the filter.
unfoldable pub filter_frame : Globals → ℕ → Option Buffer × ℕ → Option Buffer × ℕ
filter_frame g ppi (none, len) = (none, len)
filter_frame g ppi (some buf, len) =
    if pp_packet_prefilter g ppi then (some buf, len) else (none, 0)

-- tmo_lstate_detection, with its default of 20 seconds
unfoldable pub lstate_timeout : FsmHooks → Globals → ℕ → ℤ
lstate_timeout hooks g ppi = elim hooks.get_tmo_lstate_detection [
  | none ↦ pos 20000
  | some hook ↦ hook g ppi
]

abbrev pub is_waiting_for_message : PdState → Bool
is_waiting_for_message PdState.pd_wait_msg = true
is_waiting_for_message _ = false

-- The first frame starts the detection of the protocol; without a frame the message type is
-- PPM_NO_MESSAGE.
unfoldable pub note_frame : FsmHooks → ℕ → ℕ → Globals → Globals
note_frame hooks ppi len g =
    let p = g.inst ppi in
    if len == 0
    then set_inst g ppi (record p {
      received_ptp_header = record p.received_ptp_header { message_type = ppm_no_message };
    })
    else if is_waiting_for_message p.pdstate
    then pdstate_set_state_pdetection
        (pp_timeout_set g ppi to_prot_state (lstate_timeout hooks g ppi)) ppi
    else g

abbrev pub is_detecting : PdState → Bool
is_detecting PdState.pd_pdetection = true
is_detecting PdState.pd_pdetected = true
is_detecting _ = false

-- An active extension whose protocol state times out is disabled.
unfoldable pub check_protocol : FsmHooks → ℕ → Globals → Globals
check_protocol hooks ppi g =
    let p = g.inst ppi in
    if (is_ex_active p.ext_state && is_detecting p.pdstate) && pp_timeout g ppi to_prot_state
    then pdstate_disable_extension hooks g ppi
    else g

-- The best master clock algorithm runs when it was triggered, and may leave the state.
unfoldable pub run_bmc : Calls → ℕ → (Globals → Globals × ℤ) → Globals → Globals × ℤ
run_bmc calls ppi rest g =
    let g1 = set_inst g ppi (record (g.inst ppi) { bmca_execute = false }) in
    let (g2, next) = bmc_apply_state_descision calls.ops calls.bmc_hooks g1 ppi in
    if (g.inst ppi).bmca_execute
    then unless_left calls.hooks ppi rest
        (set_inst g2 ppi (record (g2.inst ppi) { next_state = next }))
    else rest g

-- if (delay < ppi->next_delay) ppi->next_delay = delay; the result is the delay
unfoldable pub shorten_delay : ℕ → ℤ → Globals → Globals × ℤ
shorten_delay ppi delay g =
    let p = g.inst ppi in
    let q = if ltb_ℤ delay p.next_delay then record p { next_delay = delay } else p in
    (set_inst g ppi q, q.next_delay)

-- The state machine of the extension, if it has one.
unfoldable pub run_hook :
    Option (Globals → ℕ → Option Buffer → ℕ → Globals × ℤ)
    → FsmHooks
    → ℕ
    → Option Buffer
    → ℕ
    → Globals
    → Globals × ℤ
run_hook none hooks ppi buf len g = (g, (g.inst ppi).next_delay)
run_hook (some hook) hooks ppi buf len g =
    let (g1, delay) = hook g ppi buf len in unless_left hooks ppi (shorten_delay ppi delay) g1

unfoldable pub run_extension : FsmHooks → ℕ → Option Buffer → ℕ → Globals → Globals × ℤ
run_extension hooks = run_hook hooks.run_ext_state_machine hooks

-- What follows the action of the state.
unfoldable pub after_action : Calls → ℕ → Option Buffer × ℕ → Globals → Globals × ℤ
after_action calls ppi (buf, len) g =
    run_bmc calls ppi (run_extension calls.hooks ppi buf len) (check_protocol calls.hooks ppi g)

-- From the action of the state on. The item of the table is the one taken at the start.
unfoldable pub run_state : Calls → ℕ → State → Option Buffer × ℕ → Globals → Globals × ℤ
run_state calls ppi item (buf, len) g =
    unless_left calls.hooks ppi (after_action calls ppi (buf, len))
      (calls.f1 item (note_frame calls.hooks ppi len g) ppi buf len)

unfoldable pub pp_state_machine : Calls → Globals → ℕ → Option Buffer → ℤ → Globals × ℤ
pp_state_machine calls g ppi buf len =
    let (g1, frame) = receive g ppi buf len in
    let g2 = set_inst g1 ppi (get_current_state_table_item (g1.inst ppi)) in
    unless_left calls.hooks ppi
      (run_state calls ppi (g1.inst ppi).state (filter_frame g2 ppi frame)) g2
