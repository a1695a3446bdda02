-- ===== src/Scenarios/Frames.antt =====
-- Frames that the state machine takes and frames that it drops.
use ppsi.Ds.{State, set_inst}
use ppsi.Fsm.Change.{Ends, pp_state_machine-Ends}
use ppsi.Fsm.Filter.{IsAccepted, pp_packet_prefilter_iff, pp_state_machine-bad_frame}
use ppsi.Fsm.Frame.{fsm_unpack_verify_frame, pp_packet_prefilter, type_length}
use ppsi.Fsm.Link.{FsmHooks}
use ppsi.Fsm.Machine.{
  Calls, change_hook, enter_next_state, filter_frame, get_current_state_table_item,
  is_extension_state, note_frame, pp_leave_current_state, pp_state_machine, receive, run_state,
  unless_left,
}
use ppsi.Msg.Bytes.{Buffer}
use ppsi.Prelude.{none, pos, refl, some, true, ◌↔◌, ◌≡◌}
use ppsi.Scenarios.Device.{no_hooks, sample, silent_ops}

abbrev no_ext : FsmHooks
no_ext = record {
  state_change = none;
  get_tmo_lstate_detection = none;
  extension_state_changed = none;
  run_ext_state_machine = none;
}

-- Every state goes to PRE_MASTER at once.
abbrev hasty : Calls
hasty = record {
  f1 = λ s g ppi buf len. set_inst g ppi (record (g.inst ppi) { next_state = State.pre_master });
  hooks = no_ext;
  bmc_hooks = no_hooks;
  ops = silent_ops;
}

-- 34 octets of zero: a Sync that is too short
abbrev zeros : Buffer
zeros i = 0

pp_state_machine-Ends_example : Ends 0 (pp_state_machine hasty sample 0 (some zeros) (pos 34))
pp_state_machine-Ends_example =
    pp_state_machine-Ends hasty sample 0 (some zeros) (pos 34) (λ g ppi. (refl, refl))

short_frame : fsm_unpack_verify_frame (some zeros) 34 ≡ none
unfolding fsm_unpack_verify_frame type_length
short_frame = refl

bad_frame_example :
    pp_state_machine hasty sample 0 (some zeros) (pos 34)
    ≡ pp_state_machine hasty sample 0 none (pos 0)
bad_frame_example = pp_state_machine-bad_frame hasty sample 0 zeros 34 short_frame

pp_packet_prefilter_iff_example : (pp_packet_prefilter sample 0 ≡ true) ↔ IsAccepted sample 0
pp_packet_prefilter_iff_example = pp_packet_prefilter_iff sample 0

runs_to_pre_master :
    ((pp_state_machine hasty sample 0 none (pos 0)).0.inst 0).state ≡ State.pre_master
unfolding pp_state_machine receive fsm_unpack_verify_frame get_current_state_table_item unless_left
    filter_frame run_state note_frame pp_leave_current_state change_hook is_extension_state
    enter_next_state
runs_to_pre_master = refl
