-- ===== src/Wr/Run.antt =====
-- wr_idle and wr_run_state_machine of proto-ext-whiterabbit.
use ppsi.Ds.{ExState, State, is_ex_active, same_state, set_inst}
use ppsi.Fsm.Link.{pdstate_enable_extension}
use ppsi.Msg.Bytes.{Buffer}
use ppsi.Prelude.{
  Bool, Option, false, if◌then◌else◌, leb, none, not, pos, some, true, ℕ, ℤ, ◌==◌, ◌||◌,
}
use ppsi.Wr.Common.{set_wr_next, wr_disable_extension, wr_reset_process}
use ppsi.Wr.Port.{ParentDetection, World, WrEnv, WrRole, WrState, set_globals, set_wr}
use ppsi.Wr.Signaling.{receive_wrsig, slave_present_id}
use ppsi.Wr.Steps.{
  wr_calibrated, wr_calibration, wr_link_on, wr_locked, wr_m_lock, wr_present, wr_resp_calib_req,
  wr_s_lock,
}

abbrev pub is_ex_ptp : ExState → Bool
is_ex_ptp ExState.ex_ptp = true
is_ex_ptp _ = false

abbrev pub set_detection : World → ℕ → ParentDetection → World
set_detection w ppi d = set_wr w ppi (record (w.wr_ports ppi) { parent_detection = d })

-- A slave that has to calibrate again.
unfoldable pub leave_slave : World → ℕ → World
leave_slave w ppi =
    let p = w.globals.inst ppi in
    if same_state p.state State.slave
    then set_globals w (set_inst w.globals ppi (record p { next_state = State.uncalibrated }))
    else w

-- A master waits for a slave that is present.
unfoldable pub master_idle : WrEnv → ℕ → World × Option ℕ → World × ℤ
master_idle env ppi (w, none) = (w, pos 1000)
master_idle env ppi (w, some id) =
    let w1 = if id == slave_present_id then set_wr_next w ppi WrState.m_lock else w in
    (
      set_globals w1 (pdstate_enable_extension env.fsm_hooks w1.globals ppi),
      if id == slave_present_id then pos 0 else pos 1000,
    )

abbrev pub is_idle : WrState → Bool
is_idle WrState.idle = true
is_idle _ = false

-- The handshake starts as a slave.
unfoldable pub start_as_slave : World → ℕ → World
start_as_slave w ppi =
    set_detection
      (set_wr_next (wr_reset_process (leave_slave w ppi) ppi WrRole.role_slave) ppi WrState.present)
      ppi ParentDetection.no_detection

-- A parent with White Rabbit was detected.
unfoldable pub wr_parent_found : WrEnv → World → ℕ → World
wr_parent_found env w ppi =
    let w1 =
      if is_ex_ptp (w.globals.inst ppi).ext_state
      then set_globals w (pdstate_enable_extension env.fsm_hooks w.globals ppi)
      else w in
    if is_ex_active (w1.globals.inst ppi).ext_state
    then (if is_idle (w1.wr_ports ppi).wr_state then start_as_slave w1 ppi else w1)
    else set_detection w1 ppi ParentDetection.no_detection

-- A parent without White Rabbit was detected.
unfoldable pub plain_parent_found : WrEnv → World → ℕ → World
plain_parent_found env w ppi =
    let w1 =
      if is_ex_active (w.globals.inst ppi).ext_state then wr_disable_extension env w ppi else w in
    set_detection (leave_slave w1 ppi) ppi ParentDetection.no_detection

unfoldable pub by_detection : WrEnv → World → ℕ → ParentDetection → World × ℤ
by_detection env w ppi ParentDetection.wr_parent = (wr_parent_found env w ppi, pos 0)
by_detection env w ppi ParentDetection.not_wr_parent = (plain_parent_found env w ppi, pos 1000)
by_detection env w ppi ParentDetection.no_detection = (w, pos 1000)

unfoldable pub wr_idle : WrEnv → World → ℕ → Option Buffer → Bool → World × ℤ
wr_idle env w ppi buf new_state =
    if same_state (w.globals.inst ppi).state State.master
    then master_idle env ppi (receive_wrsig w ppi buf)
    else by_detection env w ppi (w.wr_ports ppi).parent_detection

-- wr_state_actions; an index past its end is not used
unfoldable pub wr_state_action : WrEnv → WrState → World → ℕ → Option Buffer → Bool → World × ℤ
wr_state_action env WrState.idle = wr_idle env
wr_state_action env WrState.present = wr_present env
wr_state_action env WrState.m_lock = wr_m_lock env
wr_state_action env WrState.s_lock = wr_s_lock env
wr_state_action env WrState.locked = wr_locked env
wr_state_action env WrState.calibration = wr_calibration env
wr_state_action env WrState.calibrated = wr_calibrated env
wr_state_action env WrState.resp_calib_req = wr_resp_calib_req env
wr_state_action env WrState.link_on = wr_link_on env
wr_state_action env WrState.max_states = wr_idle env

abbrev pub wr_state_value : WrState → ℕ
wr_state_value WrState.idle = 0
wr_state_value WrState.present = 1
wr_state_value WrState.s_lock = 2
wr_state_value WrState.m_lock = 3
wr_state_value WrState.locked = 4
wr_state_value WrState.calibration = 5
wr_state_value WrState.calibrated = 6
wr_state_value WrState.resp_calib_req = 7
wr_state_value WrState.link_on = 8
wr_state_value WrState.max_states = 9

-- The state to run: idle where the extension cannot run.
unfoldable pub chosen_state : World → ℕ → WrState
chosen_state w ppi =
    let p = w.globals.inst ppi in
    let next = (w.wr_ports ppi).wr_next_state in
    if leb 9 (wr_state_value next)
      || (same_state p.state State.initializing || not (is_ex_active p.ext_state))
    then WrState.idle
    else next

unfoldable pub wr_run_state_machine : WrEnv → World → ℕ → Option Buffer → World × ℤ
wr_run_state_machine env w ppi buf =
    let s = chosen_state w ppi in
    let q = w.wr_ports ppi in
    let new_state = not (wr_state_value q.wr_state == wr_state_value s) in
    wr_state_action env s (set_wr w ppi (record q { wr_state = s; wr_next_state = s })) ppi buf
      new_state
