-- ===== src/States/Slave.antt =====
-- The messages that a slave takes part in the delay measurement with: slave_handle_sync,
-- slave_handle_followup and slave_handle_response of proto-standard/state-slave.c. What only prints is left
-- out.
use Prim.Native.Nat.{bit_and}
use ppsi.Bmc.Compare.{bmc_idcmp}
use ppsi.Ds.{MsgHeader, PpTime, set_inst}
use ppsi.Msg.Bytes.{Buffer}
use ppsi.Msg.Events.{
  MsgDelayResp, msg_unpack_delay_resp, msg_unpack_follow_up, msg_unpack_sync, two_step_flag,
}
use ppsi.Prelude.{
  Bool, Option, eqb_ℤ, false, if◌then◌else◌, is_neg, is_zero, none, not, pos, some, true, ℕ, ℤ,
  ◌&&◌, ◌==◌,
}
use ppsi.Servo.Port.{ServoEnv}
use ppsi.Servo.Update.{pp_servo_got_resp, pp_servo_got_sync}
use ppsi.States.Common.{is_timestamp_incorrect, msg_from_current_master}
use ppsi.States.World.{
  ActHooks, ActWorld, act_globals, act_inst, act_stamps, set_act_globals, set_act_port, set_stamps,
  set_waiting,
}
use ppsi.Time.Arith.{pp_time_add, pp_time_sub}
use ppsi.Timeout.Reset.{pp_timeout_init}

-- The extension's hook first, then the servo, unless the hook says otherwise.
unfoldable pub after_hook :
    ServoEnv → Bool → ℕ → Option (ActWorld → ℕ → ActWorld × ℤ) → ActWorld → ActWorld × ℤ
after_hook env allowed ppi none w =
    (record w { act_servo = pp_servo_got_sync env w.act_servo ppi allowed }, pos 0)
after_hook env allowed ppi (some hook) w =
    let (w1, ret) = hook w ppi in
    if eqb_ℤ ret (pos 1)
    then (w1, pos 0)
    else if is_neg ret
    then (w1, ret)
    else (record w1 { act_servo = pp_servo_got_sync env w1.act_servo ppi allowed }, pos 0)

-- The check of t1 and t2 comes before both.
unfoldable pub got_t1 :
    ServoEnv → Bool → Option (ActWorld → ℕ → ActWorld × ℤ) → ActWorld → ℕ → ActWorld × ℤ
got_t1 env allowed hook w ppi =
    if is_timestamp_incorrect (act_stamps w ppi)
    then (w, pos 0)
    else after_hook env allowed ppi hook w

-- hdr->cField
abbrev pub c_time : MsgHeader → PpTime
c_time hdr = record { secs = pos 0; scaled_nsecs = hdr.c_field }

-- ppi->t2 = ppi->last_rcv_time, and the given t1
abbrev pub set_t1_t2 : ActWorld → ℕ → PpTime → ActWorld
set_t1_t2 w ppi t1 =
    set_stamps w ppi (record (act_stamps w ppi) { t1 = t1; t2 = (w.act_ports ppi).last_rcv_time })

-- flagField[0] & PP_TWO_STEP_FLAG
unfoldable pub is_two_step : MsgHeader → Bool
is_two_step hdr = not (bit_and hdr.flag_field_0 two_step_flag == 0)

unfoldable pub two_step_sync : ActWorld → ℕ → MsgHeader → ActWorld
two_step_sync w ppi hdr =
    set_waiting
      (set_act_port (set_t1_t2 w ppi (c_time hdr)) ppi
        (record (w.act_ports ppi) { recv_sync_sequence_id = hdr.sequence_id }))
      ppi true

unfoldable pub one_step_sync : ActWorld → ℕ → MsgHeader → Buffer → ActWorld
one_step_sync w ppi hdr buf =
    set_waiting
      (set_act_port (set_t1_t2 w ppi (pp_time_add (msg_unpack_sync buf) (c_time hdr))) ppi
        (record (w.act_ports ppi) { sync_cf = pos 0 }))
      ppi false

unfoldable pub slave_handle_sync : ServoEnv → ActHooks → ActWorld → ℕ → Buffer → ActWorld × ℤ
slave_handle_sync env hooks w ppi buf =
    let hdr = (act_inst w ppi).received_ptp_header in
    if not (msg_from_current_master (act_globals w) ppi)
    then (w, pos 0)
    else if is_two_step hdr
    then (two_step_sync w ppi hdr, pos 0)
    else got_t1 env true hooks.handle_sync (one_step_sync w ppi hdr buf) ppi

-- From the current master, awaited, and for the last Sync
unfoldable pub is_expected_follow_up : ActWorld → ℕ → Bool
is_expected_follow_up w ppi =
    msg_from_current_master (act_globals w) ppi
    && (act_inst w ppi).waiting_for_f_up
    && ((w.act_ports ppi).recv_sync_sequence_id == (act_inst w ppi).received_ptp_header.sequence_id)

-- t1 += preciseOriginTimestamp + cField
unfoldable pub complete_t1 : ActWorld → ℕ → Buffer → ActWorld
complete_t1 w ppi buf =
    let hdr = (act_inst w ppi).received_ptp_header in
    let t = act_stamps w ppi in
    let t1 = pp_time_add (pp_time_add t.t1 (msg_unpack_follow_up buf)) (c_time hdr) in
    set_act_port (set_stamps (set_waiting w ppi false) ppi (record t { t1 = t1 })) ppi
      (record (w.act_ports ppi) { sync_cf = hdr.c_field })

unfoldable pub slave_handle_followup : ServoEnv → ActHooks → ActWorld → ℕ → Buffer → ActWorld × ℤ
slave_handle_followup env hooks w ppi buf =
    if is_expected_follow_up w ppi
    then got_t1 env false hooks.handle_followup (complete_t1 w ppi buf) ppi
    else (w, pos 0)

-- The answer to the port's own last request, from the current master
unfoldable pub is_own_response : ActWorld → ℕ → MsgDelayResp → Bool
is_own_response w ppi resp =
    let hdr = (act_inst w ppi).received_ptp_header in
    let own = (act_inst w ppi).port_ds.port_identity in
    is_zero (bmc_idcmp own.clock_identity resp.requesting_port_identity.clock_identity)
    && ((w.act_ports ppi).sent_seq 1 == hdr.sequence_id)
    && (own.port_number == resp.requesting_port_identity.port_number)
    && msg_from_current_master (act_globals w) ppi

unfoldable pub is_compliant : ActHooks → ActWorld → ℕ → Bool
is_compliant hooks w ppi = elim hooks.is_correction_field_compliant [
  | none ↦ true
  | some hook ↦ hook w ppi
]

unfoldable pub corrected_t4 : Bool → ActWorld → ℕ → PpTime → PpTime
corrected_t4 compliant w ppi received =
    let correction = c_time (act_inst w ppi).received_ptp_header in
    let asymmetry : PpTime = record {
      secs = pos 0;
      scaled_nsecs = (w.act_servo.servo_ports ppi).delay_asymmetry;
    } in
    if compliant
    then pp_time_sub (pp_time_sub received correction) asymmetry
    else pp_time_add received correction

unfoldable pub respond :
    ServoEnv → ℕ → Option (ActWorld → ℕ → ActWorld × ℤ) → ActWorld → ActWorld × ℤ
respond env ppi (some hook) w = hook w ppi
respond env ppi none w =
    let (s, done) = pp_servo_got_resp env w.act_servo ppi true in
    (record w { act_servo = s }, if done then pos 1 else pos 0)

-- An interval in the message that differs from the port's replaces it, when the result was 0.
unfoldable pub adopt_interval : ActWorld × ℤ → ℕ → ActWorld
adopt_interval (w, ret) ppi =
    let p = act_inst w ppi in
    let hdr = p.received_ptp_header in
    let port = record (p.port_ds) { log_min_delay_req_interval = hdr.log_message_interval } in
    if is_zero ret && not (eqb_ℤ p.port_ds.log_min_delay_req_interval hdr.log_message_interval)
    then set_act_globals w
        (pp_timeout_init (set_inst (act_globals w) ppi (record p { port_ds = port })) ppi)
    else w

unfoldable pub set_t4 : Bool → ActWorld → ℕ → PpTime → ActWorld
set_t4 compliant w ppi received =
    set_stamps w ppi (record (act_stamps w ppi) { t4 = corrected_t4 compliant w ppi received })

-- The result is always 0.
unfoldable pub slave_handle_response : ServoEnv → ActHooks → ActWorld → ℕ → Buffer → ActWorld
slave_handle_response env hooks w ppi buf =
    let resp = msg_unpack_delay_resp buf in
    if is_own_response w ppi resp
    then adopt_interval
        (respond env ppi hooks.handle_resp
          (set_t4 (is_compliant hooks w ppi) w ppi resp.receive_timestamp))
        ppi
    else w
