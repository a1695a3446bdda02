-- ===== src/States/Interval.antt =====
-- What a Delay_Resp of the master does to the interval between the requests (slave_handle_response of
-- proto-standard/state-slave.c).
use ppsi.Ds.{Instance, PortDs, set_inst}
use ppsi.Msg.Bytes.{Buffer}
use ppsi.Msg.Events.{msg_unpack_delay_resp}
use ppsi.Prelude.{
  Bool, ap, arith, eqb_ℤ, false, if◌then◌else◌, is_zero, none, not, pos, refl, true, update_self, ℕ,
  ℤ, ◌&&◌, ◌∙◌, ◌≡◌,
}
use ppsi.Servo.Instances.{can_use_response, pp_servo_got_resp-inst, pp_servo_got_resp-uses}
use ppsi.Servo.Port.{ServoEnv}
use ppsi.Servo.Update.{pp_servo_got_resp}
use ppsi.States.Slave.{
  adopt_interval, is_compliant, is_own_response, respond, set_t4, slave_handle_response,
}
use ppsi.States.World.{ActHooks, ActWorld, act_globals, act_inst, set_act_globals}
use ppsi.Timeout.Ports.{pp_timeout_init-SamePorts}
use ppsi.Timeout.Reset.{pp_timeout_init}

-- logMinDelayReqInterval of the port
abbrev pub interval : ActWorld → ℕ → ℤ
interval w ppi = (act_inst w ppi).port_ds.log_min_delay_req_interval

-- The world with t4, before the servo
abbrev pub with_t4 : ActHooks → ActWorld → ℕ → Buffer → ActWorld
with_t4 hooks w ppi buf =
    set_t4 (is_compliant hooks w ppi) w ppi (msg_unpack_delay_resp buf).receive_timestamp

abbrev set_interval : Instance → ℤ → Instance
set_interval p log = record p { port_ds = record (p.port_ds) { log_min_delay_req_interval = log } }

eqb_ℤ→eq : (a b : ℤ) → eqb_ℤ a b ≡ true → a ≡ b
eqb_ℤ→eq a b h = ground arith

adopted :
    (w : ActWorld) (ppi : ℕ)
    → interval
        (set_act_globals w (
          pp_timeout_init
            (set_inst (act_globals w) ppi (
              set_interval
                (act_inst w ppi)
                (act_inst w ppi).received_ptp_header.log_message_interval))
            ppi))
        ppi
      ≡ (act_inst w ppi).received_ptp_header.log_message_interval
adopted w ppi =
    let log = (act_inst w ppi).received_ptp_header.log_message_interval in
    let p = set_interval (act_inst w ppi) log in
    ap (λ (d : PortDs). d.log_min_delay_req_interval)
      (pp_timeout_init-SamePorts (set_inst (act_globals w) ppi p) ppi ppi)
    ∙ ap (λ (q : Instance). q.port_ds.log_min_delay_req_interval)
        (update_self (act_globals w).inst ppi p)

adopt_by :
    (refused same : Bool) {x y : ActWorld} {log old : ℤ} (f : ActWorld → ℤ)
    → f x ≡ log
    → f y ≡ old
    → (same ≡ true → old ≡ log)
    → f (if refused && not same then x else y) ≡ (if refused then log else old)
adopt_by true true f new kept equal = kept ∙ equal refl
adopt_by true false f new kept equal = new
adopt_by false true f new kept equal = kept
adopt_by false false f new kept equal = kept

adopt_interval-interval :
    (w : ActWorld) (ret : ℤ) (ppi : ℕ)
    → interval (adopt_interval (w, ret) ppi) ppi ≡ (
        if is_zero ret
        then (act_inst w ppi).received_ptp_header.log_message_interval
        else interval w ppi)
unfolding adopt_interval
adopt_interval-interval w ret ppi =
    let log = (act_inst w ppi).received_ptp_header.log_message_interval in
    adopt_by (is_zero ret) (eqb_ℤ (interval w ppi) log) (λ (v : ActWorld). interval v ppi)
      (adopted w ppi) refl (eqb_ℤ→eq (interval w ppi) log)

by_result :
    (used : Bool) (log old : ℤ)
    → (if is_zero (if used then pos 1 else pos 0) then log else old) ≡ (if used then old else log)
by_result true log old = refl
by_result false log old = refl

-- The servo's result, and the port as the servo leaves it
responded :
    (env : ServoEnv) (w : ActWorld) (ppi : ℕ)
    → interval (adopt_interval (respond env ppi none w) ppi) ppi ≡ (
        if can_use_response w.act_servo ppi
        then interval w ppi
        else (act_inst w ppi).received_ptp_header.log_message_interval)
unfolding respond
responded env w ppi =
    let got = pp_servo_got_resp env w.act_servo ppi true in
    let same : got.0.servo_globals.inst ≡ w.act_servo.servo_globals.inst =
      pp_servo_got_resp-inst env w.act_servo ppi true in
    adopt_interval-interval (record w { act_servo = got.0 }) (if got.1 then pos 1 else pos 0) ppi
    ∙ by_result got.1 ((got.0.servo_globals.inst ppi).received_ptp_header.log_message_interval)
        ((got.0.servo_globals.inst ppi).port_ds.log_min_delay_req_interval)
    ∙ ap
        (λ (c : ℕ → Instance).
          if got.1
          then (c ppi).port_ds.log_min_delay_req_interval
          else (c ppi).received_ptp_header.log_message_interval)
        same
    ∙ ap
        (λ (b : Bool).
          if b then interval w ppi else (act_inst w ppi).received_ptp_header.log_message_interval)
        (pp_servo_got_resp-uses env w.act_servo ppi true)

-- Without a hook of an extension, the interval between the requests after a response to the port's own
-- request is the port's as before, if the servo can use the response (it has a Sync that waits for it, and
-- t3 and t4 are right), and the one that the master states in the response only if the servo cannot.
pub slave_handle_response-interval :
    (env : ServoEnv) (hooks : ActHooks) (w : ActWorld) (ppi : ℕ) (buf : Buffer)
    → hooks.handle_resp ≡ none
    → is_own_response w ppi (msg_unpack_delay_resp buf) ≡ true
    → interval (slave_handle_response env hooks w ppi buf) ppi ≡ (
        if can_use_response (with_t4 hooks w ppi buf).act_servo ppi
        then interval w ppi
        else (act_inst w ppi).received_ptp_header.log_message_interval)
unfolding slave_handle_response set_t4
slave_handle_response-interval env hooks w ppi buf plain own =
    let w1 = with_t4 hooks w ppi buf in
    ap
      (λ b.
        interval (if b then adopt_interval (respond env ppi hooks.handle_resp w1) ppi else w) ppi)
      own
    ∙ ap (λ o. interval (adopt_interval (respond env ppi o w1) ppi) ppi) plain
    ∙ responded env w1 ppi
