-- ===== src/Servo/Update.antt =====
-- The update of the servo when the timestamps of an exchange are complete: __pp_servo_update,
-- pp_servo_got_sync, pp_servo_got_resp and pp_servo_got_presp of proto-standard/servo.c.
use ppsi.Ds.{PpTime}
use ppsi.Prelude.{
  Bool, Option, false, if◌then◌else◌, is_zero, leb, ltb, neg_part, none, not, of_word, pos,
  pos_part, some, to_word, true, ℕ, ℤ, ◌%◌, ◌&&◌, ◌*◌, ◌+◌, ◌/◌, ◌^◌, ◌||◌,
}
use ppsi.Servo.Control.{average, pp_servo_pi_controller}
use ppsi.Servo.Port.{ServoCall, ServoEnv, ServoWorld, servo_call, set_servo}
use ppsi.Servo.Steps.{
  pp_servo_calculate_delays, pp_servo_init, second_incorrect, shift_right, third_incorrect,
  update_mean_delay,
}
use ppsi.Time.Arith.{pp_time_add}
use ppsi.Time.Convert.{magnitude, pp_time_to_interval, pp_time_to_picos}

-- TIME_ADJUST_THRESHOLD_SCALED_NS, 20 ms
abbrev pub time_adjust_threshold : ℕ
time_adjust_threshold = 20000000 * 2 ^ 16

-- Is the offset small enough for a frequency adjustment?
unfoldable pub is_close : PpTime → Bool
is_close ofm =
    is_zero ofm.secs
    && leb (pos_part ofm.scaled_nsecs) time_adjust_threshold
    && leb (neg_part ofm.scaled_nsecs) time_adjust_threshold

-- The jump of pp_servo_offset_master
unfoldable pub jump : ServoEnv → ServoWorld → ℕ → PpTime → ServoWorld
jump env w ppi ofm =
    pp_servo_init env (servo_call w ppi (ServoCall.set_time (pp_time_add (env.clock w ppi) ofm)))
      ppi

-- pp_servo_offset_master: `some` after a jump
unfoldable pub pp_servo_offset_master : ServoEnv → ServoWorld → ℕ → PpTime → Option ServoWorld
pp_servo_offset_master env w ppi ofm =
    if is_close ofm
    then none
    else if env.servo_opts.no_adjust
    then none
    else some (jump env w ppi ofm)

-- (int)(adj >> 16)
unfoldable pub adj32 : ℤ → ℤ
adj32 adj = of_word 32 (to_word 32 (shift_right 16 adj))

-- The frequency, or the time where the architecture cannot do that, is adjusted.
unfoldable pub apply_adjustment : ServoEnv → ServoWorld → ℕ → ℤ → ServoWorld
apply_adjustment env w ppi adj =
    if env.servo_opts.no_adjust
    then w
    else servo_call w ppi (
        if env.has_adjust_freq
        then ServoCall.adjust_freq (adj32 adj)
        else ServoCall.adjust_offset (adj32 adj))

unfoldable pub steer : ServoEnv → ServoWorld → ℕ → ServoWorld
steer env w ppi =
    let v = (w.servo_ports ppi).servo in
    let (drift, adj) =
      pp_servo_pi_controller env.servo_opts v.obs_drift v.offset_from_master.scaled_nsecs in
    apply_adjustment env (set_servo w ppi (record v { obs_drift = drift })) ppi adj

-- pp_servo_mpd_fltr
unfoldable pub pp_servo_mpd_fltr : ServoEnv → ServoWorld → ℕ → ServoWorld
pp_servo_mpd_fltr env w ppi =
    let v = (w.servo_ports ppi).servo in
    let f = average env.servo_opts.s v.mpd_fltr v.mean_delay.scaled_nsecs in
    let mean = record (v.mean_delay) { scaled_nsecs = pos f.y } in
    update_mean_delay (set_servo w ppi (record v { mpd_fltr = f; mean_delay = mean })) ppi
      (pp_time_to_interval mean)

unfoldable pub count_update : ServoEnv → ServoWorld → ℕ → ServoWorld
count_update env w ppi =
    let v = (w.servo_ports ppi).servo in
    set_servo w ppi
      (record v { update_count = (v.update_count + 1) % 2 ^ 32; update_time = env.clock w ppi })

unfoldable pub unless_jumped : ServoEnv → ServoWorld → ℕ → Option ServoWorld → ServoWorld
unless_jumped env w ppi (some w1) = w1
unless_jumped env w ppi none = steer env w ppi

unfoldable pub jump_or_steer : ServoEnv → ServoWorld → ℕ → ServoWorld
jump_or_steer env w ppi =
    unless_jumped env w ppi
      (pp_servo_offset_master env w ppi (w.servo_ports ppi).servo.offset_from_master)

-- With the delays calculated; a mean delay of a second or more is a bad event.
unfoldable pub after_delays : ServoEnv → ServoWorld → ℕ → Option ServoWorld → ServoWorld
after_delays env w ppi none = w
after_delays env w ppi (some w1) =
    if not (is_zero (w1.servo_ports ppi).servo.mean_delay.secs)
    then w1
    else count_update env (jump_or_steer env (pp_servo_mpd_fltr env w1 ppi) ppi) ppi

-- __pp_servo_update
unfoldable pub pp_servo_update : ServoEnv → ServoWorld → ℕ → ServoWorld
pp_servo_update env w ppi = after_delays env w ppi (pp_servo_calculate_delays w ppi)

-- control_timing_output; the offset is divided as a uint64_t and taken as an int.
unfoldable pub offset_us : PpTime → ℕ
offset_us ofm = magnitude (of_word 32 (to_word 64 (pp_time_to_picos ofm) / 1000000 % 2 ^ 32))

unfoldable pub control_timing_output : ServoEnv → ServoWorld → ℕ → ServoWorld
control_timing_output env w ppi =
    let us = offset_us (w.servo_ports ppi).servo.offset_from_master in
    let threshold = env.servo_opts.ptp_pps_threshold_ms * 1000 in
    if leb us threshold
    then servo_call w ppi (ServoCall.timing_output true)
    else if not env.servo_opts.force_pps_gen && ltb (threshold + threshold / 5) us
    then servo_call w ppi (ServoCall.timing_output false)
    else w

unfoldable pub control_if : Bool → ServoEnv → ServoWorld → ℕ → ServoWorld
control_if allowed env w ppi = if allowed then control_timing_output env w ppi else w

unfoldable pub set_got_sync : ServoWorld → ℕ → Bool → ServoWorld
set_got_sync w ppi b = set_servo w ppi (record ((w.servo_ports ppi).servo) { got_sync = b })

unfoldable pub pp_servo_got_sync : ServoEnv → ServoWorld → ℕ → Bool → ServoWorld
pp_servo_got_sync env w ppi allowed =
    let p = w.servo_ports ppi in
    let stamps = record (p.servo.stamps) { t1 = p.received.t1; t2 = p.received.t2 } in
    let w1 = set_servo w ppi (record (p.servo) { stamps = stamps }) in
    if (w.servo_globals.inst ppi).delay_mechanism_p2p && p.servo.got_sync
    then control_if allowed env (pp_servo_update env (set_got_sync w1 ppi false) ppi) ppi
    else set_got_sync w1 ppi true

-- `true` is the result 1.
unfoldable pub pp_servo_got_resp : ServoEnv → ServoWorld → ℕ → Bool → ServoWorld × Bool
pp_servo_got_resp env w ppi allowed =
    let p = w.servo_ports ppi in
    let stamps = record (p.servo.stamps) { t3 = p.received.t3; t4 = p.received.t4 } in
    if not p.servo.got_sync
    then (w, false)
    else if second_incorrect p.received
    then (set_got_sync w ppi false, false)
    else (
      control_if allowed env
          (pp_servo_update env
            (set_servo w ppi (record (p.servo) { got_sync = false; stamps = stamps })) ppi)
          ppi,
      true,
    )

unfoldable pub pp_servo_got_presp : ServoWorld → ℕ → ServoWorld × Bool
pp_servo_got_presp w ppi =
    let p = w.servo_ports ppi in
    let r = p.received in
    let stamps = record (p.servo.stamps) { t3 = r.t3; t4 = r.t4; t5 = r.t5; t6 = r.t6 } in
    if second_incorrect r || third_incorrect r
    then (w, false)
    else (set_servo w ppi (record (p.servo) { got_sync = true; stamps = stamps }), true)
