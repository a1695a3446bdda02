-- ===== src/Servo/Steps.antt =====
-- The servo of a slave, for a clock with the peer-to-peer mechanism compiled in: proto-standard/servo.c
-- with update_meanDelay of common-fun-p2p.c and is_timestamp_incorrect of lib/time-arith.c.
use ppsi.Ds.{PpTime, State, same_state}
use ppsi.Prelude.{
  Bool, Option, eqb_ℤ, false, if◌then◌else◌, is_neg, neg_ℤ, negsuc, none, not, of_word, pos, some,
  to_word, true, ℕ, ℤ, ◌*ℤ◌, ◌+ℤ◌, ◌/◌, ◌^◌, ◌||◌,
}
use ppsi.Servo.Port.{
  Servo, ServoCall, ServoEnv, ServoPort, ServoWorld, Stamps, clear_time, servo_call, set_port,
  set_servo,
}
use ppsi.Servo.Product.{mul_relative_difference}
use ppsi.Time.Arith.{is_incorrect, pp_time_add, pp_time_sub}
use ppsi.Time.Convert.{
  interval_to_picos, magnitude, picos_to_interval, picos_to_pp_time, pp_time_to_interval,
  pp_time_to_picos,
}

-- PP_SERVO_RESET_DATA
unfoldable pub reset_data : Servo → Servo
reset_data v = record v {
  got_sync = false;
  update_count = 0;
  update_time = clear_time;
  stamps = record {
    t1 = clear_time;
    t2 = clear_time;
    t3 = clear_time;
    t4 = clear_time;
    t5 = clear_time;
    t6 = clear_time;
  };
}

-- -d << 10, as an int; d is -1 for an error.
unfoldable pub drift_of : ℤ → ℤ
drift_of d = if eqb_ℤ d (negsuc 0) then pos 0 else of_word 32 (to_word 32 (neg_ℤ d *ℤ pos 1024))

-- The frequency of the clock is kept, or its rate is levelled.
unfoldable pub init_drift :
    Option (ServoWorld → ℕ → ℤ) → ServoEnv → ServoWorld → ℕ → Servo → ServoWorld
init_drift (some init) env w ppi v =
    set_servo w ppi (record v { obs_drift = drift_of (init w ppi) })
init_drift none env w ppi v =
    set_servo (if env.servo_opts.no_adjust then w else servo_call w ppi ServoCall.adjust) ppi
      (record v { obs_drift = pos 0 })

-- _pp_servo_init
unfoldable pub pp_servo_init : ServoEnv → ServoWorld → ℕ → ServoWorld
pp_servo_init env w ppi =
    let v = reset_data (w.servo_ports ppi).servo in
    init_drift env.init_servo env w ppi
      (record v { mpd_fltr = record (v.mpd_fltr) { s_exp = 0 }; is_valid = true })

-- is_timestamp_incorrect_thres for t1 and t2, t1 to t4, t3 and t4, and t3 to t6
unfoldable pub first_incorrect : Stamps → Bool
first_incorrect r = is_incorrect r.t1 || is_incorrect r.t2

unfoldable pub second_incorrect : Stamps → Bool
second_incorrect r = is_incorrect r.t3 || is_incorrect r.t4

unfoldable pub third_incorrect : Stamps → Bool
third_incorrect r = is_incorrect r.t5 || is_incorrect r.t6

-- delayMM = (t6 - t3) - (t5 - t4)
unfoldable pub calculate_p2p_delay_mm : Stamps → PpTime
calculate_p2p_delay_mm v = pp_time_sub (pp_time_sub v.t6 v.t3) (pp_time_sub v.t5 v.t4)

-- delayMM = t4 - t1 - (t3 - t2)
unfoldable pub calculate_e2e_delay_mm : Stamps → PpTime
calculate_e2e_delay_mm v = pp_time_sub (pp_time_sub v.t4 v.t1) (pp_time_sub v.t3 v.t2)

-- The delay between the two ends, unless a timestamp of the port is incorrect
unfoldable pub delay_mm_of : Bool → ServoPort → Option PpTime
delay_mm_of p2p p =
    let r = p.received in
    if p2p
    then (if second_incorrect r || third_incorrect r
        then none
        else some (calculate_p2p_delay_mm p.servo.stamps))
    else if first_incorrect r || second_incorrect r
    then none
    else some (calculate_e2e_delay_mm p.servo.stamps)

-- calculateDelayAsymmetry: the product is made without the signs.
unfoldable pub calculate_delay_asymmetry : ℤ → ℤ → ℤ → ℤ
calculate_delay_asymmetry coeff mean constant =
    let asym = of_word 64 (mul_relative_difference (magnitude coeff) (magnitude mean)) in
    let differ = if is_neg coeff then not (is_neg mean) else is_neg mean in
    constant +ℤ (if differ then neg_ℤ asym else asym)

unfoldable pub delay_asymmetry_of : ServoPort → ℤ → ℤ
delay_asymmetry_of p mean =
    if p.correction_enabled
    then calculate_delay_asymmetry p.delay_asym_coeff (picos_to_interval mean) p.constant_asymmetry
    else p.constant_asymmetry

-- `z >> n`, which rounds down
unfoldable pub shift_right : ℕ → ℤ → ℤ
shift_right n (pos k) = pos (k / 2 ^ n)
shift_right n (negsuc k) = negsuc (k / 2 ^ n)

-- update_meanDelay
unfoldable pub update_mean_delay : ServoWorld → ℕ → ℤ → ServoWorld
update_mean_delay w ppi mean =
    let p = w.servo_globals.inst ppi in
    let w1 =
      if p.delay_mechanism_p2p
      then set_port w ppi (record (w.servo_ports ppi) { mean_link_delay = mean })
      else w in
    if same_state p.state State.slave
    then record w1 {
      servo_globals = record (w1.servo_globals) {
        current_ds = record (w1.servo_globals.current_ds) { mean_delay = mean };
      };
    }
    else w1

unfoldable pub tell_offset : ServoWorld → ℕ → PpTime → ServoWorld
tell_offset w ppi offset =
    if same_state (w.servo_globals.inst ppi).state State.slave
    then record w {
      servo_globals = record (w.servo_globals) {
        current_ds = record (w.servo_globals.current_ds) {
          offset_from_master = pp_time_to_interval offset;
        };
      };
    }
    else w

-- t1 - t2 + delayMS
unfoldable pub offset_of : Stamps → PpTime → PpTime
offset_of v delay_ms = pp_time_add (pp_time_sub v.t1 v.t2) delay_ms

-- What pp_servo_calculate_delays does with the delay between the two ends.
unfoldable pub store_delays : ServoWorld → ℕ → PpTime → ServoWorld
store_delays w ppi delay_mm =
    let p = w.servo_ports ppi in
    let mean = shift_right 1 (pp_time_to_picos delay_mm) in
    let asym = delay_asymmetry_of p mean in
    let delay_ms = picos_to_pp_time (mean +ℤ interval_to_picos asym) in
    let offset = offset_of p.servo.stamps delay_ms in
    let v = record (p.servo) {
      delay_mm = delay_mm;
      delay_ms = delay_ms;
      offset_from_master = offset;
      mean_delay = picos_to_pp_time mean;
    } in
    let w1 = set_port w ppi (record p { servo = v; delay_asymmetry = asym }) in
    update_mean_delay (tell_offset w1 ppi offset) ppi (picos_to_interval mean)

unfoldable pub store_if : ServoWorld → ℕ → Option PpTime → Option ServoWorld
store_if w ppi none = none
store_if w ppi (some delay_mm) = some (store_delays w ppi delay_mm)

-- `none` is the result 0, a delay that cannot be calculated.
unfoldable pub pp_servo_calculate_delays : ServoWorld → ℕ → Option ServoWorld
pp_servo_calculate_delays w ppi =
    let p = w.servo_ports ppi in
    if first_incorrect p.received
    then none
    else store_if w ppi (delay_mm_of (w.servo_globals.inst ppi).delay_mechanism_p2p p)
