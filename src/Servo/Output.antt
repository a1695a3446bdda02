-- ===== src/Servo/Output.antt =====
-- The timing output of a slave: control_timing_output of proto-standard/servo.c.
use ppsi.Ds.{PpTime}
use ppsi.Prelude.{
  arith, false, if◌then◌else◌, leb, ltb, negsuc, not, of_word, pos, to_word, true, ℕ, ◌%◌, ◌&&◌,
  ◌*◌, ◌+◌, ◌-◌, ◌/◌, ◌<◌, ◌^◌, ◌≡◌, ◌≤◌,
}
use ppsi.Servo.Port.{ServoCall, ServoEnv, ServoWorld, servo_call}
use ppsi.Servo.Update.{control_timing_output, offset_us}
use ppsi.Time.Convert.{magnitude, pp_time_to_picos}

-- An offset as an int of microseconds
us_pos : (n : ℕ) → n < 2 ^ 50 → magnitude (of_word 32 (n % 2 ^ 64 / 1000000 % 2 ^ 32)) ≡ n / 1000000
unfolding of_word
us_pos n h = ground arith

us_neg :
    (n : ℕ)
    → n < 2 ^ 50
    → 140462611 ≤ magnitude (of_word 32 ((2 ^ 64 - 1 - n % 2 ^ 64) / 1000000 % 2 ^ 32))
unfolding of_word
us_neg n h = ground arith

positive_us :
    (ofm : PpTime) (n : ℕ) → pp_time_to_picos ofm ≡ pos n → n < 2 ^ 50 → offset_us ofm ≡ n / 1000000
unfolding offset_us to_word
positive_us ofm n e h = rw e (us_pos n h)

-- However small a negative offset is, it counts for more than 140 seconds.
negative_us :
    (ofm : PpTime) (n : ℕ)
    → pp_time_to_picos ofm ≡ negsuc n
    → n < 2 ^ 50
    → 140462611 ≤ offset_us ofm
unfolding offset_us to_word
negative_us ofm n e h = rw e (us_neg n h)

-- The decision for an offset of `us` microseconds
abbrev pub decide_output : ServoEnv → ServoWorld → ℕ → ℕ → ServoWorld
decide_output env w ppi us =
    let threshold = env.servo_opts.ptp_pps_threshold_ms * 1000 in
    if leb us threshold
    then servo_call w ppi (ServoCall.timing_output true)
    else if not env.servo_opts.force_pps_gen && ltb (threshold + threshold / 5) us
    then servo_call w ppi (ServoCall.timing_output false)
    else w

turned_off :
    (env : ServoEnv) (w : ServoWorld) (ppi us : ℕ)
    → 140462611 ≤ us
    → env.servo_opts.ptp_pps_threshold_ms ≤ 100000
    → env.servo_opts.force_pps_gen ≡ false
    → decide_output env w ppi us ≡ servo_call w ppi (ServoCall.timing_output false)
turned_off env w ppi us h i off = ground arith

-- With a threshold of at most 100 seconds and an output that is not forced, a negative offset of less
-- than 2^50 picoseconds turns the timing output off, however small it is: it is divided as an unsigned
-- number.
pub control_timing_output-negative :
    (env : ServoEnv) (w : ServoWorld) (ppi n : ℕ)
    → n < 2 ^ 50
    → env.servo_opts.ptp_pps_threshold_ms ≤ 100000
    → env.servo_opts.force_pps_gen ≡ false
    → pp_time_to_picos (w.servo_ports ppi).servo.offset_from_master ≡ negsuc n
    → control_timing_output env w ppi ≡ servo_call w ppi (ServoCall.timing_output false)
unfolding control_timing_output
control_timing_output-negative env w ppi n h i off e =
    let ofm = (w.servo_ports ppi).servo.offset_from_master in
    turned_off env w ppi (offset_us ofm) (negative_us ofm n e h) i off

-- An offset that is not negative is compared in whole microseconds.
pub control_timing_output-positive :
    (env : ServoEnv) (w : ServoWorld) (ppi n : ℕ)
    → n < 2 ^ 50
    → pp_time_to_picos (w.servo_ports ppi).servo.offset_from_master ≡ pos n
    → control_timing_output env w ppi ≡ decide_output env w ppi (n / 1000000)
unfolding control_timing_output
control_timing_output-positive env w ppi n h e =
    rw (positive_us (w.servo_ports ppi).servo.offset_from_master n e h)
