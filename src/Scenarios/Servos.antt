-- ===== src/Scenarios/Servos.antt =====
-- A servo with four timestamps of an exchange, on which proto-standard/servo.c runs.
use ppsi.Prelude.{
  [], arith, false, inl, negsuc, none, of_word, pos, refl, some, to_word, true, ℕ, ◌*ℤ◌, ◌*◌, ◌+ℤ◌,
  ◌+◌, ◌-◌, ◌/◌, ◌<◌, ◌^◌, ◌≡◌, ◌≤◌,
}
use ppsi.Scenarios.Device.{sample}
use ppsi.Servo.Bounds.{Moved, average_bounds}
use ppsi.Servo.Calls.{Steered, pp_servo_update-Steered}
use ppsi.Servo.Control.{average, pp_servo_pi_controller}
use ppsi.Servo.Delays.{IsStamp, TellsRoundTrip, calculate_e2e_delay_mm_lem}
use ppsi.Servo.Drift.{DriftBounds, pp_servo_pi_controller_bounds}
use ppsi.Servo.Exact.{mul_relative_difference_lem}
use ppsi.Servo.Expansion.{expand_total}
use ppsi.Servo.Output.{control_timing_output-negative}
use ppsi.Servo.Port.{
  Servo, ServoCall, ServoEnv, ServoOpts, ServoWorld, Stamps, clear_time, servo_call,
}
use ppsi.Servo.Product.{expand, first_term, mul_relative_difference, smaller}
use ppsi.Servo.Steps.{calculate_e2e_delay_mm}
use ppsi.Servo.Update.{control_timing_output, pp_servo_update}
use ppsi.Time.Arith.{flip}
use ppsi.Time.Convert.{picos_word, pp_time_to_picos}
use ppsi.Time.Normal.{IsNormal}

abbrev pub servo_options : ServoOpts
servo_options = record {
  ap = 10;
  ai = 1000;
  s = 6;
  ptp_pps_threshold_ms = 500;
  force_pps_gen = false;
  no_adjust = false;
}

abbrev pub servo_env : ServoEnv
servo_env = record {
  servo_opts = servo_options;
  init_servo = none;
  has_adjust_freq = true;
  clock = λ w ppi. record { secs = pos 1000; scaled_nsecs = pos 0 };
}

-- A path of 500 ns each way, and a slave that is 1 us ahead
abbrev pub exchange : Stamps
exchange = record {
  t1 = record { secs = pos 100; scaled_nsecs = pos (1000 * 2 ^ 16) };
  t2 = record { secs = pos 100; scaled_nsecs = pos (2500 * 2 ^ 16) };
  t3 = record { secs = pos 100; scaled_nsecs = pos (9000 * 2 ^ 16) };
  t4 = record { secs = pos 100; scaled_nsecs = pos (8500 * 2 ^ 16) };
  t5 = clear_time;
  t6 = clear_time;
}

abbrev pub servo_state : Servo
servo_state = record {
  obs_drift = pos 0;
  mpd_fltr = record { y = 480 * 2 ^ 16; s_exp = 8 };
  delay_mm = clear_time;
  delay_ms = clear_time;
  mean_delay = clear_time;
  offset_from_master = record { secs = pos 0; scaled_nsecs = negsuc (2 ^ 16 - 1) };
  is_valid = true;
  got_sync = true;
  update_count = 7;
  update_time = clear_time;
  stamps = exchange;
}

abbrev pub servo_world : ServoWorld
servo_world = record {
  servo_globals = sample;
  servo_ports = λ i. record {
    servo = servo_state;
    received = exchange;
    delay_asymmetry = pos 0;
    delay_asym_coeff = pos 0;
    mean_link_delay = pos 0;
    correction_enabled = false;
    constant_asymmetry = pos 0;
  };
  servo_calls = λ i. [];
}

smaller_fits : smaller (2 ^ 60 + 12345) (500 * 2 ^ 16 + 7) < 2 ^ 62
unfolding smaller
smaller_fits = omega arith

mul_relative_difference_example :
    mul_relative_difference (2 ^ 60 + 12345) (500 * 2 ^ 16 + 7)
    ≡ (2 ^ 60 + 12345) * (500 * 2 ^ 16 + 7) / 2 ^ 62
mul_relative_difference_example =
    mul_relative_difference_lem (2 ^ 60 + 12345) (500 * 2 ^ 16 + 7) (omega arith) (omega arith)
      smaller_fits

expand_total_example :
    ((r : ℕ) × (expand true (2 ^ 40) ≡ some r))
    × ((r : ℕ) × (expand false (2 ^ 40) ≡ some r)
        × (2 ^ 40 / 2 ≤ r + first_term (2 ^ 40))
        × (r ≤ 2 ^ 40 / 2))
expand_total_example = expand_total (2 ^ 40) (omega arith)

pp_servo_pi_controller_bounds_example :
    DriftBounds servo_options (pos 77) (pp_servo_pi_controller servo_options (pos 5) (pos 77))
pp_servo_pi_controller_bounds_example = pp_servo_pi_controller_bounds servo_options (pos 5) (pos 77)

average_bounds_example :
    (1 ≤ (average 6 (servo_state.mpd_fltr) (pos 33000000)).s_exp)
    × ((average 6 (servo_state.mpd_fltr) (pos 33000000)).s_exp ≤ 2 ^ 6)
    × Moved (servo_state.mpd_fltr) (pos 33000000) (average 6 (servo_state.mpd_fltr) (pos 33000000))
average_bounds_example =
    average_bounds 6 (servo_state.mpd_fltr) (pos 33000000) (omega arith) (omega arith) (omega arith)

pp_servo_update-Steered_example :
    Steered [] ((pp_servo_update servo_env servo_world 0).servo_calls 0)
pp_servo_update-Steered_example = pp_servo_update-Steered servo_env servo_world 0

one_ns_behind :
    pp_time_to_picos (record { secs = pos 0; scaled_nsecs = negsuc (2 ^ 16 - 1) }) ≡ negsuc 999
unfolding pp_time_to_picos picos_word flip of_word to_word ◌*ℤ◌ ◌+ℤ◌
one_ns_behind = refl

control_timing_output-negative_example :
    control_timing_output servo_env servo_world 0
    ≡ servo_call servo_world 0 (ServoCall.timing_output false)
control_timing_output-negative_example =
    control_timing_output-negative servo_env servo_world 0 999 (omega arith) (omega arith) refl
      one_ns_behind

t1-IsStamp : IsStamp exchange.t1
t1-IsStamp = (inl (refl, refl, omega arith), omega arith, omega arith)

t2-IsStamp : IsStamp exchange.t2
t2-IsStamp = (inl (refl, refl, omega arith), omega arith, omega arith)

t3-IsStamp : IsStamp exchange.t3
t3-IsStamp = (inl (refl, refl, omega arith), omega arith, omega arith)

t4-IsStamp : IsStamp exchange.t4
t4-IsStamp = (inl (refl, refl, omega arith), omega arith, omega arith)

calculate_e2e_delay_mm_example :
    IsNormal (calculate_e2e_delay_mm exchange)
    × TellsRoundTrip exchange.t1 exchange.t2 exchange.t3 exchange.t4
        (calculate_e2e_delay_mm exchange)
calculate_e2e_delay_mm_example =
    calculate_e2e_delay_mm_lem exchange t1-IsStamp t2-IsStamp t3-IsStamp t4-IsStamp
