-- ===== src/Servo/Port.antt =====
-- The state of a servo: struct pp_servo and struct pp_avg_fltr of include/ppsi/pp-instance.h, with the
-- fields of the instance, of portDS_t and of the run-time options that proto-standard/servo.c uses.
use ppsi.Ds.{Globals, PpTime}
use ppsi.Prelude.{Bool, List, Option, pos, update, ℕ, ℤ, ◌∷◌}

-- struct pp_avg_fltr; its code keeps `y` and `s_exp` from being negative.
pub record AvgFltr : Type 0 where
  pub y : ℕ
  pub s_exp : ℕ

-- The timestamps t1 to t6
pub record Stamps : Type 0 where
  pub t1 : PpTime
  pub t2 : PpTime
  pub t3 : PpTime
  pub t4 : PpTime
  pub t5 : PpTime
  pub t6 : PpTime

pub record Servo : Type 0 where
  pub obs_drift : ℤ
  pub mpd_fltr : AvgFltr
  pub delay_mm : PpTime
  pub delay_ms : PpTime
  pub mean_delay : PpTime
  pub offset_from_master : PpTime
  pub is_valid : Bool
  pub got_sync : Bool
  pub update_count : ℕ
  pub update_time : PpTime
  pub stamps : Stamps

-- `received` are the timestamps of the instance.
pub record ServoPort : Type 0 where
  pub servo : Servo
  pub received : Stamps
  pub delay_asymmetry : ℤ
  pub delay_asym_coeff : ℤ
  pub mean_link_delay : ℤ
  pub correction_enabled : Bool
  pub constant_asymmetry : ℤ

-- The options `ap`, `ai`, `s`, `ptpPpsThresholdMs`, `forcePpsGen` and the flag PP_FLAG_NO_ADJUST
pub record ServoOpts : Type 0 where
  pub ap : ℕ
  pub ai : ℕ
  pub s : ℕ
  pub ptp_pps_threshold_ms : ℕ
  pub force_pps_gen : Bool
  pub no_adjust : Bool

-- The time operations that change the clock. `adjust` is called with 0 and 0 only.
pub data ServoCall : Type 0 where
  adjust : ServoCall
  adjust_freq : ℤ → ServoCall
  adjust_offset : ℤ → ServoCall
  set_time : PpTime → ServoCall
  timing_output : Bool → ServoCall

pub record ServoWorld : Type 0 where
  pub servo_globals : Globals
  pub servo_ports : ℕ → ServoPort
  pub servo_calls : ℕ → List ServoCall

-- What the architecture answers: the frequency that init_servo tells, where there is such an
-- operation, whether there is an adjust_freq, and the time of its clock.
pub record ServoEnv : Type 0 where
  pub servo_opts : ServoOpts
  pub init_servo : Option (ServoWorld → ℕ → ℤ)
  pub has_adjust_freq : Bool
  pub clock : ServoWorld → ℕ → PpTime

abbrev pub set_port : ServoWorld → ℕ → ServoPort → ServoWorld
set_port w ppi p = record w { servo_ports = update w.servo_ports ppi p }

abbrev pub set_servo : ServoWorld → ℕ → Servo → ServoWorld
set_servo w ppi v = set_port w ppi (record (w.servo_ports ppi) { servo = v })

abbrev pub servo_call : ServoWorld → ℕ → ServoCall → ServoWorld
servo_call w ppi c = record w { servo_calls = update w.servo_calls ppi (c ∷ w.servo_calls ppi) }

abbrev pub clear_time : PpTime
clear_time = record { secs = pos 0; scaled_nsecs = pos 0 }
