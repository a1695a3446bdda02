-- ===== src/States/World.antt =====
-- What the actions of the states work on: the servo with its timestamps and the globals, and the fields of
-- the instance (include/ppsi/pp-instance.h) that only the messages of the delay measurement use.
use ppsi.Ds.{Globals, Instance, PpTime, set_inst}
use ppsi.Prelude.{Bool, Option, update, ℕ, ℤ}
use ppsi.Servo.Port.{ServoWorld, Stamps, set_port}

pub record ActPort : Type 0 where
  pub sent_seq : ℕ → ℕ
  pub last_rcv_time : PpTime
  pub recv_sync_sequence_id : ℕ
  pub sync_cf : ℤ

pub record ActWorld : Type 0 where
  pub act_servo : ServoWorld
  pub act_ports : ℕ → ActPort

-- The hooks of an extension that the slave's messages go to. A result of 1 says that the hook did it all.
pub record ActHooks : Type 0 where
  pub handle_sync : Option (ActWorld → ℕ → ActWorld × ℤ)
  pub handle_followup : Option (ActWorld → ℕ → ActWorld × ℤ)
  pub handle_resp : Option (ActWorld → ℕ → ActWorld × ℤ)
  pub is_correction_field_compliant : Option (ActWorld → ℕ → Bool)

abbrev pub act_globals : ActWorld → Globals
act_globals w = w.act_servo.servo_globals

abbrev pub act_inst : ActWorld → ℕ → Instance
act_inst w ppi = w.act_servo.servo_globals.inst ppi

abbrev pub act_stamps : ActWorld → ℕ → Stamps
act_stamps w ppi = (w.act_servo.servo_ports ppi).received

abbrev pub set_act_globals : ActWorld → Globals → ActWorld
set_act_globals w g = record w { act_servo = record (w.act_servo) { servo_globals = g } }

abbrev pub set_stamps : ActWorld → ℕ → Stamps → ActWorld
set_stamps w ppi t = record w {
  act_servo = set_port w.act_servo ppi (record (w.act_servo.servo_ports ppi) { received = t });
}

abbrev pub set_waiting : ActWorld → ℕ → Bool → ActWorld
set_waiting w ppi b =
    set_act_globals w
      (set_inst (act_globals w) ppi (record (act_inst w ppi) { waiting_for_f_up = b }))

abbrev pub set_act_port : ActWorld → ℕ → ActPort → ActWorld
set_act_port w ppi p = record w { act_ports = update w.act_ports ppi p }
