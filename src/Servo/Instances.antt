-- ===== src/Servo/Instances.antt =====
-- What the update of the servo does not touch: the instances (proto-standard/servo.c).
use ppsi.Ds.{PpTime, State, same_state}
use ppsi.Prelude.{
  Bool, Option, arith, false, if_either, is_zero, none, not, refl, some, true, ℕ, ℤ, ◌&&◌, ◌∙◌, ◌≡◌,
}
use ppsi.Servo.Port.{Servo, ServoEnv, ServoWorld, set_servo}
use ppsi.Servo.Steps.{
  delay_mm_of, first_incorrect, init_drift, pp_servo_calculate_delays, pp_servo_init,
  second_incorrect, store_delays, store_if, tell_offset, update_mean_delay,
}
use ppsi.Servo.Update.{
  after_delays, apply_adjustment, control_if, control_timing_output, count_update, is_close, jump,
  jump_or_steer, pp_servo_got_resp, pp_servo_mpd_fltr, pp_servo_offset_master, pp_servo_update,
  set_got_sync, steer, unless_jumped,
}

-- The servo's globals keep their instances.
abbrev Keeps : ServoWorld → ServoWorld → Type 0
Keeps w w' = w'.servo_globals.inst ≡ w.servo_globals.inst

update_mean_delay-Keeps :
    (w : ServoWorld) (ppi : ℕ) (mean : ℤ) → Keeps w (update_mean_delay w ppi mean)
unfolding update_mean_delay
update_mean_delay-Keeps w ppi mean =
    if_either (same_state (w.servo_globals.inst ppi).state State.slave) (Keeps w)
      (if_either (w.servo_globals.inst ppi).delay_mechanism_p2p (Keeps w) refl refl)
      (if_either (w.servo_globals.inst ppi).delay_mechanism_p2p (Keeps w) refl refl)

tell_offset-Keeps :
    (w : ServoWorld) (ppi : ℕ) (offset : PpTime) → Keeps w (tell_offset w ppi offset)
unfolding tell_offset
tell_offset-Keeps w ppi offset =
    if_either (same_state (w.servo_globals.inst ppi).state State.slave) (Keeps w) refl refl

store_delays-Keeps :
    (w : ServoWorld) (ppi : ℕ) (delay : PpTime) → Keeps w (store_delays w ppi delay)
unfolding store_delays
store_delays-Keeps w ppi delay = update_mean_delay-Keeps _ ppi _ ∙ tell_offset-Keeps _ ppi _

init_drift-Keeps :
    (init : Option (ServoWorld → ℕ → ℤ)) (env : ServoEnv) (w : ServoWorld) (ppi : ℕ) (v : Servo)
    → Keeps w (init_drift init env w ppi v)
unfolding init_drift
init_drift-Keeps none env w ppi v =
    if_either env.servo_opts.no_adjust (λ (w1 : ServoWorld). Keeps w (set_servo w1 ppi v)) refl refl
init_drift-Keeps (some f) env w ppi v = refl

pp_servo_init-Keeps :
    (env : ServoEnv) (w : ServoWorld) (ppi : ℕ) → Keeps w (pp_servo_init env w ppi)
unfolding pp_servo_init
pp_servo_init-Keeps env w ppi = init_drift-Keeps env.init_servo env w ppi _

apply_adjustment-Keeps :
    (env : ServoEnv) (w : ServoWorld) (ppi : ℕ) (adj : ℤ) → Keeps w (apply_adjustment env w ppi adj)
unfolding apply_adjustment
apply_adjustment-Keeps env w ppi adj = if_either env.servo_opts.no_adjust (Keeps w) refl refl

steer-Keeps : (env : ServoEnv) (w : ServoWorld) (ppi : ℕ) → Keeps w (steer env w ppi)
unfolding steer
steer-Keeps env w ppi = apply_adjustment-Keeps env _ ppi _

jump_or_steer-Keeps :
    (env : ServoEnv) (w : ServoWorld) (ppi : ℕ) → Keeps w (jump_or_steer env w ppi)
unfolding jump_or_steer unless_jumped pp_servo_offset_master jump
jump_or_steer-Keeps env w ppi =
    if_either (is_close (w.servo_ports ppi).servo.offset_from_master)
      (λ (o : Option ServoWorld). Keeps w (unless_jumped env w ppi o)) (steer-Keeps env w ppi)
      (if_either env.servo_opts.no_adjust
        (λ (o : Option ServoWorld). Keeps w (unless_jumped env w ppi o)) (steer-Keeps env w ppi)
        (pp_servo_init-Keeps env _ ppi))

control_timing_output-Keeps :
    (env : ServoEnv) (w : ServoWorld) (ppi : ℕ) → Keeps w (control_timing_output env w ppi)
unfolding control_timing_output
control_timing_output-Keeps env w ppi = ground arith

control_if-Keeps :
    (allowed : Bool) (env : ServoEnv) (w : ServoWorld) (ppi : ℕ)
    → Keeps w (control_if allowed env w ppi)
unfolding control_if
control_if-Keeps true env w ppi = control_timing_output-Keeps env w ppi
control_if-Keeps false env w ppi = refl

after_delays-Keeps :
    (env : ServoEnv) (w : ServoWorld) (ppi : ℕ) (delay : Option PpTime)
    → Keeps w (after_delays env w ppi (store_if w ppi delay))
unfolding after_delays store_if count_update pp_servo_mpd_fltr
after_delays-Keeps env w ppi none = refl
after_delays-Keeps env w ppi (some delay) =
    if_either (not (is_zero ((store_delays w ppi delay).servo_ports ppi).servo.mean_delay.secs))
      (Keeps w) (store_delays-Keeps w ppi delay)
      (jump_or_steer-Keeps env _ ppi
        ∙ update_mean_delay-Keeps _ ppi _
        ∙ store_delays-Keeps w ppi delay)

pp_servo_update-Keeps :
    (env : ServoEnv) (w : ServoWorld) (ppi : ℕ) → Keeps w (pp_servo_update env w ppi)
unfolding pp_servo_update pp_servo_calculate_delays store_if
pp_servo_update-Keeps env w ppi =
    let delay = delay_mm_of (w.servo_globals.inst ppi).delay_mechanism_p2p (w.servo_ports ppi) in
    if_either (first_incorrect (w.servo_ports ppi).received)
      (λ (o : Option ServoWorld). Keeps w (after_delays env w ppi o))
      (after_delays-Keeps env w ppi none) (after_delays-Keeps env w ppi delay)

-- The servo uses a response when it has a Sync that waits for it, and t3 and t4 are right.
abbrev pub can_use_response : ServoWorld → ℕ → Bool
can_use_response w ppi =
    (w.servo_ports ppi).servo.got_sync && not (second_incorrect (w.servo_ports ppi).received)

pub pp_servo_got_resp-uses :
    (env : ServoEnv) (w : ServoWorld) (ppi : ℕ) (allowed : Bool)
    → (pp_servo_got_resp env w ppi allowed).1 ≡ can_use_response w ppi
unfolding pp_servo_got_resp
pp_servo_got_resp-uses env w ppi allowed = ground arith

pub pp_servo_got_resp-inst :
    (env : ServoEnv) (w : ServoWorld) (ppi : ℕ) (allowed : Bool)
    → (pp_servo_got_resp env w ppi allowed).0.servo_globals.inst ≡ w.servo_globals.inst
unfolding pp_servo_got_resp set_got_sync
pp_servo_got_resp-inst env w ppi allowed =
    if_either (not (w.servo_ports ppi).servo.got_sync) (λ (r : ServoWorld × Bool). Keeps w r.0) refl
      (if_either (second_incorrect (w.servo_ports ppi).received)
        (λ (r : ServoWorld × Bool). Keeps w r.0) refl
        (control_if-Keeps allowed env _ ppi ∙ pp_servo_update-Keeps env _ ppi))
