-- ===== src/Servo/Calls.antt =====
-- What the servo does to the clock in one update (proto-standard/servo.c).
use native.Mathlib.Nat.{div-le_self}
use mathlib.Core.Path.{subst}
use ppsi.Ds.{PpTime, State, same_state}
use ppsi.Prelude.{
  List, Option, ap, arith, if_case, if_either, if◌then◌else◌, inl, inr, is_zero, neg_part, negsuc,
  none, not, of_word, pos, pos_part, refl, some, to_word, true, update_self, ℕ, ℤ, ◌*◌, ◌+◌, ◌/◌,
  ◌<◌, ◌^◌, ◌∙◌, ◌∷◌, ◌≡◌, ◌≤◌, ◌⊎◌,
}
use ppsi.Servo.Control.{pp_servo_pi_controller}
use ppsi.Servo.Drift.{pp_servo_pi_controller_bounds}
use ppsi.Servo.Port.{Servo, ServoCall, ServoEnv, ServoOpts, ServoWorld, servo_call, set_servo}
use ppsi.Servo.Steps.{
  delay_mm_of, first_incorrect, init_drift, pp_servo_calculate_delays, pp_servo_init, reset_data,
  shift_right, store_delays, store_if, tell_offset, update_mean_delay,
}
use ppsi.Servo.Update.{
  adj32, after_delays, apply_adjustment, count_update, is_close, jump, jump_or_steer,
  pp_servo_mpd_fltr, pp_servo_offset_master, pp_servo_update, steer, time_adjust_threshold,
  unless_jumped,
}
use ppsi.Time.Arith.{pp_time_add}
use ppsi.Time.Convert.{magnitude}

-- The largest step of the controller in nanoseconds (per second): the largest frequency adjustment, and
-- an offset of at most 20 ms.
abbrev pub max_step : ℕ
max_step = 512000 + 20000000 + 1

abbrev pub IsAdjustment : ServoCall → Type 0
IsAdjustment (ServoCall.adjust_freq x) = magnitude x ≤ max_step
IsAdjustment (ServoCall.adjust_offset x) = magnitude x ≤ max_step
IsAdjustment _ = ⊥

abbrev pub IsJump : List ServoCall → List ServoCall → Type 0
IsJump before after =
    (t : PpTime) × ((after ≡ ServoCall.set_time t ∷ before)
      ⊎ (after ≡ ServoCall.adjust ∷ ServoCall.set_time t ∷ before))

-- Nothing, one adjustment or one jump
abbrev pub Steered : List ServoCall → List ServoCall → Type 0
Steered before after =
    (after ≡ before)
    ⊎ (((c : ServoCall) × IsAdjustment c × (after ≡ c ∷ before)) ⊎ IsJump before after)

shift_right_bounds : (z : ℤ) → magnitude (shift_right 16 z) ≤ magnitude z / 2 ^ 16 + 1
unfolding shift_right
shift_right_bounds (pos n) = omega arith
shift_right_bounds (negsuc n) = omega arith

small_int : (z : ℤ) → magnitude z < 2 ^ 31 → of_word 32 (to_word 32 z) ≡ z
unfolding of_word to_word
small_int (pos n) h = ground arith
small_int (negsuc n) h = ground arith

adj32_bounds :
    (adj : ℤ) → magnitude adj ≤ (512000 + 20000000) * 2 ^ 16 → magnitude (adj32 adj) ≤ max_step
unfolding adj32
adj32_bounds adj h =
    let shifted = shift_right_bounds adj in
    rw (small_int (shift_right 16 adj) (omega arith)) (omega arith)

one_sign : (z : ℤ) → (pos_part z ≡ 0) ⊎ (neg_part z ≡ 0)
one_sign (pos n) = inr refl
one_sign (negsuc n) = inl refl

-- The controller, for an offset that is close
close_adjustment :
    (opts : ServoOpts) (drift ofm : ℤ)
    → pos_part ofm ≤ time_adjust_threshold
    → neg_part ofm ≤ time_adjust_threshold
    → magnitude (pp_servo_pi_controller opts drift ofm).1 ≤ (512000 + 20000000) * 2 ^ 16
close_adjustment opts drift ofm h i =
    let b = pp_servo_pi_controller_bounds opts drift ofm in
    let adj = (pp_servo_pi_controller opts drift ofm).1 in
    let p = div-le_self (pos_part ofm) opts.ap in
    let n = div-le_self (neg_part ofm) opts.ap in let one = one_sign adj in omega arith

close_bounds :
    (t : PpTime)
    → is_close t ≡ true
    → (pos_part t.scaled_nsecs ≤ time_adjust_threshold)
      × (neg_part t.scaled_nsecs ≤ time_adjust_threshold)
unfolding is_close
close_bounds t h = ground arith

abbrev pub calls_of : ServoWorld → ℕ → List ServoCall
calls_of w ppi = w.servo_calls ppi

apply_calls :
    (env : ServoEnv) (w : ServoWorld) (ppi : ℕ) (adj : ℤ)
    → (env.servo_opts.no_adjust ≡ true) ⊎ (magnitude adj ≤ (512000 + 20000000) * 2 ^ 16)
    → Steered (calls_of w ppi) (calls_of (apply_adjustment env w ppi adj) ppi)
unfolding apply_adjustment
apply_calls env w ppi adj h =
    let x = adj32 adj in
    let c = if env.has_adjust_freq then ServoCall.adjust_freq x else ServoCall.adjust_offset x in
    if_case env.servo_opts.no_adjust (λ (v : ServoWorld). Steered (calls_of w ppi) (calls_of v ppi))
      (λ off. inl refl)
      (λ on.
        let small : magnitude x ≤ max_step = elim h [
          | inl off ↦ cc
          | inr bound ↦ adj32_bounds adj bound
        ] in
        inr (
          inl (
            c,
            if_either env.has_adjust_freq IsAdjustment small small,
            update_self w.servo_calls ppi (c ∷ calls_of w ppi),
          )))

steer_calls :
    (env : ServoEnv) (w : ServoWorld) (ppi : ℕ)
    → (env.servo_opts.no_adjust ≡ true)
      ⊎ (is_close (w.servo_ports ppi).servo.offset_from_master ≡ true)
    → Steered (calls_of w ppi) (calls_of (steer env w ppi) ppi)
unfolding steer
steer_calls env w ppi h =
    let v = (w.servo_ports ppi).servo in
    let r = pp_servo_pi_controller env.servo_opts v.obs_drift v.offset_from_master.scaled_nsecs in
    apply_calls env (set_servo w ppi (record v { obs_drift = r.0 })) ppi r.1 (elim h [
      | inl off ↦ inl off
      | inr close ↦
          let b = close_bounds v.offset_from_master close in
          inr
            (close_adjustment env.servo_opts v.obs_drift v.offset_from_master.scaled_nsecs b.0 b.1)
    ])

-- The calls of an initialization
init_drift_calls :
    (o : Option (ServoWorld → ℕ → ℤ)) (env : ServoEnv) (w : ServoWorld) (ppi : ℕ) (v : Servo)
    → (calls_of (init_drift o env w ppi v) ppi ≡ calls_of w ppi)
      ⊎ (calls_of (init_drift o env w ppi v) ppi ≡ ServoCall.adjust ∷ calls_of w ppi)
unfolding init_drift
init_drift_calls (some init) env w ppi v = inl refl
init_drift_calls none env w ppi v =
    if_either env.servo_opts.no_adjust
      (λ (u : ServoWorld).
        (calls_of u ppi ≡ calls_of w ppi) ⊎ (calls_of u ppi ≡ ServoCall.adjust ∷ calls_of w ppi))
      (inl refl) (inr (update_self w.servo_calls ppi (ServoCall.adjust ∷ calls_of w ppi)))

jump_calls :
    (env : ServoEnv) (w : ServoWorld) (ppi : ℕ) (ofm : PpTime)
    → Steered (calls_of w ppi) (calls_of (jump env w ppi ofm) ppi)
unfolding jump pp_servo_init
jump_calls env w ppi ofm =
    let t = pp_time_add (env.clock w ppi) ofm in
    let w1 = servo_call w ppi (ServoCall.set_time t) in
    let v0 = reset_data (w1.servo_ports ppi).servo in
    let v = record v0 { mpd_fltr = record (v0.mpd_fltr) { s_exp = 0 }; is_valid = true } in
    let set = update_self w.servo_calls ppi (ServoCall.set_time t ∷ calls_of w ppi) in
    inr (
      inr (
        t,
        elim (init_drift_calls env.init_servo env w1 ppi v) [
          | inl same ↦ inl (same ∙ set)
          | inr more ↦ inr (more ∙ ap (λ cs. ServoCall.adjust ∷ cs) set)
        ],
      ))

jump_or_steer_calls :
    (env : ServoEnv) (w : ServoWorld) (ppi : ℕ)
    → Steered (calls_of w ppi) (calls_of (jump_or_steer env w ppi) ppi)
unfolding jump_or_steer pp_servo_offset_master unless_jumped
jump_or_steer_calls env w ppi =
    let ofm = (w.servo_ports ppi).servo.offset_from_master in
    let P = λ (o : Option ServoWorld).
      Steered (calls_of w ppi) (calls_of (unless_jumped env w ppi o) ppi) in
    if_case (is_close ofm) P (λ close. steer_calls env w ppi (inr close))
      (λ far.
        if_case env.servo_opts.no_adjust P (λ off. steer_calls env w ppi (inl off))
          (λ on. jump_calls env w ppi ofm))

mean_delay_calls :
    (w : ServoWorld) (ppi : ℕ) (mean : ℤ)
    → calls_of (update_mean_delay w ppi mean) ppi ≡ calls_of w ppi
unfolding update_mean_delay
mean_delay_calls w ppi mean =
    let P = λ (v : ServoWorld). calls_of v ppi ≡ calls_of w ppi in
    if_either (same_state (w.servo_globals.inst ppi).state State.slave) P
      (if_either (w.servo_globals.inst ppi).delay_mechanism_p2p P refl refl)
      (if_either (w.servo_globals.inst ppi).delay_mechanism_p2p P refl refl)

tell_offset_calls :
    (w : ServoWorld) (ppi : ℕ) (t : PpTime) → calls_of (tell_offset w ppi t) ppi ≡ calls_of w ppi
unfolding tell_offset
tell_offset_calls w ppi t =
    if_either (same_state (w.servo_globals.inst ppi).state State.slave)
      (λ (v : ServoWorld). calls_of v ppi ≡ calls_of w ppi) refl refl

-- The calculation of the delays calls nothing.
store_delays_calls :
    (w : ServoWorld) (ppi : ℕ) (d : PpTime) → calls_of (store_delays w ppi d) ppi ≡ calls_of w ppi
unfolding store_delays
store_delays_calls w ppi d = mean_delay_calls _ ppi _ ∙ tell_offset_calls _ ppi _

filter_calls :
    (env : ServoEnv) (w : ServoWorld) (ppi : ℕ)
    → calls_of (pp_servo_mpd_fltr env w ppi) ppi ≡ calls_of w ppi
unfolding pp_servo_mpd_fltr
filter_calls env w ppi = mean_delay_calls _ ppi _

after_store_calls :
    (env : ServoEnv) (w : ServoWorld) (ppi : ℕ) (d : Option PpTime)
    → Steered (calls_of w ppi) (calls_of (after_delays env w ppi (store_if w ppi d)) ppi)
unfolding store_if after_delays count_update
after_store_calls env w ppi none = inl refl
after_store_calls env w ppi (some d) =
    let w1 = store_delays w ppi d in
    let stored = store_delays_calls w ppi d in
    let filtered = filter_calls env w1 ppi ∙ stored in
    if_either (not (is_zero (w1.servo_ports ppi).servo.mean_delay.secs))
      (λ (v : ServoWorld). Steered (calls_of w ppi) (calls_of v ppi)) (inl stored)
      (subst
        (λ cs. Steered cs (calls_of (jump_or_steer env (pp_servo_mpd_fltr env w1 ppi) ppi) ppi))
        filtered (jump_or_steer_calls env (pp_servo_mpd_fltr env w1 ppi) ppi))

-- An update of the servo calls nothing, or adjusts the frequency (or the time, where the architecture
-- has no such operation) once, by at most 20512001 ns, or sets the time once and at most levels the
-- clock after that.
pub pp_servo_update-Steered :
    (env : ServoEnv) (w : ServoWorld) (ppi : ℕ)
    → Steered (calls_of w ppi) (calls_of (pp_servo_update env w ppi) ppi)
unfolding pp_servo_update pp_servo_calculate_delays store_if
pp_servo_update-Steered env w ppi =
    let p = w.servo_ports ppi in
    let d = delay_mm_of (w.servo_globals.inst ppi).delay_mechanism_p2p p in
    if_either (first_incorrect p.received)
      (λ (o : Option ServoWorld).
        Steered (calls_of w ppi) (calls_of (after_delays env w ppi o) ppi))
      (after_store_calls env w ppi none) (after_store_calls env w ppi d)
