-- ===== src/Servo/Control.antt =====
-- The two filters of proto-standard/servo.c: the running average of the mean delay and the PI
-- controller.
use ppsi.Prelude.{
  if◌then◌else◌, is_neg, is_pos, ltb, neg_part, neg_ℤ, pos, pos_part, suc, zero, ℕ, ℤ, ◌%◌, ◌*◌,
  ◌+ℤ◌, ◌+◌, ◌-◌, ◌/◌, ◌==◌, ◌^◌,
}
use ppsi.Servo.Port.{AvgFltr, ServoOpts}

-- while (y >> (63 - s)) --s: a y below 2^63 ends it at 0 at the latest.
unfoldable pub limit_shift : ℕ → ℕ → ℕ
limit_shift zero y = zero
limit_shift (suc s) y =
    let rest = limit_shift s y in if y / 2 ^ (63 - suc s) == 0 then suc s else rest

-- The stiffness for an average `y`
unfoldable pub next_s_exp : ℕ → AvgFltr → ℕ
next_s_exp s f =
    let top = 2 ^ limit_shift s f.y in
    let limited = if ltb top f.s_exp then top else f.s_exp in
    if ltb limited top then limited + 1 else limited

-- The first time, keep what we have.
unfoldable pub first_average : AvgFltr → ℤ → AvgFltr
first_average f delay = if ltb f.s_exp 1 then record f { y = pos_part delay } else f

-- A negative delay is replaced by the average, and one that is too long is trimmed.
unfoldable pub trimmed : AvgFltr → ℤ → ℕ
trimmed f delay =
    let x = if is_neg delay then f.y else pos_part delay in
    if ltb (3 * f.y) x then f.y * 2 + f.s_exp + 1 else x

-- pp_servo_mpd_fltr on the nanoseconds of the mean delay: the filter, whose `y` is the new mean delay.
unfoldable pub average : ℕ → AvgFltr → ℤ → AvgFltr
average s f0 delay =
    let f1 = first_average f0 delay in
    let f = record f1 { s_exp = next_s_exp s f1 } in
    record f { y = (f.y * (f.s_exp - 1) + trimmed f delay) % 2 ^ 64 / (f.s_exp % 2 ^ 32) }

-- PP_ADJ_FREQ_MAX
abbrev pub adj_freq_max : ℕ
adj_freq_max = 512000

-- Anti-windup
unfoldable pub drift_limit : ServoOpts → ℕ
drift_limit opts = adj_freq_max * opts.ai * 2 ^ 16

unfoldable pub clamp : ℕ → ℤ → ℤ
clamp limit d =
    if ltb limit (pos_part d)
    then pos limit
    else if ltb limit (neg_part d)
    then neg_ℤ (pos limit)
    else d

-- A term of the controller: the division is made without the sign.
unfoldable pub divided : ℤ → ℕ → ℤ
divided d k = if is_pos d then pos (pos_part d / k) else neg_ℤ (pos (neg_part d / k))

-- pp_servo_pi_controller: the new drift, and the adjustment in nanoseconds * 2^16
unfoldable pub pp_servo_pi_controller : ServoOpts → ℤ → ℤ → ℤ × ℤ
pp_servo_pi_controller opts drift ofm =
    let d = clamp (drift_limit opts) (drift +ℤ ofm) in (d, divided ofm opts.ap +ℤ divided d opts.ai)
