-- ===== src/Servo/Drift.antt =====
-- The bounds of the PI controller of proto-standard/servo.c.
use native.Mathlib.Nat.{div-le_of_le-mul, zero-div}
use ppsi.Prelude.{
  arith, neg_part, negsuc, pos, pos_part, suc, zero, ℕ, ℤ, ◌*◌, ◌+ℤ◌, ◌+◌, ◌/◌, ◌^◌, ◌≡◌, ◌≤◌,
}
use ppsi.Servo.Control.{adj_freq_max, clamp, divided, drift_limit, pp_servo_pi_controller}
use ppsi.Servo.Port.{ServoOpts}

clamp_bounds :
    (limit : ℕ) (d : ℤ) → (pos_part (clamp limit d) ≤ limit) × (neg_part (clamp limit d) ≤ limit)
unfolding clamp
clamp_bounds limit d = (ground arith, ground arith)

divided_parts :
    (d : ℤ) (k : ℕ)
    → (pos_part (divided d k) ≡ pos_part d / k) × (neg_part (divided d k) ≡ neg_part d / k)
unfolding divided
divided_parts (pos zero) k = ground (arith, zero-div k)
divided_parts (pos (suc n)) k = ground (arith, zero-div k)
divided_parts (negsuc n) k = ground (arith, zero-div k)

sum_bounds :
    (a b : ℤ)
    → (pos_part (a +ℤ b) ≤ pos_part a + pos_part b) × (neg_part (a +ℤ b) ≤ neg_part a + neg_part b)
unfolding ◌+ℤ◌
sum_bounds a b = (ground arith, ground arith)

limit_divided : (n ai : ℕ) → n ≤ adj_freq_max * ai * 2 ^ 16 → n / ai ≤ adj_freq_max * 2 ^ 16
limit_divided n ai h = div-le_of_le-mul ai (omega arith)

abbrev pub DriftBounds : ServoOpts → ℤ → ℤ × ℤ → Type 0
DriftBounds opts ofm (d, adj) =
    (pos_part d ≤ adj_freq_max * opts.ai * 2 ^ 16)
    × (neg_part d ≤ adj_freq_max * opts.ai * 2 ^ 16)
    × (pos_part adj ≤ adj_freq_max * 2 ^ 16 + pos_part ofm / opts.ap)
    × (neg_part adj ≤ adj_freq_max * 2 ^ 16 + neg_part ofm / opts.ap)

-- The drift stays within the limit, which is the largest frequency adjustment times `ai`, and the
-- adjustment, in units of 2^-16, within that largest one and the offset divided by `ap`.
pub pp_servo_pi_controller_bounds :
    (opts : ServoOpts) (drift ofm : ℤ)
    → DriftBounds opts ofm (pp_servo_pi_controller opts drift ofm)
unfolding pp_servo_pi_controller drift_limit
pp_servo_pi_controller_bounds opts drift ofm =
    let d = clamp (drift_limit opts) (drift +ℤ ofm) in
    let (above, below) = clamp_bounds (drift_limit opts) (drift +ℤ ofm) in
    let sum = sum_bounds (divided ofm opts.ap) (divided d opts.ai) in
    let p = divided_parts ofm opts.ap in
    let i = divided_parts d opts.ai in
    let most = limit_divided (pos_part d) opts.ai above in
    let least = limit_divided (neg_part d) opts.ai below in (above, below, omega arith, omega arith)
