-- ===== src/Servo/Halves.antt =====
-- The bounds of the partial products in proto-standard/servo.c.
use native.Mathlib.Nat.{mul-le-mul_right, mul-le-mul, mul_comm, mul_assoc}
use ppsi.Prelude.{
  Bool, arith, false, if◌then◌else◌, ltb, true, ℕ, ◌%◌, ◌*◌, ◌+◌, ◌-◌, ◌/◌, ◌<◌, ◌^◌, ◌≡◌, ◌≤◌,
}
use ppsi.Servo.Product.{smaller}
use ppsi.Servo.Shift.{Powers}

-- No sum of the partial products overflows, where the operands and the shift fit.
pub record Small (s a b : ℕ) : Type 0 where
  pub outer : (a / 2 ^ 32) * (b / 2 ^ 32) * 2 ^ s < 2 ^ 63
  pub middle : (a / 2 ^ 32) * (b % 2 ^ 32) + (b / 2 ^ 32) * (a % 2 ^ 32) < 2 ^ 64
  pub inner : (a % 2 ^ 32) * (b % 2 ^ 32) < 2 ^ 64

pub product_le : (a b c d : ℕ) → a ≤ c → b ≤ d → a * b ≤ c * d
product_le a b c d h i = mul-le-mul h i

-- The bounds, for the halves of a small and a big operand.
halves_bounds :
    (xh xl yh yl s d : ℕ)
    → d * s ≡ 2 ^ 32
    → d ≤ 2 ^ 30
    → xh < d
    → xl < 2 ^ 32
    → yh < 2 ^ 31
    → yl < 2 ^ 32
    → (xh * yh * s < 2 ^ 63) × (xh * yl + yh * xl < 2 ^ 64) × (xl * yl < 2 ^ 64)
halves_bounds xh xl yh yl s d e small hx lx hy ly =
    let shifted : xh * s ≤ d * s = mul-le-mul_right s (omega arith) in
    let outer : yh * (xh * s) ≤ (2 ^ 31 - 1) * 2 ^ 32 =
      product_le yh (xh * s) (2 ^ 31 - 1) (2 ^ 32) (omega arith) (omega arith) in
    let regroup : xh * yh * s ≡ yh * (xh * s) = rw (mul_comm xh yh, mul_assoc yh xh s) in
    let first : xh * yl ≤ 2 ^ 30 * 2 ^ 32 =
      product_le xh yl (2 ^ 30) (2 ^ 32) (omega arith) (omega arith) in
    let second : yh * xl ≤ 2 ^ 31 * 2 ^ 32 =
      product_le yh xl (2 ^ 31) (2 ^ 32) (omega arith) (omega arith) in
    let inner : xl * yl ≤ (2 ^ 32 - 1) * (2 ^ 32 - 1) =
      product_le xl yl (2 ^ 32 - 1) (2 ^ 32 - 1) (omega arith) (omega arith) in
    (omega arith, omega arith, omega arith)

-- The high half of the smaller operand
high_half : (x d : ℕ) → x < d * 2 ^ 32 → x / 2 ^ 32 < d
high_half x d h = omega arith

bounds_by :
    (c : Bool) (s a b : ℕ)
    → Powers s
    → (if c then a else b) < 2 ^ (64 - s)
    → a < 2 ^ 63
    → b < 2 ^ 63
    → Small s a b
bounds_by true s a b (p, q, r, t, u) m ha hb =
    let bounds =
      halves_bounds (a / 2 ^ 32) (a % 2 ^ 32) (b / 2 ^ 32) (b % 2 ^ 32) (2 ^ s) (2 ^ (32 - s)) p u
        (high_half a (2 ^ (32 - s)) (omega arith)) (omega arith) (omega arith) (omega arith) in
    record { outer = bounds.0; middle = bounds.1; inner = bounds.2 }
bounds_by false s a b (p, q, r, t, u) m ha hb =
    let bounds =
      halves_bounds (b / 2 ^ 32) (b % 2 ^ 32) (a / 2 ^ 32) (a % 2 ^ 32) (2 ^ s) (2 ^ (32 - s)) p u
        (high_half b (2 ^ (32 - s)) (omega arith)) (omega arith) (omega arith) (omega arith) in
    record {
      outer = rw (mul_comm (a / 2 ^ 32) (b / 2 ^ 32)) bounds.0;
      middle = omega (arith, bounds.1);
      inner = rw (mul_comm (a % 2 ^ 32) (b % 2 ^ 32)) bounds.2;
    }

pub small_lem :
    (s a b : ℕ) → Powers s → smaller a b < 2 ^ (64 - s) → a < 2 ^ 63 → b < 2 ^ 63 → Small s a b
unfolding smaller
small_lem s a b p m ha hb = bounds_by (ltb a b) s a b p m ha hb
