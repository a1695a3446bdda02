-- ===== src/Servo/Expansion.antt =====
-- The expansion of pp_servo_calculateDelayAsymCoefficient (proto-standard/servo.c) ends.
use mathlib.Core.Option.{none-ne-some, some-injective}
use mathlib.Core.Path.{subst}
use native.Mathlib.Nat.{mul-le-mul_right}
use ppsi.Prelude.{
  Bool, Bool-cases, arith, false, if◌then◌else◌, inl, inr, ltb, not, some, suc, true, zero, ℕ, ◌*◌,
  ◌+◌, ◌/◌, ◌<◌, ◌^◌, ◌≡◌, ◌≤◌,
}
use ppsi.Servo.Exact.{mul_relative_difference_lem}
use ppsi.Servo.Product.{
  expand, expand_loop, first_term, mul_relative_difference, next_coefficient, smaller,
}
use ppsi.Servo.Shift.{double}

-- A term is at most half of the one before.
next_term :
    (coeff term : ℕ)
    → coeff < 2 ^ 62
    → term < 2 ^ 63
    → mul_relative_difference coeff term / 2 ≤ term / 2
unfolding smaller
next_term coeff term h i =
    let exact = mul_relative_difference_lem coeff term (omega arith) i (ground arith) in
    let most : coeff * term ≤ 2 ^ 62 * term = mul-le-mul_right term (omega arith) in
    rw exact (omega arith)

expand_loop_total :
    (fuel : ℕ) (negative sub : Bool) (coeff term c : ℕ)
    → coeff < 2 ^ 62
    → term < 2 ^ fuel
    → term < 2 ^ 63
    → (r : ℕ) × (expand_loop (suc fuel) negative sub coeff term c ≡ some r)
unfolding expand_loop
expand_loop_total zero negative sub coeff term c h i f = (c, ground arith)
expand_loop_total (suc fuel) negative sub coeff term c h i f =
    let falls = next_term coeff term h f in
    let twice = double fuel in
    elim (Bool-cases (ltb 2 term)) [
      | inl more ↦ rw more (
          expand_loop_total fuel negative (if negative then sub else not sub) coeff
            (mul_relative_difference coeff term / 2) (next_coefficient negative sub term c) h
            (omega arith) (omega arith))
      | inr done ↦ (c, rw done)
    ]

-- What an alternating sum stays within: the next term below, or above.
abbrev Within : Bool → (c term r : ℕ) → Type 0
Within true c term r = (c ≤ r + term) × (r ≤ c)
Within false c term r = (c ≤ r) × (r ≤ c + term)

-- A state of the loop in which nothing overflows.
abbrev InRange : Bool → (c term : ℕ) → Type 0
InRange true c term = (term < 2 ^ 61) × (c + 2 * term < 2 ^ 62) × (term ≤ c)
InRange false c term = (term < 2 ^ 61) × (c + 2 * term < 2 ^ 62)

step-InRange :
    (sub : Bool) (c term next : ℕ)
    → InRange sub c term
    → next ≤ term / 2
    → InRange (not sub) (next_coefficient false sub term c) next
unfolding next_coefficient
step-InRange true c term next range h = omega arith
step-InRange false c term next range h = omega arith

step-Within :
    (sub : Bool) (c term next r : ℕ)
    → InRange sub c term
    → next ≤ term / 2
    → Within (not sub) (next_coefficient false sub term c) next r
    → Within sub c term r
unfolding next_coefficient
step-Within true c term next r range h w = omega arith
step-Within false c term next r range h w = omega arith

stop-Within : (sub : Bool) (c term : ℕ) → InRange sub c term → Within sub c term c
stop-Within true c term range = omega arith
stop-Within false c term range = omega arith

small_term : (sub : Bool) (c term : ℕ) → InRange sub c term → term < 2 ^ 63
small_term true c term range = omega arith
small_term false c term range = omega arith

expand_loop-Within :
    (fuel : ℕ) (sub : Bool) (coeff term c r : ℕ)
    → coeff < 2 ^ 62
    → InRange sub c term
    → expand_loop fuel false sub coeff term c ≡ some r
    → Within sub c term r
unfolding expand_loop
expand_loop-Within zero sub coeff term c r h range e = absurd (none-ne-some r e)
expand_loop-Within (suc fuel) sub coeff term c r h range e =
    let next = mul_relative_difference coeff term / 2 in
    let falls = next_term coeff term h (small_term sub c term range) in
    elim (Bool-cases (ltb 2 term)) [
      | inl more ↦ step-Within sub c term next r range falls (
          expand_loop-Within fuel (not sub) coeff next (next_coefficient false sub term c) r h
            (step-InRange sub c term next range falls) (rw more at e))
      | inr done ↦
          let same : c ≡ r = some-injective c r (rw done at e) in
          subst (Within sub c term) same (stop-Within sub c term range)
    ]

-- For a coefficient below 1, which is 2^62, the expansion ends: 64 rounds are enough. For a positive
-- one the result lies between its half and its half less the first term.
pub expand_total :
    (coeff : ℕ)
    → coeff < 2 ^ 62
    → ((r : ℕ) × (expand true coeff ≡ some r))
      × ((r : ℕ) × (expand false coeff ≡ some r)
          × (coeff / 2 ≤ r + first_term coeff)
          × (r ≤ coeff / 2))
unfolding expand first_term
expand_total coeff h =
    let falls = next_term coeff (coeff / 2) h (omega arith) in
    let first = mul_relative_difference coeff (coeff / 2) / 2 in
    let (r, e) =
      expand_loop_total 63 false true coeff first (coeff / 2) h (omega arith) (omega arith) in
    let w = expand_loop-Within 64 true coeff first (coeff / 2) r h (omega arith) e in
    (
      expand_loop_total 63 true true coeff first (coeff / 2) h (omega arith) (omega arith),
      (r, e, w.0, w.1),
    )
