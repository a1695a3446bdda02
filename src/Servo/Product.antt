-- ===== src/Servo/Product.antt =====
-- __mulRelativeDifference and pp_servo_calculateDelayAsymCoefficient of proto-standard/servo.c. The
-- operands are taken without their sign, as 64-bit words; an `x & mask` with a mask of low ones is a
-- remainder, and `x & ~mask`, shifted down past the mask, a quotient.
use mathlib.Core.Option
use ppsi.Prelude.{
  Bool, Option, if◌then◌else◌, is_neg, ltb, neg_part, none, not, of_word, pos_part, some, suc, true,
  zero, ℕ, ℤ, ◌%◌, ◌*◌, ◌+◌, ◌-◌, ◌/◌, ◌==◌, ◌^◌, ◌||◌,
}

-- The number of bits of a word, 64 - __builtin_clzll(value), or 0
unfoldable pub bit_length : ℕ → ℕ → ℕ
bit_length zero n = 0
bit_length (suc fuel) n = let rest = bit_length fuel (n / 2) in if n == 0 then 0 else rest + 1

unfoldable pub get_msb_set : ℕ → ℕ
get_msb_set value = bit_length 64 value

unfoldable pub smaller : ℕ → ℕ → ℕ
smaller a b = if ltb a b then a else b

-- Limit shift to 32 bits
unfoldable pub shift_for : ℕ → ℕ → ℕ
shift_for op1 op2 = smaller (64 - get_msb_set (smaller op1 op2)) 32

-- The sums of the partial products, for one shift
unfoldable pub add_products : ℕ → ℕ → ℕ → ℕ
add_products shift op1 op2 =
    let h1 = op1 / 2 ^ 32 in
    let l1 = op1 % 2 ^ 32 in
    let h2 = op2 / 2 ^ 32 in
    let l2 = op2 % 2 ^ 32 in
    let upper = h1 * h2 * 2 ^ shift % 2 ^ 64 in
    let mid1 = h1 * l2 in
    let mid2 = h2 * l1 in
    let lower = l1 * l2 / 2 in
    let middle = (mid1 + mid2) % 2 ^ 64 in
    let carried = if ltb middle mid1 || ltb middle mid2 then (upper + 2 ^ 32) % 2 ^ 64 else upper in
    let upper1 = (carried + middle / 2 ^ (32 - shift)) % 2 ^ 64 in
    let lower1 = (lower + middle % 2 ^ (32 - shift) * 2 ^ 31) % 2 ^ 64 in
    let upper2 = if ltb lower1 lower then (upper1 + 1) % 2 ^ 64 else upper1 in
    (upper2 + lower1 / 2 ^ (63 - shift)) % 2 ^ 64

-- The last shift scales back; a shift of less than 2 does not occur, as `Exact` shows.
unfoldable pub mul_relative_difference : ℕ → ℕ → ℕ
mul_relative_difference op1 op2 =
    let shift = shift_for op1 op2 in add_products shift op1 op2 / 2 ^ (shift - 2)

-- A positive coefficient adds and subtracts the terms in turn, a negative one adds them all.
unfoldable pub next_coefficient : Bool → Bool → ℕ → ℕ → ℕ
next_coefficient negative sub term c =
    if negative
    then (c + term + 1) % 2 ^ 64
    else if sub
    then (c + 2 ^ 64 - term) % 2 ^ 64
    else (c + term) % 2 ^ 64

-- while (term > 2); `none` is that the fuel ran out.
unfoldable pub expand_loop : ℕ → Bool → Bool → ℕ → ℕ → ℕ → Option ℕ
expand_loop zero negative sub coeff term c = none
expand_loop (suc fuel) negative sub coeff term c =
    let rest =
      expand_loop fuel negative (if negative then sub else not sub) coeff
        (mul_relative_difference coeff term / 2) (next_coefficient negative sub term c) in
    if ltb 2 term then rest else some c

-- The first term of the expansion
unfoldable pub first_term : ℕ → ℕ
first_term coeff = mul_relative_difference coeff (coeff / 2) / 2

-- pp_servo_calculateDelayAsymCoefficient without the sign, with fuel
unfoldable pub expand : Bool → ℕ → Option ℕ
expand negative coeff = expand_loop 64 negative true coeff (first_term coeff) (coeff / 2)

unfoldable pub pp_servo_calculate_delay_asym_coefficient : ℤ → Option ℤ
pp_servo_calculate_delay_asym_coefficient delay_coeff =
    Option.map (λ c. of_word 64 (if is_neg delay_coeff then (2 ^ 64 - c) % 2 ^ 64 else c))
      (expand (is_neg delay_coeff) (pos_part delay_coeff + neg_part delay_coeff))
