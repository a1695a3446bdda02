-- ===== src/Servo/Exact.antt =====
-- The product of proto-standard/servo.c is exact.
use native.Mathlib.Nat.{
  mul_comm, mul_assoc, div-div-eq-div-mul, add-mul-div_right, div-add-mod', add-mul, mod-lt,
  div-lt_iff_lt-mul,
}
use ppsi.Prelude.{
  Bool, ap, arith, false, if◌then◌else◌, ltb, true, ℕ, ◌%◌, ◌*◌, ◌+◌, ◌-◌, ◌/◌, ◌<◌, ◌^◌, ◌∙◌, ◌≡◌,
  ◌≤◌,
}
use ppsi.Servo.Halves.{Small, product_le, small_lem}
use ppsi.Servo.Product.{add_products, mul_relative_difference, shift_for, smaller}
use ppsi.Servo.Shift.{Powers, pow_pos, powers, shift_lem}

-- The partial sums are the quotient of the whole product.
quotient :
    (u m l d s : ℕ)
    → 0 < d
    → d * s ≡ 2 ^ 32
    → u * s + m / d + (l / 2 + m % d * 2 ^ 31) / (d * 2 ^ 31)
      ≡ (u * 2 ^ 32 * 2 ^ 32 + m * 2 ^ 32 + l) / (d * 2 ^ 32)
quotient u m l d s h e =
    let r = m % d in
    let halves : (l / 2 + r * 2 ^ 31) / (d * 2 ^ 31) ≡ (l + r * 2 ^ 32) / (d * 2 ^ 32) =
      let inside : l / 2 + r * 2 ^ 31 ≡ (l + r * 2 ^ 32) / 2 = omega arith in
      let outside : 2 * (d * 2 ^ 31) ≡ d * 2 ^ 32 = omega arith in
      rw (inside, div-div-eq-div-mul (l + r * 2 ^ 32) 2 (d * 2 ^ 31), outside) in
    let units : u * s * d ≡ u * 2 ^ 32 = mul_assoc u s d ∙ ap (λ x. u * x) (mul_comm s d ∙ e) in
    let parts : m / d * d + r ≡ m = div-add-mod' m d in
    let distributed : (u * s + m / d) * (d * 2 ^ 32) ≡ (u * s * d + m / d * d) * 2 ^ 32 =
      rw (← mul_assoc (u * s + m / d) d (2 ^ 32), add-mul (u * s) (m / d) d) in
    let whole : u * 2 ^ 32 * 2 ^ 32 + m * 2 ^ 32 + l
        ≡ l + r * 2 ^ 32 + (u * s + m / d) * (d * 2 ^ 32) =
      omega arith in
    let pos_d : 0 < d * 2 ^ 32 = omega arith in
    rw (halves, whole, add-mul-div_right (l + r * 2 ^ 32) (u * s + m / d) pos_d) (omega arith)

fits_word : (n : ℕ) → n < 2 ^ 64 → n % 2 ^ 64 ≡ n
fits_word n h = omega arith

not_ltb : (a b : ℕ) → b ≤ a → ltb a b ≡ false
not_ltb a b h = ground arith

-- The sum of the outer, the middle and the inner products, without words.
abbrev partial_sums : (s a b : ℕ) → ℕ
partial_sums s a b =
    let m = a / 2 ^ 32 * (b % 2 ^ 32) + b / 2 ^ 32 * (a % 2 ^ 32) in
    a / 2 ^ 32 * (b / 2 ^ 32) * 2 ^ s
    + m / 2 ^ (32 - s)
    + (a % 2 ^ 32 * (b % 2 ^ 32) / 2 + m % 2 ^ (32 - s) * 2 ^ 31) / 2 ^ (63 - s)

-- The additions, when no sum overflows.
add_parts :
    (s a b : ℕ)
    → Powers s
    → Small s a b
    → 0 < 2 ^ (32 - s)
    → partial_sums s a b < 2 ^ 64
    → add_products s a b ≡ partial_sums s a b
unfolding add_products
add_parts s a b (p, q, r, t, d_small) small d_pos total =
    let h1 = a / 2 ^ 32 in
    let l1 = a % 2 ^ 32 in
    let h2 = b / 2 ^ 32 in
    let l2 = b % 2 ^ 32 in
    let m = h1 * l2 + h2 * l1 in
    let u = h1 * h2 * 2 ^ s in
    let l = l1 * l2 / 2 in
    let d = 2 ^ (32 - s) in
    let low = l + m % d * 2 ^ 31 in
    let rest : m % d < d = mod-lt m d_pos in
    let small_outer = small.outer in
    let small_inner = small.inner in
    let low_fits = fits_word low (omega arith) in
    rw
      (
        fits_word u (omega arith),
        fits_word m small.middle,
        not_ltb m (h1 * l2) (omega arith),
        not_ltb m (h2 * l1) (omega arith),
      )
      (rw (
        low_fits,
        not_ltb low l (omega arith),
        fits_word (u + m / d) (omega arith),
        fits_word (partial_sums s a b) total,
      ))

-- The product of two halves each, put together again.
halves_product :
    (h1 l1 h2 l2 : ℕ)
    → h1 * h2 * 2 ^ 32 * 2 ^ 32 + (h1 * l2 + h2 * l1) * 2 ^ 32 + l1 * l2
      ≡ (h1 * 2 ^ 32 + l1) * (h2 * 2 ^ 32 + l2)
halves_product h1 l1 h2 l2 = grind arith

partial_sums_lem :
    (s a b : ℕ) → Powers s → 0 < 2 ^ (32 - s) → partial_sums s a b ≡ a * b / (2 ^ (32 - s) * 2 ^ 32)
partial_sums_lem s a b (p, q, r, t, d_small) d_pos =
    let h1 = a / 2 ^ 32 in
    let l1 = a % 2 ^ 32 in
    let h2 = b / 2 ^ 32 in
    let l2 = b % 2 ^ 32 in
    let whole : (h1 * 2 ^ 32 + l1) * (h2 * 2 ^ 32 + l2) ≡ a * b =
      rw (div-add-mod' a (2 ^ 32), div-add-mod' b (2 ^ 32)) in
    rw (← q) (
      quotient (h1 * h2) (h1 * l2 + h2 * l1) (l1 * l2) (2 ^ (32 - s)) (2 ^ s) d_pos p
      ∙ ap (λ x. x / (2 ^ (32 - s) * 2 ^ 32)) (halves_product h1 l1 h2 l2 ∙ whole))

-- How big the product is, in units of the quotient
small_product :
    (c : Bool) (a b w : ℕ)
    → 0 < w
    → (if c then a else b) < w
    → a < 2 ^ 63
    → b < 2 ^ 63
    → a * b / w < 2 ^ 64
small_product true a b w h i ha hb =
    let most : a * b ≤ w * (2 ^ 63 - 1) =
      product_le a b w (2 ^ 63 - 1) (omega arith) (omega arith) in
    (div-lt_iff_lt-mul h).1 (omega arith)
small_product false a b w h i ha hb =
    let most : a * b ≤ (2 ^ 63 - 1) * w =
      product_le a b (2 ^ 63 - 1) w (omega arith) (omega arith) in
    (div-lt_iff_lt-mul h).1 (omega arith)

small_total :
    (s a b : ℕ)
    → Powers s
    → 0 < 2 ^ (32 - s)
    → smaller a b < 2 ^ (64 - s)
    → a < 2 ^ 63
    → b < 2 ^ 63
    → a * b / (2 ^ (32 - s) * 2 ^ 32) < 2 ^ 64
unfolding smaller
small_total s a b p d_pos fits ha hb =
    let e = p.3 in
    small_product (ltb a b) a b (2 ^ (32 - s) * 2 ^ 32) (omega arith) (rw e fits) ha hb

-- For operands below 2^63, the smaller of them below 2^62, the product of the four halves, its
-- additions and its shifts lose nothing and overflow nowhere: the result is the whole product,
-- divided by 2^62 and rounded down.
pub mul_relative_difference_lem :
    (op1 op2 : ℕ)
    → op1 < 2 ^ 63
    → op2 < 2 ^ 63
    → smaller op1 op2 < 2 ^ 62
    → mul_relative_difference op1 op2 ≡ op1 * op2 / 2 ^ 62
unfolding mul_relative_difference
mul_relative_difference_lem a b ha hb h =
    let s = shift_for a b in
    let (low, high, fits) = shift_lem a b h in
    let p = powers s low high in
    let d_pos = pow_pos (32 - s) in
    let sums = partial_sums_lem s a b p d_pos in
    let total : a * b / (2 ^ (32 - s) * 2 ^ 32) < 2 ^ 64 = small_total s a b p d_pos fits ha hb in
    let added = add_parts s a b p (small_lem s a b p fits ha hb) d_pos (rw sums total) in
    rw (added, sums, div-div-eq-div-mul (a * b) (2 ^ (32 - s) * 2 ^ 32) (2 ^ (s - 2)), p.2)
