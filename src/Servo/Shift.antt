-- ===== src/Servo/Shift.antt =====
-- The shift of the product in proto-standard/servo.c, and the powers of two that go with it.
use ppsi.Prelude.{
  Bool, ap, arith, checked, checked_at, if_case, leb, ltb, refl, suc, true, zero, ℕ, ◌&&◌, ◌*◌, ◌+◌,
  ◌-◌, ◌/◌, ◌<◌, ◌==◌, ◌^◌, ◌≡◌, ◌≤◌,
}
use ppsi.Servo.Product.{bit_length, get_msb_set, shift_for, smaller}

pub double : (k : ℕ) → 2 ^ suc k ≡ 2 ^ k * 2
double k = omega arith

pub pow_pos : (k : ℕ) → 0 < 2 ^ k
pow_pos zero = omega arith
pow_pos (suc k) = let ih = pow_pos k in let e = double k in omega arith

pub pow_mono : (k s : ℕ) → k ≤ s → 2 ^ k ≤ 2 ^ s
pow_mono zero s h = pow_pos s
pow_mono (suc k) zero h = absurd (omega arith)
pow_mono (suc k) (suc s) h =
    let ih = pow_mono k s (omega arith) in let e = double k in let f = double s in omega arith

next_bit : (n k : ℕ) → n / 2 < 2 ^ k → n < 2 ^ (k + 1)
next_bit n k h =
    let e = double k in
    let f : 2 ^ (k + 1) ≡ 2 ^ suc k = ap (λ x. 2 ^ x) (omega arith) in omega arith

half_bit : (n k : ℕ) → n < 2 ^ suc k → n / 2 < 2 ^ k
half_bit n k h = let e = double k in omega arith

bit_length-bound : (fuel n : ℕ) → n < 2 ^ fuel → n < 2 ^ bit_length fuel n
unfolding bit_length
bit_length-bound zero n h = h
bit_length-bound (suc fuel) n h =
    if_case (n == 0) (λ b. n < 2 ^ b) (λ e. ground arith)
      (λ e.
        next_bit n (bit_length fuel (n / 2)) (bit_length-bound fuel (n / 2) (half_bit n fuel h)))

bit_length-le : (fuel k n : ℕ) → n < 2 ^ k → bit_length fuel n ≤ k
unfolding bit_length
bit_length-le zero k n h = omega arith
bit_length-le (suc fuel) zero n h = ground arith
bit_length-le (suc fuel) (suc k) n h =
    if_case (n == 0) (λ b. b ≤ suc k) (λ e. omega arith)
      (λ e. let ih = bit_length-le fuel k (n / 2) (half_bit n k h) in omega arith)

-- The powers of two that a shift stands for.
powers_of : ℕ → Bool
powers_of s =
    (2 ^ (32 - s) * 2 ^ s == 2 ^ 32)
    && (2 ^ (32 - s) * 2 ^ 31 == 2 ^ (63 - s))
    && (2 ^ (32 - s) * 2 ^ 32 * 2 ^ (s - 2) == 2 ^ 62)
    && (2 ^ (32 - s) * 2 ^ 32 == 2 ^ (64 - s))
    && leb (2 ^ (32 - s)) (2 ^ 30)

all_powers : checked 31 2 powers_of ≡ true
unfolding checked powers_of
all_powers = refl

abbrev pub Powers : ℕ → Type 0
Powers s =
    (2 ^ (32 - s) * 2 ^ s ≡ 2 ^ 32)
    × (2 ^ (32 - s) * 2 ^ 31 ≡ 2 ^ (63 - s))
    × (2 ^ (32 - s) * 2 ^ 32 * 2 ^ (s - 2) ≡ 2 ^ 62)
    × (2 ^ (32 - s) * 2 ^ 32 ≡ 2 ^ (64 - s))
    × (2 ^ (32 - s) ≤ 2 ^ 30)

test_powers :
    (a b c d e f g h i j : ℕ)
    → ((a == b) && (c == d) && (e == f) && (g == h) && leb i j) ≡ true
    → (a ≡ b) × (c ≡ d) × (e ≡ f) × (g ≡ h) × (i ≤ j)
test_powers a b c d e f g h i j t = ground arith

pub powers : (s : ℕ) → 2 ≤ s → s ≤ 32 → Powers s
unfolding powers_of
powers s low high =
    test_powers _ _ _ _ _ _ _ _ _ _ (checked_at 31 2 powers_of all_powers s low (omega arith))

-- Up to 32 bits
few_bits : ℕ → Bool
few_bits n = leb (2 ^ n) (2 ^ 32)

all_few_bits : checked 33 0 few_bits ≡ true
unfolding checked few_bits
all_few_bits = refl

leb→le : (a b : ℕ) → leb a b ≡ true → a ≤ b
leb→le a b h = ground arith

few_bits-le : (n : ℕ) → n ≤ 32 → 2 ^ n ≤ 2 ^ 32
unfolding few_bits
few_bits-le n h =
    leb→le (2 ^ n) (2 ^ 32) (checked_at 33 0 few_bits all_few_bits n (omega arith) (omega arith))

-- The shift for an operand of `n` bits
abbrev Fits : ℕ → ℕ → Type 0
Fits m s = (2 ≤ s) × (s ≤ 32) × (m < 2 ^ (64 - s))

shift_bits : (m n : ℕ) → n ≤ 62 → m < 2 ^ n → Fits m (smaller (64 - n) 32)
unfolding smaller
shift_bits m n h i =
    if_case (ltb (64 - n) 32) (Fits m)
      (λ less. let e : 64 - (64 - n) ≡ n = omega arith in (omega arith, ground arith, rw e i))
      (λ more. let few = few_bits-le n (ground arith) in (omega arith, omega arith, omega arith))

-- How big the smaller operand is, from the shift.
pub shift_lem : (a b : ℕ) → smaller a b < 2 ^ 62 → Fits (smaller a b) (shift_for a b)
unfolding shift_for get_msb_set
shift_lem a b h =
    let m = smaller a b in
    shift_bits m (bit_length 64 m) (bit_length-le 64 62 m h) (bit_length-bound 64 m (omega arith))
