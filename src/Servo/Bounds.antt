-- ===== src/Servo/Bounds.antt =====
-- The bounds of the running average of proto-standard/servo.c.
use native.Mathlib.Nat.{mul-le-mul_right, mod-eq_of_lt, div-lt_iff_lt-mul, le-div_iff_mul-le}
use mathlib.Core.Path.{subst}
use ppsi.Prelude.{
  ==_iff, Bool, Bool-cases, arith, checked, checked_at, false, if_case, if◌then◌else◌, inl, inr,
  is_neg, leb, ltb, negsuc, pos, pos_part, refl, suc, true, zero, ℕ, ℤ, ◌%◌, ◌*◌, ◌+◌, ◌-◌, ◌/◌,
  ◌<◌, ◌==◌, ◌^◌, ◌≡◌, ◌≤◌, ◌⊎◌,
}
use ppsi.Servo.Control.{average, first_average, limit_shift, next_s_exp, trimmed}
use ppsi.Servo.Halves.{product_le}
use ppsi.Servo.Port.{AvgFltr}
use ppsi.Servo.Shift.{pow_mono, pow_pos}

-- The shift that the filter chooses
limit_shift-le : (s y : ℕ) → limit_shift s y ≤ s
unfolding limit_shift
limit_shift-le zero y = omega arith
limit_shift-le (suc s) y =
    if_case (y / 2 ^ (63 - suc s) == 0) (λ k. k ≤ suc s) (λ e. omega arith)
      (λ e. let ih = limit_shift-le s y in omega arith)

limit_shift-fits : (s y : ℕ) → y < 2 ^ 63 → y / 2 ^ (63 - limit_shift s y) ≡ 0
unfolding limit_shift
limit_shift-fits zero y h = omega arith
limit_shift-fits (suc s) y h =
    if_case (y / 2 ^ (63 - suc s) == 0) (λ k. y / 2 ^ (63 - k) ≡ 0) (λ e. ground arith)
      (λ e. limit_shift-fits s y h)

-- The stiffness lies between 1 and 2^s.
one_more :
    (top e : ℕ)
    → 0 < top
    → let limited = if ltb top e then top else e in
      let next = if ltb limited top then limited + 1 else limited in
      (1 ≤ next) × (next ≤ top) × (e ≤ top → e ≤ next)
one_more top e h = (ground arith, ground arith, ground arith)

next_s_exp_bounds : (s : ℕ) (f : AvgFltr) → (1 ≤ next_s_exp s f) × (next_s_exp s f ≤ 2 ^ s)
unfolding next_s_exp
next_s_exp_bounds s f =
    let k = limit_shift s f.y in
    let one = one_more (2 ^ k) f.s_exp (pow_pos k) in
    let mono = pow_mono k s (limit_shift-le s f.y) in (one.0, omega arith)

-- The mean of an old value with weight n and a new one lies between them.
weighted_above : (n y x : ℕ) → y ≤ x → (y ≤ (y * n + x) / suc n) × ((y * n + x) / suc n ≤ x)
weighted_above n y x h =
    let weighted : y * n ≤ x * n = mul-le-mul_right n h in
    let under : y * suc n ≤ y * n + x = grind arith in
    let over : y * n + x < suc x * suc n = grind arith in
    let n_pos : 0 < suc n = omega arith in
    let low : y ≤ (y * n + x) / suc n = (le-div_iff_mul-le n_pos).1 under in
    let high : (y * n + x) / suc n < suc x = (div-lt_iff_lt-mul n_pos).1 over in (low, omega arith)

weighted_below : (n y x : ℕ) → x ≤ y → (x ≤ (y * n + x) / suc n) × ((y * n + x) / suc n ≤ y)
weighted_below n y x h =
    let weighted : x * n ≤ y * n = mul-le-mul_right n h in
    let under : x * suc n ≤ y * n + x = grind arith in
    let over : y * n + x < suc y * suc n = grind arith in
    let n_pos : 0 < suc n = omega arith in
    let low : x ≤ (y * n + x) / suc n = (le-div_iff_mul-le n_pos).1 under in
    let high : (y * n + x) / suc n < suc y = (div-lt_iff_lt-mul n_pos).1 over in (low, omega arith)

-- The quotient that the filter computes, where nothing overflows.
abbrev pub Mean : ℕ → ℕ → ℕ → Type 0
Mean y x r = (y ≤ x → (y ≤ r) × (r ≤ x)) × (x ≤ y → (x ≤ r) × (r ≤ y))

quotient-Mean :
    (e y x : ℕ)
    → 1 ≤ e
    → e < 2 ^ 32
    → y * (e - 1) + x < 2 ^ 64
    → Mean y x ((y * (e - 1) + x) % 2 ^ 64 / (e % 2 ^ 32))
quotient-Mean zero y x h i f = absurd (omega arith)
quotient-Mean (suc n) y x h i f =
    let e : suc n - 1 ≡ n = omega arith in
    let w : suc n % 2 ^ 32 ≡ suc n = omega arith in
    let p : (y * n + x) % 2 ^ 64 ≡ y * n + x = mod-eq_of_lt (rw e at f) in
    rw (e, w, p) (weighted_above n y x, weighted_below n y x)

quotient_zero : (y d : ℕ) → 0 < d → y / d ≡ 0 → y < d
quotient_zero y d h e =
    let less = (div-lt_iff_lt-mul {k = d} {x = y} {y = 1} h).0 (omega arith) in omega arith

-- The powers of two of one shift
split_63 : ℕ → Bool
split_63 k = 2 ^ (63 - k) * 2 ^ k == 2 ^ 63

all_split_63 : checked 32 0 split_63 ≡ true
unfolding checked split_63
all_split_63 = refl

split_63_lem : (k : ℕ) → k ≤ 31 → 2 ^ (63 - k) * 2 ^ k ≡ 2 ^ 63
unfolding split_63
split_63_lem k h =
    (==_iff (2 ^ (63 - k) * 2 ^ k) (2 ^ 63)).0
      (checked_at 32 0 split_63 all_split_63 k (omega arith) (omega arith))

-- The weighted sum fits a word.
weighted_fits :
    (s : ℕ) (f : AvgFltr)
    → s ≤ 31
    → f.y < 2 ^ 61
    → (next_s_exp s f < 2 ^ 32) × (f.y * (next_s_exp s f - 1) ≤ 2 ^ 63)
unfolding next_s_exp
weighted_fits s f h i =
    let k = limit_shift s f.y in
    let le = limit_shift-le s f.y in
    let one = one_more (2 ^ k) f.s_exp (pow_pos k) in
    let mono = pow_mono k 31 (omega arith) in
    let fits = limit_shift-fits s f.y (omega arith) in
    let below : f.y < 2 ^ (63 - k) = quotient_zero f.y (2 ^ (63 - k)) (pow_pos (63 - k)) fits in
    let split = split_63_lem k (omega arith) in
    (
      omega arith,
      rw split at
          (product_le f.y (next_s_exp s f - 1) (2 ^ (63 - k)) (2 ^ k) (omega arith) (omega arith)),
    )

trimmed_bounds :
    (f : AvgFltr) (delay : ℤ)
    → (is_neg delay ≡ true → trimmed f delay ≡ f.y)
      × (is_neg delay ≡ false → pos_part delay ≤ 3 * f.y → trimmed f delay ≡ pos_part delay)
      × (3 * f.y < pos_part delay → trimmed f delay ≡ f.y * 2 + f.s_exp + 1)
      × (trimmed f delay ≤ 3 * f.y + f.s_exp + 1)
unfolding trimmed
trimmed_bounds f (pos n) = (λ e. cc, λ e h. ground arith, λ h. ground arith, ground arith)
trimmed_bounds f (negsuc n) = (λ e. ground arith, λ e h. cc, λ h. ground arith, ground arith)

not_first : (f : AvgFltr) → 1 ≤ f.s_exp → ltb f.s_exp 1 ≡ false
not_first f h = ground arith

same-Mean : (y x r : ℕ) → Mean y x r → x ≡ y → r ≡ y
same-Mean y x r m e = let both = m.0 (omega arith) in omega arith

subst-Mean : (y x z r : ℕ) → Mean y x r → x ≡ z → Mean y z r
subst-Mean y x z r m e = subst (λ v. Mean y v r) e m

Mean-over : (y x z r : ℕ) → Mean y x r → x ≡ z → y ≤ z → (y ≤ r) × (r ≤ z)
Mean-over y x z r m e h = let both = m.0 (omega arith) in omega arith

le_or_lt : (a b : ℕ) → (a ≤ b) ⊎ (b < a)
le_or_lt a b = elim (Bool-cases (leb a b)) [
  | inl h ↦ inl (ground arith)
  | inr h ↦ inr (ground arith)
]

abbrev pub Between : (y x r : ℕ) → Type 0
Between y x r = ((y ≤ r) × (r ≤ x)) ⊎ ((x ≤ r) × (r ≤ y))

between_lem : (y x r : ℕ) → Mean y x r → Between y x r
between_lem y x r m = elim (le_or_lt y x) [ inl h ↦ inl (m.0 h) | inr h ↦ inr (m.1 (omega arith)) ]

-- What one delay does to the average: a negative one nothing; one of at most three times the average
-- moves it to a value between the two; a longer one makes it at most twice the average, the stiffness
-- and 1, and no smaller.
abbrev pub Moved : AvgFltr → ℤ → AvgFltr → Type 0
Moved f delay f' =
    ((is_neg delay ≡ true) × (f'.y ≡ f.y))
    ⊎ (((is_neg delay ≡ false) × (pos_part delay ≤ 3 * f.y) × Between f.y (pos_part delay) f'.y)
        ⊎ ((3 * f.y < pos_part delay) × (f.y ≤ f'.y) × (f'.y ≤ f.y * 2 + f'.s_exp + 1)))

-- For an average below 2^61 that is not the first, and an option `s` of at most 31, the stiffness stays
-- between 1 and 2^s. A negative delay leaves the average alone, one of at most three times the average
-- moves it to a value between the two, and a longer one makes it no smaller, and at most twice the
-- average, the stiffness and 1.
pub average_bounds :
    (s : ℕ) (f : AvgFltr) (delay : ℤ)
    → s ≤ 31
    → f.y < 2 ^ 61
    → 1 ≤ f.s_exp
    → (1 ≤ (average s f delay).s_exp)
      × ((average s f delay).s_exp ≤ 2 ^ s)
      × Moved f delay (average s f delay)
unfolding average first_average
average_bounds s f delay h i warm =
    let g = record f { s_exp = next_s_exp s f } in
    let (low, high) = next_s_exp_bounds s f in
    let (word, weighted) = weighted_fits s f h i in
    let (kept, taken, cut, most) = trimmed_bounds g delay in
    let x = trimmed g delay in
    let mean : Mean f.y x ((f.y * (g.s_exp - 1) + x) % 2 ^ 64 / (g.s_exp % 2 ^ 32)) =
      quotient-Mean g.s_exp f.y x low word (omega arith) in
    rw (not_first f warm) (
      low,
      high,
      elim (Bool-cases (is_neg delay)) [
        | inl neg ↦ inl (neg, same-Mean f.y x _ mean (kept neg))
        | inr nonneg ↦ inr (elim (le_or_lt (pos_part delay) (3 * f.y)) [
          | inl small ↦
              let m = subst-Mean f.y x (pos_part delay) _ mean (taken nonneg small) in
              inl (nonneg, small, between_lem f.y (pos_part delay) _ m)
          | inr big ↦
              let over = Mean-over f.y x (f.y * 2 + g.s_exp + 1) _ mean (cut big) (omega arith) in
              inr (big, over.0, over.1)
        ])
      ],
    )
