-- ===== src/Time/Picos.antt =====
-- Round trips of the conversions in lib/time-arith.c.
use ppsi.Prelude.{
  Bool-cases, arith, false, if◌then◌else◌, inl, inr, is_neg, is_zero, leb, neg_part, neg_ℤ, negsuc,
  of_word, pos, pos_part, refl, suc, to_word, true, zero, ℕ, ℤ, ◌%◌, ◌&&◌, ◌*ℤ◌, ◌*◌, ◌+ℤ◌, ◌+◌,
  ◌-◌, ◌/◌, ◌<◌, ◌==◌, ◌^◌, ◌||◌, ◌≡◌, ◌≤◌,
}
use ppsi.Time.Arith.{flip}
use ppsi.Time.Convert.{
  interval_to_picos, magnitude, max_picos, min_picos, nsec_per_sec, picos_to_interval,
  picos_to_pp_time, picos_word, pp_time_to_picos, psec_per_sec, rounding_value, scaled, signed_like,
}

scaled_back :
    (u : ℕ)
    → u < 2 ^ 46
    → ((scaled u * 1000 + rounding_value) % 2 ^ 64 / 2 ^ 16 ≡ u)
      × (u < min_picos)
      × (u < max_picos)
      × (0 < u → 0 < scaled u)
unfolding scaled
scaled_back u h = (omega arith, omega arith, omega arith, λ e. omega arith)

not_leb : (a b : ℕ) → b < a → leb a b ≡ false
not_leb a b h = ground arith

negative_part : (z : ℤ) → magnitude z < 2 ^ 46 → neg_part z ≤ magnitude z
negative_part z h = omega arith

picos_to_interval_small :
    (z : ℤ) → magnitude z < 2 ^ 46 → picos_to_interval z ≡ signed_like z (scaled (magnitude z))
unfolding picos_to_interval
picos_to_interval_small z h =
    let back = scaled_back (magnitude z) h in
    rw (not_leb min_picos (neg_part z) (omega arith), not_leb max_picos (pos_part z) (omega arith))

-- The sign is kept, and so is the amount.
pub signed_like_lem :
    (z : ℤ) (m : ℕ)
    → (0 < neg_part z → 0 < m)
    → (magnitude (signed_like z m) ≡ m) × (is_neg (signed_like z m) ≡ is_neg z)
signed_like_lem (pos n) m h = (omega arith, refl)
signed_like_lem (negsuc n) zero h = absurd (omega arith)
signed_like_lem (negsuc n) (suc m) h = (ground arith, ground arith)

pub signed_like_self : (z y : ℤ) → is_neg y ≡ is_neg z → signed_like y (magnitude z) ≡ z
signed_like_self z y e = ground arith

-- Below 2^46 picoseconds, an interval tells the picoseconds that it was made from.
pub interval_to_picos-picos_to_interval :
    (picos : ℤ) → magnitude picos < 2 ^ 46 → interval_to_picos (picos_to_interval picos) ≡ picos
unfolding interval_to_picos
interval_to_picos-picos_to_interval picos h =
    let (back, low, high, more) = scaled_back (magnitude picos) h in
    let (amount, sign) =
      signed_like_lem picos (scaled (magnitude picos)) (λ e. more (omega arith)) in
    rw (picos_to_interval_small picos h) (rw (amount, back) (signed_like_self picos _ sign))

pos_times : (a b : ℕ) → pos a *ℤ pos b ≡ pos (a * b)
unfolding ◌*ℤ◌
pos_times a b = ground arith

pos_plus : (a b : ℕ) → pos a +ℤ pos b ≡ pos (a + b)
unfolding ◌+ℤ◌
pos_plus a b = ground arith

-- The picoseconds of a time that is not negative.
picos_word-pos :
    (s n : ℕ)
    → n < 2 ^ 47
    → s * psec_per_sec + (n * 1000 + rounding_value) / 2 ^ 16 < 2 ^ 63
    → picos_word (record { secs = pos s; scaled_nsecs = pos n })
      ≡ s * psec_per_sec + (n * 1000 + rounding_value) / 2 ^ 16
unfolding picos_word to_word
picos_word-pos s n small h =
    rw (pos_times s psec_per_sec, pos_times n 1000, pos_plus (n * 1000) rounding_value)
      (omega arith)

-- picos_to_pp_time rounds by half of 2^16 where it should be half of 1000, so that one in 125 values
-- comes back larger by 1.
abbrev pub rounded_up : ℕ → ℕ
rounded_up u = if u % 125 == 62 then u + 1 else u

abbrev nsecs_of : ℕ → ℕ
nsecs_of u = u / 1000 % nsec_per_sec * 2 ^ 16 + (u % 1000 * 2 ^ 16 + rounding_value) / 1000

nsecs_back :
    (u : ℕ)
    → u / 1000 / nsec_per_sec * psec_per_sec + (nsecs_of u * 1000 + rounding_value) / 2 ^ 16
      ≡ rounded_up u
nsecs_back u = ground arith

-- Flipping the sign of a time that is not zero and has one sign.
flip_back :
    (z : ℤ) (s n : ℕ)
    → is_neg z ≡ true
    → flip (record { secs = signed_like z s; scaled_nsecs = signed_like z n })
      ≡ record { secs = pos s; scaled_nsecs = pos n }
unfolding flip
flip_back z s n e = ground arith

tells_sign :
    (z : ℤ) (s n : ℕ)
    → 0 < n
    → (is_neg (signed_like z s) || (is_zero (signed_like z s) && is_neg (signed_like z n)))
      ≡ is_neg z
tells_sign z s n h = ground arith

negated_word : (w : ℕ) → 0 < w → w < 2 ^ 63 → of_word 64 ((2 ^ 64 - w) % 2 ^ 64) ≡ neg_ℤ (pos w)
unfolding of_word
negated_word w h i = ground arith

plain_word : (w : ℕ) → w < 2 ^ 63 → of_word 64 w ≡ pos w
unfolding of_word
plain_word w h = ground arith

up_pos : (u : ℕ) → 0 < u → 0 < rounded_up u
up_pos u h = ground arith

negative_pos : (z : ℤ) → is_neg z ≡ true → 0 < magnitude z
negative_pos z h = ground arith

-- The time made from less than 2^62 picoseconds tells them again, or 1 more when they leave 62 on
-- division by 125; the sign is kept.
pub pp_time_to_picos-picos_to_pp_time :
    (picos : ℤ)
    → magnitude picos < 2 ^ 62
    → pp_time_to_picos (picos_to_pp_time picos) ≡ signed_like picos (rounded_up (magnitude picos))
unfolding pp_time_to_picos picos_to_pp_time
pp_time_to_picos-picos_to_pp_time picos h =
    let u = magnitude picos in
    let s = u / 1000 / nsec_per_sec in
    let n = nsecs_of u in
    let back = nsecs_back u in
    let small : rounded_up u < 2 ^ 63 = ground arith in
    let word = picos_word-pos s n (omega arith) (omega arith) in
    rw (tells_sign picos s n (omega arith)) (elim (Bool-cases (is_neg picos)) [
      | inl neg ↦
          rw (flip_back picos s n neg, neg, word, back)
            (negated_word (rounded_up u) (up_pos u (negative_pos picos neg)) small)
      | inr nonneg ↦ rw (nonneg, word, back) (plain_word (rounded_up u) small)
    ])
