-- ===== src/States/Total.antt =====
-- Sums of three times, as the slave adds them up from messages.
use ppsi.Ds.{PpTime}
use ppsi.Prelude.{arith, inl, inr, neg_part, negsuc, pos, pos_part, ℤ, ◌+◌, ◌<◌, ◌^◌, ◌≡◌, ◌≤◌}
use ppsi.Time.Arith.{pp_time_add, sns_per_s}
use ppsi.Time.Loops.{against_it, for_it}
use ppsi.Time.Normal.{IsNormal}
use ppsi.Time.Sums.{IsSmall, IsSum, pp_time_add-IsSum}

-- The time `r` is the sum of the three others.
abbrev pub IsTotal : PpTime → PpTime → PpTime → PpTime → Type 0
IsTotal r a b c =
    for_it r + against_it a + against_it b + against_it c
    ≡ against_it r + for_it a + for_it b + for_it c

-- A correction of at most a second
abbrev pub IsCorrection : ℤ → Type 0
IsCorrection c = (pos_part c ≤ sns_per_s) × (neg_part c ≤ sns_per_s)

-- A time of origin as a message carries it
abbrev pub IsOrigin : PpTime → Type 0
IsOrigin t =
    (neg_part t.secs ≡ 0)
    × (pos_part t.secs < 2 ^ 48)
    × (neg_part t.scaled_nsecs ≡ 0)
    × (pos_part t.scaled_nsecs ≤ sns_per_s)

pub correction-IsNormal :
    (c : ℤ) → IsCorrection c → IsNormal (record { secs = pos 0; scaled_nsecs = c })
correction-IsNormal (pos n) h = inl (omega arith, omega arith, omega arith)
correction-IsNormal (negsuc n) h = inr (omega arith, omega arith, omega arith)

IsSmall-sum :
    (r t : PpTime) (a : ℤ)
    → IsNormal r
    → IsCorrection a
    → IsOrigin t
    → IsSum r (record { secs = pos 0; scaled_nsecs = a }) t
    → IsSmall r
IsSmall-sum r t a (inl n) ha ht e = (omega arith, omega arith)
IsSmall-sum r t a (inr n) ha ht e = (omega arith, omega arith)

pub origin-IsNormal : (t : PpTime) → IsOrigin t → IsNormal t
origin-IsNormal t h = inl (omega arith, omega arith, omega arith)

pub total_lem :
    (a b : ℤ) (t : PpTime)
    → IsCorrection a
    → IsCorrection b
    → IsOrigin t
    → IsTotal
        (pp_time_add
          (pp_time_add (record { secs = pos 0; scaled_nsecs = a }) t)
          (record { secs = pos 0; scaled_nsecs = b }))
        (record { secs = pos 0; scaled_nsecs = a })
        t
        (record { secs = pos 0; scaled_nsecs = b })
total_lem a b t ha hb ht =
    let first : PpTime = record { secs = pos 0; scaled_nsecs = a } in
    let last : PpTime = record { secs = pos 0; scaled_nsecs = b } in
    let (n1, s1) =
      pp_time_add-IsSum first t (correction-IsNormal a ha) (origin-IsNormal t ht)
        (omega arith, omega arith) (omega arith, omega arith) in
    let (n2, s2) =
      pp_time_add-IsSum (pp_time_add first t) last n1 (correction-IsNormal b hb)
        (IsSmall-sum (pp_time_add first t) t a n1 ha ht s1) (omega arith, omega arith) in
    omega (arith, s1, s2)
