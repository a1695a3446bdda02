-- ===== src/Time/Loops.antt =====
-- The loops of normalize_pp_time (lib/time-arith.c).
use ppsi.Ds.{PpTime}
use ppsi.Prelude.{
  +ℤ_parts, -ℤ_parts, ap, arith, false, if_case, inl, inr, is_neg, ltb_ℤ, neg_part, negsuc, pos,
  pos_part, refl, suc, true, zero, ℕ, ℤ, ◌*◌, ◌+ℤ◌, ◌+◌, ◌-ℤ◌, ◌-◌, ◌<◌, ◌≡◌, ◌≤◌, ◌⊎◌,
}
use ppsi.Time.Arith.{lower_loop, raise_loop, sns_per_s}

-- The whole time, in nanoseconds * 2^16: what is counted for it, less what is counted against it.
abbrev pub for_it : PpTime → ℕ
for_it t = pos_part t.secs * sns_per_s + pos_part t.scaled_nsecs

abbrev pub against_it : PpTime → ℕ
against_it t = neg_part t.secs * sns_per_s + neg_part t.scaled_nsecs

abbrev pub SameTime : PpTime → PpTime → Type 0
SameTime a b = for_it a + against_it b ≡ for_it b + against_it a

-- The first loop leaves no negative rest, and less than a second if it took a step.
abbrev pub Raised : PpTime → PpTime → Type 0
Raised t r =
    (neg_part r.scaled_nsecs ≡ 0)
    × SameTime r t
    × (neg_part t.scaled_nsecs ≡ 0 → r ≡ t)
    × (0 < neg_part t.scaled_nsecs → pos_part r.scaled_nsecs < sns_per_s)

-- A negative rest after a second is added
raised_rest :
    (n : ℤ)
    → 0 < neg_part n
    → (neg_part (n +ℤ pos sns_per_s) ≡ neg_part n - sns_per_s)
      × (pos_part (n +ℤ pos sns_per_s) ≡ sns_per_s - neg_part n)
      × (pos_part n ≡ 0)
unfolding ◌+ℤ◌
raised_rest (pos n) h = omega arith
raised_rest (negsuc n) h = (ground arith, ground arith, refl)

abbrev raised : PpTime → PpTime
raised t = record { secs = t.secs -ℤ pos 1; scaled_nsecs = t.scaled_nsecs +ℤ pos sns_per_s }

raised-SameTime : (t : PpTime) → 0 < neg_part t.scaled_nsecs → SameTime (raised t) t
raised-SameTime t h =
    let s = -ℤ_parts t.secs (pos 1) in
    let n = +ℤ_parts t.scaled_nsecs (pos sns_per_s) in omega arith

chain-SameTime : (a b c : PpTime) → SameTime a b → SameTime b c → SameTime a c
chain-SameTime a b c h i = omega arith

pub zero_or_more : (n : ℕ) → (n ≡ 0) ⊎ (0 < n)
zero_or_more zero = inl refl
zero_or_more (suc n) = inr (omega arith)

-- After a step: the steps that follow change nothing, or end below a second as well.
raise_more :
    (t r : PpTime)
    → 0 < neg_part t.scaled_nsecs
    → Raised (raised t) r
    → pos_part r.scaled_nsecs < sns_per_s
raise_more t r h (zero_left, same, stop, less) =
    let rest = raised_rest t.scaled_nsecs h in
    elim (zero_or_more (neg_part (raised t).scaled_nsecs)) [
      | inl none_left ↦
          let e = ap (λ (q : PpTime). pos_part q.scaled_nsecs) (stop none_left) in omega arith
      | inr some_left ↦ less some_left
    ]

neg_part-of : (n : ℤ) → is_neg n ≡ true → 0 < neg_part n
neg_part-of n h = ground arith

no_neg_part : (n : ℤ) → is_neg n ≡ false → neg_part n ≡ 0
no_neg_part n h = ground arith

not_zero : {A : Type 0} {n : ℕ} → 0 < n → n ≡ 0 → A
not_zero h e = ground arith

pub raise_loop_lem :
    (k : ℕ) (t : PpTime) → neg_part t.scaled_nsecs ≤ k * sns_per_s → Raised t (raise_loop k t)
unfolding raise_loop
raise_loop_lem zero t h = (omega arith, omega arith, λ e. refl, λ e. omega arith)
raise_loop_lem (suc k) t h =
    if_case (is_neg t.scaled_nsecs) (Raised t)
      (λ neg.
        let more = neg_part-of t.scaled_nsecs neg in
        let rest = raised_rest t.scaled_nsecs more in
        let ih = raise_loop_lem k (raised t) (omega arith) in
        (
          ih.0,
          chain-SameTime (raise_loop k (raised t)) (raised t) t ih.1 (raised-SameTime t more),
          λ e. not_zero more e,
          λ e. raise_more t (raise_loop k (raised t)) more ih,
        ))
      (λ done.
        let none_left = no_neg_part t.scaled_nsecs done in
        (none_left, refl, λ e. refl, λ e. omega arith))

-- The second loop leaves at most a second, and takes away nothing from a rest within it.
abbrev pub Lowered : PpTime → PpTime → Type 0
Lowered t r =
    (neg_part r.scaled_nsecs ≡ 0)
    × (pos_part r.scaled_nsecs ≤ sns_per_s)
    × SameTime r t
    × (neg_part t.secs ≡ 0 → neg_part r.secs ≡ 0)

-- A rest of more than a second after a second is taken away
lowered_rest :
    (n : ℤ)
    → sns_per_s < pos_part n
    → (neg_part (n -ℤ pos sns_per_s) ≡ 0) × (pos_part (n -ℤ pos sns_per_s) ≡ pos_part n - sns_per_s)
unfolding ◌-ℤ◌
lowered_rest (pos n) h = (ground arith, ground arith)
lowered_rest (negsuc n) h = omega arith

abbrev lowered : PpTime → PpTime
lowered t = record { secs = t.secs +ℤ pos 1; scaled_nsecs = t.scaled_nsecs -ℤ pos sns_per_s }

lowered-SameTime : (t : PpTime) → SameTime (lowered t) t
lowered-SameTime t =
    let s = +ℤ_parts t.secs (pos 1) in
    let n = -ℤ_parts t.scaled_nsecs (pos sns_per_s) in omega arith

next_second : (s : ℤ) → neg_part s ≡ 0 → neg_part (s +ℤ pos 1) ≡ 0
unfolding ◌+ℤ◌
next_second s h = ground arith

over_second : (n : ℤ) → ltb_ℤ (pos sns_per_s) n ≡ true → sns_per_s < pos_part n
over_second n h = ground arith

within_second : (n : ℤ) → ltb_ℤ (pos sns_per_s) n ≡ false → pos_part n ≤ sns_per_s
within_second n h = ground arith

pub lower_loop_lem :
    (k : ℕ) (t : PpTime)
    → neg_part t.scaled_nsecs ≡ 0
    → pos_part t.scaled_nsecs ≤ (k + 1) * sns_per_s
    → Lowered t (lower_loop k t)
unfolding lower_loop
lower_loop_lem zero t z h = (z, omega arith, refl, λ e. e)
lower_loop_lem (suc k) t z h =
    if_case (ltb_ℤ (pos sns_per_s) t.scaled_nsecs) (Lowered t)
      (λ more.
        let rest = lowered_rest t.scaled_nsecs (over_second t.scaled_nsecs more) in
        let ih = lower_loop_lem k (lowered t) rest.0 (omega arith) in
        (
          ih.0,
          ih.1,
          chain-SameTime (lower_loop k (lowered t)) (lowered t) t ih.2 (lowered-SameTime t),
          λ e. ih.3 (next_second t.secs e),
        ))
      (λ done. (z, within_second t.scaled_nsecs done, refl, λ e. e))
