-- ===== src/Time/Sums.antt =====
-- pp_time_add, pp_time_sub and pp_time_div2 of lib/time-arith.c: sums, differences and halves.
use ppsi.Ds.{PpTime}
use ppsi.Prelude.{
  +ℤ_parts, -ℤ_parts, ap, arith, false, if_case, inl, inr, neg_part, negsuc, pos, pos_part, refl,
  true, ℤ, ◌*◌, ◌+ℤ◌, ◌+◌, ◌-ℤ◌, ◌/◌, ◌<◌, ◌^◌, ◌≡◌, ◌≤◌, ◌⊎◌,
}
use ppsi.Time.Arith.{
  half_second, is_odd, pp_time_add, pp_time_div2, pp_time_sub, shift_down, sns_per_s,
}
use ppsi.Time.Loops.{against_it, for_it}
use ppsi.Time.Normal.{IsNormal, SecondsLead, normalize-IsNormal, normalize-SameTime}

-- Seconds of less than 60 bits.
abbrev pub IsSmall : PpTime → Type 0
IsSmall t = (pos_part t.secs < 2 ^ 60) × (neg_part t.secs < 2 ^ 60)

add-HasTime :
    (a b : ℤ)
    → (pos_part a < 2 ^ 60) × (neg_part a < 2 ^ 60)
    → (pos_part b < 2 ^ 60) × (neg_part b < 2 ^ 60)
    → (pos_part (a +ℤ b) < 2 ^ 61) × (neg_part (a +ℤ b) ≤ 2 ^ 61)
unfolding ◌+ℤ◌
add-HasTime a b ha hb = (ground arith, ground arith)

-- Of a sum, at most one part is left.
one_part : (a : ℤ) → (pos_part a ≡ 0) ⊎ (neg_part a ≡ 0)
one_part (pos n) = inr refl
one_part (negsuc n) = inl refl

add-SecondsLead :
    (a b : PpTime)
    → IsNormal a
    → IsNormal b
    → SecondsLead
        (record { secs = a.secs +ℤ b.secs; scaled_nsecs = a.scaled_nsecs +ℤ b.scaled_nsecs })
add-SecondsLead a b na nb =
    let s = +ℤ_parts a.secs b.secs in
    let n = +ℤ_parts a.scaled_nsecs b.scaled_nsecs in
    let one = one_part (a.secs +ℤ b.secs) in
    let rest = one_part (a.scaled_nsecs +ℤ b.scaled_nsecs) in (omega arith, omega arith)

-- The first time is the sum of the others.
abbrev pub IsSum : PpTime → PpTime → PpTime → Type 0
IsSum r a b = for_it r + (against_it a + against_it b) ≡ against_it r + (for_it a + for_it b)

-- Adding two times whose seconds and rests have one sign each, with rests of at most a second and
-- seconds of less than 60 bits, gives their sum, again with one sign and a rest of at most a second.
pub pp_time_add-IsSum :
    (a b : PpTime)
    → IsNormal a
    → IsNormal b
    → IsSmall a
    → IsSmall b
    → IsNormal (pp_time_add a b) × IsSum (pp_time_add a b) a b
unfolding pp_time_add
pp_time_add-IsSum a b na nb sa sb =
    let s = +ℤ_parts a.secs b.secs in
    let n = +ℤ_parts a.scaled_nsecs b.scaled_nsecs in
    let t : PpTime = record {
      secs = a.secs +ℤ b.secs;
      scaled_nsecs = a.scaled_nsecs +ℤ b.scaled_nsecs;
    } in
    let same = normalize-SameTime t in
    (
      normalize-IsNormal t (add-HasTime a.secs b.secs sa sb) (add-SecondsLead a b na nb),
      omega arith,
    )

sub-HasTime :
    (a b : ℤ)
    → (pos_part a < 2 ^ 60) × (neg_part a < 2 ^ 60)
    → (pos_part b < 2 ^ 60) × (neg_part b < 2 ^ 60)
    → (pos_part (a -ℤ b) < 2 ^ 61) × (neg_part (a -ℤ b) ≤ 2 ^ 61)
unfolding ◌-ℤ◌
sub-HasTime a b ha hb = (ground arith, ground arith)

sub-SecondsLead :
    (a b : PpTime)
    → IsNormal a
    → IsNormal b
    → SecondsLead
        (record { secs = a.secs -ℤ b.secs; scaled_nsecs = a.scaled_nsecs -ℤ b.scaled_nsecs })
sub-SecondsLead a b na nb =
    let s = -ℤ_parts a.secs b.secs in
    let n = -ℤ_parts a.scaled_nsecs b.scaled_nsecs in
    let one = one_part (a.secs -ℤ b.secs) in
    let rest = one_part (a.scaled_nsecs -ℤ b.scaled_nsecs) in (omega arith, omega arith)

-- Subtracting times whose seconds and rests have one sign each, with rests of at most a second and
-- seconds of less than 60 bits, gives their difference, again with one sign and a rest of at most a second.
pub pp_time_sub-IsSum :
    (a b : PpTime)
    → IsNormal a
    → IsNormal b
    → IsSmall a
    → IsSmall b
    → IsNormal (pp_time_sub a b) × IsSum a (pp_time_sub a b) b
unfolding pp_time_sub
pp_time_sub-IsSum a b na nb sa sb =
    let s = -ℤ_parts a.secs b.secs in
    let n = -ℤ_parts a.scaled_nsecs b.scaled_nsecs in
    let t : PpTime = record {
      secs = a.secs -ℤ b.secs;
      scaled_nsecs = a.scaled_nsecs -ℤ b.scaled_nsecs;
    } in
    let same = normalize-SameTime t in
    (
      normalize-IsNormal t (sub-HasTime a.secs b.secs sa sb) (sub-SecondsLead a b na nb),
      omega arith,
    )

-- A rest and its half: what the shift drops is 0 or 1.
half_rest :
    (n : ℤ)
    → (pos_part n + 2 * neg_part (shift_down n) ≡ 2 * pos_part (shift_down n) + neg_part n)
      ⊎ (pos_part n + 2 * neg_part (shift_down n) ≡ 2 * pos_part (shift_down n) + neg_part n + 1)
unfolding shift_down
half_rest (pos n) = ground arith
half_rest (negsuc n) = ground arith

odd_secs :
    (s : ℤ)
    → neg_part s ≡ 0
    → is_odd s ≡ true
    → (pos_part s ≡ 2 * pos_part (shift_down s) + 1)
      × (neg_part (shift_down s) ≡ 0)
      × (half_second s ≡ pos (sns_per_s / 2))
unfolding is_odd shift_down
odd_secs (pos n) z h = (ground arith, refl, refl)
odd_secs (negsuc n) z h = (omega arith, omega arith, ground arith)

even_secs :
    (s : ℤ)
    → neg_part s ≡ 0
    → is_odd s ≡ false
    → (pos_part s ≡ 2 * pos_part (shift_down s)) × (neg_part (shift_down s) ≡ 0)
unfolding is_odd shift_down
even_secs (pos n) z h = (ground arith, refl)
even_secs (negsuc n) z h = omega arith

-- The second time is half of the first, rounded down.
abbrev pub IsHalf : PpTime → PpTime → Type 0
IsHalf t h = IsSum t h h ⊎ (for_it t + 2 * against_it h ≡ 2 * for_it h + against_it t + 1)

-- Half of a time with seconds that are not negative, doubled, is that time, less 1 when its rest
-- in units of 2^-16 nanoseconds is odd.
pub pp_time_div2-IsHalf : (t : PpTime) → neg_part t.secs ≡ 0 → IsHalf t (pp_time_div2 t)
unfolding pp_time_div2
pp_time_div2-IsHalf t z =
    let rest = half_rest t.scaled_nsecs in
    let n = +ℤ_parts (shift_down t.scaled_nsecs) (pos (sns_per_s / 2)) in
    if_case (is_odd t.secs)
      (λ (r : ℤ). IsHalf t (record { secs = shift_down t.secs; scaled_nsecs = r }))
      (λ odd.
        let s = odd_secs t.secs z odd in
        let e = ap (λ h. shift_down t.scaled_nsecs +ℤ h) s.2 in
        let p = ap pos_part e in
        let q = ap neg_part e in
        elim rest [ inl even ↦ inl (omega arith) | inr drop ↦ inr (omega arith) ])
      (λ other.
        let s = even_secs t.secs z other in
        elim rest [ inl even ↦ inl (omega arith) | inr drop ↦ inr (omega arith) ])
