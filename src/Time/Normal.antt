-- ===== src/Time/Normal.antt =====
-- normalize_pp_time of lib/time-arith.c: the fuel of its loops, the time that it tells and its form.
use ppsi.Ds.{PpTime}
use ppsi.Prelude.{
  Bool, ap, arith, false, if_case, if_either, inl, inr, is_neg, is_zero, neg_part, negsuc, not, pos,
  pos_part, refl, suc, to_word, true, zero, ℕ, ℤ, ◌%◌, ◌&&◌, ◌*◌, ◌+◌, ◌-◌, ◌/◌, ◌<◌, ◌==◌, ◌^◌,
  ◌||◌, ◌∙◌, ◌≡◌, ◌≤◌, ◌⊎◌,
}
use ppsi.Time.Arith.{
  flip, is_incorrect, is_negative, normalize_pp_time, raise_loop, run_loops, sns_per_s,
}
use ppsi.Time.Loops.{
  Lowered, Raised, SameTime, against_it, for_it, lower_loop_lem, raise_loop_lem, zero_or_more,
}

-- The first loop's fuel is enough, and the second one's.
run_loops_lem : (t : PpTime) → (r : PpTime) × Raised t r × Lowered r (run_loops t)
unfolding run_loops
run_loops_lem t =
    let n = neg_part t.scaled_nsecs in
    let r = raise_loop (n / sns_per_s + 1) t in
    let up = raise_loop_lem (n / sns_per_s + 1) t (omega arith) in
    (r, up, lower_loop_lem (pos_part r.scaled_nsecs / sns_per_s) r up.0 (omega arith))

-- The seconds and the rest are not negative, and the rest is at most a second.
abbrev pub IsPositive : PpTime → Type 0
IsPositive t =
    (neg_part t.secs ≡ 0) × (neg_part t.scaled_nsecs ≡ 0) × (pos_part t.scaled_nsecs ≤ sns_per_s)

abbrev pub IsNegative : PpTime → Type 0
IsNegative t =
    (pos_part t.secs ≡ 0) × (pos_part t.scaled_nsecs ≡ 0) × (neg_part t.scaled_nsecs ≤ sns_per_s)

-- Seconds and rest have one sign, and the rest is at most a second.
abbrev pub IsNormal : PpTime → Type 0
IsNormal t = IsPositive t ⊎ IsNegative t

run_loops-SameTime : (t : PpTime) → SameTime (run_loops t) t
run_loops-SameTime t = let (r, up, down) = run_loops_lem t in omega arith

no_second_missing :
    (s : ℤ) (rest : ℕ)
    → neg_part s * sns_per_s ≤ pos_part s * sns_per_s + rest
    → rest < sns_per_s
    → neg_part s ≡ 0
no_second_missing (pos n) rest h i = refl
no_second_missing (negsuc n) rest h i = omega arith

secs_stay :
    (t r : PpTime)
    → neg_part t.secs ≡ 0
    → against_it t ≤ for_it t
    → Raised t r
    → neg_part r.secs ≡ 0
secs_stay t r h i (z, same, stop, less) = elim (zero_or_more (neg_part t.scaled_nsecs)) [
  | inl none_left ↦ ap (λ (q : PpTime). neg_part q.secs) (stop none_left) ∙ h
  | inr some_left ↦
      let small = less some_left in
      no_second_missing r.secs (pos_part r.scaled_nsecs) (omega arith) small
]

run_loops-IsPositive :
    (t : PpTime) → neg_part t.secs ≡ 0 → against_it t ≤ for_it t → IsPositive (run_loops t)
run_loops-IsPositive t h i =
    let (r, up, down) = run_loops_lem t in (down.3 (secs_stay t r h i up), down.0, down.1)

flip-parts :
    (t : PpTime)
    → (pos_part (flip t).secs ≡ neg_part t.secs)
      × (neg_part (flip t).secs ≡ pos_part t.secs)
      × (pos_part (flip t).scaled_nsecs ≡ neg_part t.scaled_nsecs)
      × (neg_part (flip t).scaled_nsecs ≡ pos_part t.scaled_nsecs)
unfolding flip
flip-parts t = (ground arith, ground arith, ground arith, ground arith)

pub normalize-SameTime : (t : PpTime) → SameTime (normalize_pp_time t) t
unfolding normalize_pp_time
normalize-SameTime t =
    let f = flip-parts t in
    let b = flip-parts (run_loops (flip t)) in
    let h = run_loops-SameTime (flip t) in
    if_either (is_negative t) (λ r. SameTime r t) (omega arith) (run_loops-SameTime t)

-- The seconds of a real time do not look incorrect: they take less than 62 bits.
abbrev pub HasTime : PpTime → Type 0
HasTime t = (pos_part t.secs < 2 ^ 61) × (neg_part t.secs ≤ 2 ^ 61)

-- Seconds below zero in that range do not look incorrect.
high_bits : (n : ℕ) → n < 2 ^ 61 → ((2 ^ 64 - 1 - n % 2 ^ 64) / 2 ^ 62 == 2) ≡ false
high_bits n h = ground arith

sign_below :
    (s r : ℤ) (b : Bool)
    → ((is_neg s && not b) || (is_zero s && is_neg r)) ≡ true
    → (pos_part s ≡ 0) × ((0 < neg_part s) ⊎ (pos_part s * sns_per_s + pos_part r ≡ 0))
sign_below (negsuc n) r b h = (refl, inl (omega arith))
sign_below (pos zero) (negsuc r) b h = (refl, inr refl)
sign_below (pos zero) (pos r) b h = cc
sign_below (pos (suc n)) r b h = (ground arith, ground arith)

sign_above :
    (s r : ℤ) (b : Bool)
    → ((n : ℕ) → s ≡ negsuc n → b ≡ false)
    → ((is_neg s && not b) || (is_zero s && is_neg r)) ≡ false
    → (neg_part s ≡ 0) × ((0 < pos_part s) ⊎ (neg_part s * sns_per_s + neg_part r ≡ 0))
sign_above (negsuc n) r true good h = let bad = good n refl in cc
sign_above (negsuc n) r false good h = cc
sign_above (pos zero) (negsuc r) b good h = cc
sign_above (pos zero) (pos r) b good h = (refl, inr refl)
sign_above (pos (suc n)) r b good h = (refl, inl (omega arith))

correct_below :
    (s : ℤ) → neg_part s ≤ 2 ^ 61 → (n : ℕ) → s ≡ negsuc n → (to_word 64 s / 2 ^ 62 == 2) ≡ false
unfolding to_word
correct_below (negsuc m) h n e = high_bits m h
correct_below (pos m) h n e = cc

negative_case :
    (t : PpTime)
    → is_negative t ≡ true
    → (pos_part t.secs ≡ 0) × ((0 < neg_part t.secs) ⊎ (for_it t ≡ 0))
unfolding is_negative
negative_case t h = sign_below t.secs t.scaled_nsecs (is_incorrect t) h

positive_case :
    (t : PpTime)
    → HasTime t
    → is_negative t ≡ false
    → (neg_part t.secs ≡ 0) × ((0 < pos_part t.secs) ⊎ (against_it t ≡ 0))
unfolding is_negative is_incorrect
positive_case t range h =
    sign_above t.secs t.scaled_nsecs (is_incorrect t) (correct_below t.secs range.1) h

-- The bigger part of the time decides: seconds above zero are not outweighed by the rest, and seconds
-- below zero neither.
abbrev pub SecondsLead : PpTime → Type 0
SecondsLead t =
    (0 < pos_part t.secs → against_it t ≤ for_it t)
    × (0 < neg_part t.secs → for_it t ≤ against_it t)

pub normalize-IsNormal : (t : PpTime) → HasTime t → SecondsLead t → IsNormal (normalize_pp_time t)
unfolding normalize_pp_time
normalize-IsNormal t range lead =
    if_case (is_negative t) IsNormal
      (λ neg.
        let (no_secs, sign) = negative_case t neg in
        let f = flip-parts t in
        let b = flip-parts (run_loops (flip t)) in
        let less : for_it t ≤ against_it t = elim sign [
          | inl some_secs ↦ lead.1 some_secs
          | inr none_left ↦ omega arith
        ] in
        let done = run_loops-IsPositive (flip t) (f.1 ∙ no_secs) (omega arith) in
        inr (b.0 ∙ done.0, b.2 ∙ done.1, omega arith))
      (λ other.
        let (no_secs, sign) = positive_case t range other in
        let less : against_it t ≤ for_it t = elim sign [
          | inl some_secs ↦ lead.0 some_secs
          | inr none_left ↦ omega arith
        ] in
        inl (run_loops-IsPositive t no_secs less))
