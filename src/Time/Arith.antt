-- ===== src/Time/Arith.antt =====
-- Normalising, adding, subtracting and halving times (lib/time-arith.c), with is_incorrect of
-- include/ppsi/pp-time.h. The seconds and nanoseconds are integers without a bound.
use ppsi.Ds.{PpTime}
use ppsi.Prelude.{
  Bool, if◌then◌else◌, is_neg, is_zero, ltb_ℤ, neg_part, neg_ℤ, negsuc, not, pos, pos_part, suc,
  to_word, zero, ℕ, ℤ, ◌%◌, ◌&&◌, ◌+ℤ◌, ◌+◌, ◌-ℤ◌, ◌/◌, ◌==◌, ◌^◌, ◌||◌,
}

-- SNS_PER_S: a second, in nanoseconds * 2^16
abbrev pub sns_per_s : ℕ
sns_per_s = 65536000000000

-- The "correct" bit is hidden in the high bits of the seconds.
unfoldable pub is_incorrect : PpTime → Bool
is_incorrect t = to_word 64 t.secs / 2 ^ 62 == 2

-- while (scaled_nsecs < 0)
unfoldable pub raise_loop : ℕ → PpTime → PpTime
raise_loop zero t = t
raise_loop (suc k) t =
    let rest =
      raise_loop k
        (record { secs = t.secs -ℤ pos 1; scaled_nsecs = t.scaled_nsecs +ℤ pos sns_per_s }) in
    if is_neg t.scaled_nsecs then rest else t

-- while (scaled_nsecs > SNS_PER_S)
unfoldable pub lower_loop : ℕ → PpTime → PpTime
lower_loop zero t = t
lower_loop (suc k) t =
    let rest =
      lower_loop k
        (record { secs = t.secs +ℤ pos 1; scaled_nsecs = t.scaled_nsecs -ℤ pos sns_per_s }) in
    if ltb_ℤ (pos sns_per_s) t.scaled_nsecs then rest else t

unfoldable pub run_loops : PpTime → PpTime
run_loops t =
    let raised = raise_loop (neg_part t.scaled_nsecs / sns_per_s + 1) t in
    lower_loop (pos_part raised.scaled_nsecs / sns_per_s) raised

-- The product with the sign -1
unfoldable pub flip : PpTime → PpTime
flip t = record { secs = neg_ℤ t.secs; scaled_nsecs = neg_ℤ t.scaled_nsecs }

-- Does the sign count as -1?
unfoldable pub is_negative : PpTime → Bool
is_negative t = (is_neg t.secs && not (is_incorrect t)) || (is_zero t.secs && is_neg t.scaled_nsecs)

unfoldable pub normalize_pp_time : PpTime → PpTime
normalize_pp_time t = if is_negative t then flip (run_loops (flip t)) else run_loops t

unfoldable pub pp_time_add : PpTime → PpTime → PpTime
pp_time_add a b =
    normalize_pp_time
      (record { secs = a.secs +ℤ b.secs; scaled_nsecs = a.scaled_nsecs +ℤ b.scaled_nsecs })

unfoldable pub pp_time_sub : PpTime → PpTime → PpTime
pp_time_sub a b =
    normalize_pp_time
      (record { secs = a.secs -ℤ b.secs; scaled_nsecs = a.scaled_nsecs -ℤ b.scaled_nsecs })

unfoldable pub pp_time_add_interval : PpTime → ℤ → PpTime
pp_time_add_interval t interval =
    pp_time_add t (normalize_pp_time (record { secs = pos 0; scaled_nsecs = interval }))

unfoldable pub pp_time_sub_interval : PpTime → ℤ → PpTime
pp_time_sub_interval t interval =
    pp_time_sub t (normalize_pp_time (record { secs = pos 0; scaled_nsecs = interval }))

-- `z >> 1` and `z & 1` in two's complement
unfoldable pub shift_down : ℤ → ℤ
shift_down (pos n) = pos (n / 2)
shift_down (negsuc n) = negsuc (n / 2)

unfoldable pub is_odd : ℤ → Bool
is_odd (pos n) = n % 2 == 1
is_odd (negsuc n) = n % 2 == 0

abbrev pub half_second : ℤ → ℤ
half_second s = if is_neg s then neg_ℤ (pos (sns_per_s / 2)) else pos (sns_per_s / 2)

unfoldable pub pp_time_div2 : PpTime → PpTime
pp_time_div2 t =
    let rest = shift_down t.scaled_nsecs in
    record {
      secs = shift_down t.secs;
      scaled_nsecs = if is_odd t.secs then rest +ℤ half_second t.secs else rest;
    }
