-- ===== src/Time/Convert.antt =====
-- The conversions of lib/time-arith.c between struct pp_time, picoseconds and intervals. A division by
-- __div64_32 (lib/div64.c) is the division of natural numbers.
use ppsi.Ds.{PpTime}
use ppsi.Prelude.{
  if◌then◌else◌, is_neg, is_zero, leb, neg_part, neg_ℤ, negsuc, of_word, pos, pos_part, to_word, ℕ,
  ℤ, ◌%◌, ◌&&◌, ◌*ℤ◌, ◌*◌, ◌+ℤ◌, ◌+◌, ◌-◌, ◌/◌, ◌^◌, ◌||◌,
}
use ppsi.Time.Arith.{flip}

-- PP_PSEC_PER_SEC and PP_NSEC_PER_SEC
abbrev pub psec_per_sec : ℕ
psec_per_sec = 1000000000000

abbrev pub nsec_per_sec : ℕ
nsec_per_sec = 1000000000

-- TIME_ROUNDING_VALUE and TIME_INTERVAL_ROUNDING_VALUE
abbrev pub rounding_value : ℕ
rounding_value = 32768

abbrev pub magnitude : ℤ → ℕ
magnitude z = pos_part z + neg_part z

-- `m`, or `-m` with the sign of `z`
abbrev pub signed_like : ℤ → ℕ → ℤ
signed_like z m = if is_neg z then neg_ℤ (pos m) else pos m

-- The sum of seconds and rest in picoseconds, as a uint64_t
unfoldable pub picos_word : PpTime → ℕ
picos_word t =
    (to_word 64 (t.secs *ℤ pos psec_per_sec)
      + to_word 64 (t.scaled_nsecs *ℤ pos 1000 +ℤ pos rounding_value) / 2 ^ 16)
    % 2 ^ 64

unfoldable pub pp_time_to_picos : PpTime → ℤ
pp_time_to_picos t =
    if is_neg t.secs || (is_zero t.secs && is_neg t.scaled_nsecs)
    then of_word 64 ((2 ^ 64 - picos_word (flip t)) % 2 ^ 64)
    else of_word 64 (picos_word t)

unfoldable pub picos_to_pp_time : ℤ → PpTime
picos_to_pp_time picos =
    let u = magnitude picos in
    let ns = u / 1000 in
    let rest = ns % nsec_per_sec * 2 ^ 16 + (u % 1000 * 2 ^ 16 + rounding_value) / 1000 in
    record { secs = signed_like picos (ns / nsec_per_sec); scaled_nsecs = signed_like picos rest }

-- ((ts->secs * PP_NSEC_PER_SEC) << TIME_INTERVAL_FRACBITS) + ts->scaled_nsecs, in 64 bits
unfoldable pub pp_time_to_interval : PpTime → ℤ
pp_time_to_interval t =
    of_word 64 (to_word 64 (t.secs *ℤ pos nsec_per_sec *ℤ pos (2 ^ 16) +ℤ t.scaled_nsecs))

-- TIME_INTERVAL_MIN_PICOS_VALUE_AS_INT64, negated, and TIME_INTERVAL_MAX_PICOS_VALUE_AS_INT64
abbrev pub min_picos : ℕ
min_picos = 0x1f4000000000000

abbrev pub max_picos : ℕ
max_picos = 0x1f3fffffffffc18

unfoldable pub scaled : ℕ → ℕ
scaled u = u / 1000 * 2 ^ 16 + u % 1000 * 2 ^ 16 / 1000

unfoldable pub picos_to_interval : ℤ → ℤ
picos_to_interval picos =
    if leb min_picos (neg_part picos)
    then negsuc (2 ^ 63 - 1)
    else if leb max_picos (pos_part picos)
    then pos (scaled max_picos)
    else signed_like picos (scaled (magnitude picos))

unfoldable pub interval_to_picos : ℤ → ℤ
interval_to_picos interval =
    signed_like interval ((magnitude interval * 1000 + rounding_value) % 2 ^ 64 / 2 ^ 16)
