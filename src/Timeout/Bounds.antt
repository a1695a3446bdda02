-- ===== src/Timeout/Bounds.antt =====
-- How long a reset counter runs, random part included, and who owns it.
use native.Mathlib.Nat.{div-le_self}
use ppsi.Ds.{Rand}
use ppsi.Prelude.{
  arith, checked, checked_at, leb, negsuc, of_word, pos, refl, to_word, ℕ, ℤ, ◌%◌, ◌&&◌, ◌*◌, ◌+◌,
  ◌/◌, ◌<◌, ◌^◌, ◌≡◌, ◌≤◌,
}
use ppsi.Timeout.Reset.{div_int, forty_percent, pp_timeout_log_to_ms, randomize, spread}

pow_bounds : (n : ℕ) → n < 22 → (1 ≤ 2 ^ n) × (2 ^ n ≤ 2097152)
unfolding checked
pow_bounds n h =
    ground (
      arith,
      checked_at 22 0 (λ (k : ℕ). leb 1 (2 ^ k) && leb (2 ^ k) 2097152) refl n (omega arith),
    )

quotient_bounds : (n : ℕ) → n < 10 → 1 ≤ 1000 / 2 ^ n
unfolding checked
quotient_bounds n h =
    ground (arith, checked_at 10 0 (λ (k : ℕ). leb 1 (1000 / 2 ^ k)) refl n (omega arith))

-- A configured interval is at least a millisecond and fits a C int, for every exponent.
pub log_to_ms_bounds :
    (log_value : ℤ)
    → (1 ≤ pp_timeout_log_to_ms log_value) × (pp_timeout_log_to_ms log_value < 2 ^ 31)
unfolding pp_timeout_log_to_ms
log_to_ms_bounds (pos n) = ground (arith, pow_bounds n)
log_to_ms_bounds (negsuc n) =
    ground (arith, quotient_bounds (n + 1), div-le_self 1000 (2 ^ (n + 1)))

forty_percent-pos : (ms : ℕ) → ms < 2 ^ 30 → forty_percent (pos ms) ≡ pos (2 * ms / 5)
unfolding forty_percent div_int of_word to_word
forty_percent-pos ms k = ground arith

randomize-pos :
    (r : Rand) (ms rval : ℕ)
    → 3 ≤ ms
    → ms < 2 ^ 30
    → randomize r (pos ms) rval ≡ pos (spread r (2 * ms / 5) rval)
unfolding randomize
randomize-pos r ms rval h k = rw (forty_percent-pos ms k) (ground arith)

-- For a positive reference value that can be doubled in an int, a counter of kind TO_RAND_70_130 is
-- set to between 80% and 120% of it, and a counter of kind TO_RAND_0_200 to less than 200%, up to
-- the rounding of the 40%, whatever the random bits.
pub randomize_bounds :
    (ms rval : ℕ)
    → 3 ≤ ms
    → ms < 2 ^ 30
    → (lo : ℕ) × (hi : ℕ) × (randomize Rand.rand_70_130 (pos ms) rval ≡ pos lo)
      × (randomize Rand.rand_0_200 (pos ms) rval ≡ pos hi)
      × (2 * (2 * ms / 5) ≤ lo)
      × (lo < 3 * (2 * ms / 5))
      × (hi < 2 * ms)
unfolding spread
randomize_bounds ms rval h k = (
  2 * ms / 5 * 2 + rval % (2 * ms / 5),
  rval % (2 * ms / 5 * 5),
  randomize-pos Rand.rand_70_130 ms rval h k,
  randomize-pos Rand.rand_0_200 ms rval h k,
  omega arith,
  omega arith,
  grind arith,
)
