-- ===== src/Timeout/Owner.antt =====
-- Which counters an operation touches.
use ppsi.Ds.{Globals}
use ppsi.Prelude.{arith, false, if◌then◌else◌, true, ℕ, ℤ, ◌&&◌, ◌==◌, ◌≡◌}
use ppsi.Timeout.Defs.{
  owner, pp_get_counter, pp_timeout, pp_timeout_get, pp_timeout_is_disabled, pp_timeout_set,
  pp_timeout_set_tmo, set_counter,
}
use ppsi.Timeout.Expiry.{advance, counter-advance}
use ppsi.Timeout.Reset.{pp_timeout_reset_n}

-- Setting a counter from port `p` is seen from every port that shares it, and from no other counter.
pub pp_timeout_get-set :
    (g : Globals) (p q i j : ℕ) (ms : ℤ)
    → pp_timeout_get (pp_timeout_set g p i ms) q j
      ≡ (if (owner p i == owner q j) && (i == j) then ms else pp_timeout_get g q j)
unfolding pp_timeout_get pp_timeout_set pp_timeout_set_tmo pp_get_counter set_counter
pp_timeout_get-set g p q i j ms = ground arith

-- A disabled counter never expires, at any time, and a reset with any multiplier leaves it and
-- everything else as it is.
pub disabled_stays :
    (g : Globals) (ppi index multiplier d : ℕ)
    → pp_timeout_is_disabled g ppi index ≡ true
    → (pp_timeout (advance d g) ppi index ≡ false) × (pp_timeout_reset_n g ppi index multiplier ≡ g)
unfolding pp_timeout_is_disabled pp_timeout_get pp_timeout pp_timeout_reset_n
disabled_stays g ppi index multiplier d h = (rw (counter-advance g ppi index d) (rw h), rw h)
