-- ===== src/Timeout/Expiry.antt =====
-- When a counter expires, and how long it is until then.
use Prim.Native.Nat.{min}
use ppsi.Ds.{Globals}
use ppsi.Prelude.{
  List, [], ap, arith, leb, ltb, of_word, pos, refl, to_word, ℕ, ℤ, ◌%◌, ◌+◌, ◌-◌, ◌<◌, ◌^◌, ◌∷◌,
  ◌≡◌, ◌≤◌,
}
use ppsi.Timeout.Clock.{calc_timeout, time_after, time_after_eq, time_before, ulong_mod}
use ppsi.Timeout.Defs.{
  delay_until, earlier, pp_get_counter, pp_next_delay_1, pp_timeout, pp_timeout_set,
  pp_timeout_set_tmo, remaining, set_counter,
}

-- The clock runs on by `d` milliseconds, and may wrap.
abbrev pub advance : ℕ → Globals → Globals
advance d g = record g { now = (g.now + d) % ulong_mod }

-- Periods, one after the other
abbrev pub total : List ℕ → ℕ
total [] = 0
total (d ∷ ds) = d + total ds

pub advance-advance : (g : Globals) (e d : ℕ) → advance d (advance e g) ≡ advance (e + d) g
advance-advance g e d =
    ap (λ (n : ℕ). record g { now = n })
      (let same : ((g.now + e) % ulong_mod + d) % ulong_mod ≡ (g.now + (e + d)) % ulong_mod =
          omega arith in
        same)

-- A wrapped difference of two readings that are less than half the range apart.
pub wrapped_after :
    (n d m : ℕ)
    → n < ulong_mod
    → d < 2 ^ 62
    → m < 2 ^ 31
    → time_after_eq (((n + d) % ulong_mod + 0) % ulong_mod) ((n + m) % ulong_mod) ≡ leb m d
unfolding time_after_eq
wrapped_after n d m hn hd hm = ground arith

-- The counter as pp_timeout_set leaves it.
pub counter-set :
    (g : Globals) (ppi index : ℕ) (ms : ℤ)
    → pp_get_counter (pp_timeout_set g ppi index ms) ppi index
      ≡ record (pp_get_counter g ppi index) { init_value_ms = ms; tmo = calc_timeout g ms }
unfolding pp_get_counter pp_timeout_set pp_timeout_set_tmo set_counter calc_timeout
counter-set g ppi index ms = ground arith

-- The clock does not touch the counters.
pub counter-advance :
    (g : Globals) (ppi index d : ℕ)
    → pp_get_counter (advance d g) ppi index ≡ pp_get_counter g ppi index
unfolding pp_get_counter
counter-advance g ppi index d = refl

calc_timeout-pos :
    (g : Globals) (m : ℕ) → m < 2 ^ 31 → calc_timeout g (pos m) ≡ (g.now + m) % ulong_mod
unfolding calc_timeout to_word
calc_timeout-pos g m h = omega arith

calc_timeout-advance :
    (g : Globals) (ppi index : ℕ) (ms : ℤ) (d : ℕ)
    → calc_timeout (advance d (pp_timeout_set g ppi index ms)) (pos 0)
      ≡ ((g.now + d) % ulong_mod + 0) % ulong_mod
unfolding calc_timeout to_word pp_timeout_set pp_timeout_set_tmo set_counter
calc_timeout-advance g ppi index ms d = refl

-- `remaining` of two readings that are less than half the range apart.
pub wrapped_before :
    (n d m : ℕ)
    → n < ulong_mod
    → d < 2 ^ 62
    → m < 2 ^ 31
    → time_before ((n + m) % ulong_mod) (((n + d) % ulong_mod + 0) % ulong_mod) ≡ ltb m d
unfolding time_before time_after
wrapped_before n d m hn hd hm = ground arith

pub wrapped_remaining :
    (n d m : ℕ)
    → n < ulong_mod
    → d ≤ m
    → m < 2 ^ 31
    → remaining ((n + m) % ulong_mod) (((n + d) % ulong_mod + 0) % ulong_mod) ≡ pos (m - d)
unfolding remaining of_word
wrapped_remaining n d m hn hd hm = ground arith

-- A counter set to `m` milliseconds has expired `d` milliseconds later exactly when m ≤ d, wherever
-- the clock stood and whether or not it wrapped.
pub pp_timeout-set :
    (g : Globals) (ppi index m d : ℕ)
    → g.now < ulong_mod
    → m < 2 ^ 31
    → d < 2 ^ 62
    → pp_timeout (advance d (pp_timeout_set g ppi index (pos m))) ppi index ≡ leb m d
unfolding pp_timeout
pp_timeout-set g ppi index m d hn hm hd =
    rw (counter-advance (pp_timeout_set g ppi index (pos m)) ppi index d) (
      rw (counter-set g ppi index (pos m)) (
        rw (calc_timeout-pos g m hm, calc_timeout-advance g ppi index (pos m) d)
          (ground (arith, wrapped_after g.now d m hn hd hm))))

-- The delay that the state machine waits for a counter is the time that it still has to run, and 0
-- once it has expired.
pub pp_next_delay_1-set :
    (g : Globals) (ppi index m d : ℕ)
    → g.now < ulong_mod
    → m < 2 ^ 31
    → d < 2 ^ 62
    → pp_next_delay_1 (advance d (pp_timeout_set g ppi index (pos m))) ppi index ≡ pos (m - d)
unfolding pp_next_delay_1
pp_next_delay_1-set g ppi index m d hn hm hd =
    rw (counter-advance (pp_timeout_set g ppi index (pos m)) ppi index d) (
      rw (counter-set g ppi index (pos m)) (
        rw (calc_timeout-pos g m hm, calc_timeout-advance g ppi index (pos m) d)
          (ground (arith, wrapped_before g.now d m hn hd hm, wrapped_remaining g.now d m hn))))

-- `earlier` and `delay_until` on two times that are ahead of a clock by `m` and `k`.
pub delay_until-earlier :
    (n m k : ℕ)
    → n < ulong_mod
    → m < 2 ^ 31
    → k < 2 ^ 31
    → delay_until (earlier ((n + m) % ulong_mod) ((n + k) % ulong_mod)) ((n + 0) % ulong_mod)
      ≡ pos (min m k)
unfolding delay_until earlier time_before time_after remaining of_word
delay_until-earlier n m k hn hm hk = ground arith
