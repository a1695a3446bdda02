-- ===== src/Timeout/Frame.antt =====
-- What the counters leave alone: every property of an instance that does not read them.
use mathlib.Core.Path.{subst}
use ppsi.Ds.{Globals, Instance, Timer}
use ppsi.Prelude.{
  arith, eqb_ℤ, if_case, if_either, if◌then◌else◌, is_pos, true, update, ℕ, ◌&&◌, ◌==◌, ◌≡◌,
}
use ppsi.Timeout.Clock.{calc_timeout}
use ppsi.Timeout.Defs.{
  owner, pp_get_counter, pp_timeout_set_tmo, set_counter, timeout_disable_value,
}
use ppsi.Timeout.Reset.{
  is_randomized, mac_seed, next_seed, pp_timeout_reset, pp_timeout_reset_n, rand_value, randomize,
  reset_randomized, scale,
}

same_number : (a b : ℕ) → (a == b) ≡ true → a ≡ b
same_number a b e = ground arith

module _ {ℓ} (P : Instance → Type ℓ) where
  -- The property does not read the counters.
  abbrev pub IgnoresTimers : Type ℓ
  IgnoresTimers = (p : Instance) (c : ℕ → Timer) → P p → P (record p { tmo_cfg = c })

  set_counter-keeps :
      (g : Globals) (ppi index : ℕ) (t : Timer) (q : ℕ)
      → IgnoresTimers
      → P (g.inst q)
      → P ((set_counter g ppi index t).inst q)
  unfolding set_counter
  set_counter-keeps g ppi index t q k h =
      let o = owner ppi index in
      if_case (q == o) P
        (λ e.
          k (g.inst o) (update (g.inst o).tmo_cfg index t)
            (subst (λ i. P (g.inst i)) (same_number q o e) h))
        (λ e. h)

  pub pp_timeout_reset-keeps :
      (g : Globals) (ppi index q : ℕ)
      → IgnoresTimers
      → P (g.inst q)
      → P ((pp_timeout_reset g ppi index).inst q)
  unfolding pp_timeout_reset pp_timeout_reset_n reset_randomized pp_timeout_set_tmo
  pp_timeout_reset-keeps g ppi index q k h =
      let t = pp_get_counter g ppi index in
      let ms = scale t.init_value_ms 1 in
      let s0 = if g.seed == 0 then mac_seed g.default_ds.clock_identity.id else g.seed in
      let drawn = record g { seed = next_seed (next_seed s0) } in
      if_either (eqb_ℤ t.init_value_ms timeout_disable_value) (λ (g' : Globals). P (g'.inst q)) h
        (if_either (is_randomized t.which_rand && is_pos ms) (λ (g' : Globals). P (g'.inst q))
          (set_counter-keeps drawn ppi index
            (record (pp_get_counter drawn ppi index) {
              tmo = calc_timeout drawn (
                  randomize t.which_rand ms (rand_value (next_seed s0) (next_seed (next_seed s0))));
            })
            q k h)
          (set_counter-keeps g ppi index (record t { tmo = calc_timeout g ms }) q k h))
