-- ===== src/Timeout/Ports.antt =====
-- What the initialisation of the timeouts does not touch: portDS (pp_timeout_init of timeout.c).
use ppsi.Ds.{
  Globals, Instance, Rand, set_inst, to_ann_receipt, to_ann_send, to_bmc, to_qualification,
  to_request, to_sync_send,
}
use ppsi.Prelude.{arith, eqb_ℤ, if_either, ltb_ℤ, pos, refl, ℕ, ℤ, ◌||◌, ◌∙◌, ◌≡◌}
use ppsi.Timeout.Defs.{timeout_disable_value}
use ppsi.Timeout.Reset.{
  init_announce_timers, init_bmc_timer, pp_timeout_init, set_init_value, set_rand,
}

-- The data sets of the ports stay.
abbrev SamePorts : Globals → Globals → Type 0
SamePorts g g' = (j : ℕ) → (g'.inst j).port_ds ≡ (g.inst j).port_ds

set_inst-SamePorts :
    (g : Globals) (ppi : ℕ) (p : Instance)
    → p.port_ds ≡ (g.inst ppi).port_ds
    → SamePorts g (set_inst g ppi p)
set_inst-SamePorts g ppi p same j = ground arith

set_init_value-SamePorts :
    (g : Globals) (ppi index : ℕ) (v : ℤ) → SamePorts g (set_init_value g ppi index v)
unfolding set_init_value
set_init_value-SamePorts g ppi index v = set_inst-SamePorts g ppi _ refl

set_rand-SamePorts : (g : Globals) (ppi index : ℕ) (r : Rand) → SamePorts g (set_rand g ppi index r)
unfolding set_rand
set_rand-SamePorts g ppi index r = set_inst-SamePorts g ppi _ refl

init_bmc_timer-SamePorts : (g : Globals) (ms : ℕ) → SamePorts g (init_bmc_timer g ms)
unfolding init_bmc_timer
init_bmc_timer-SamePorts g ms =
    let v = ((g.inst 0).tmo_cfg to_bmc).init_value_ms in
    if_either (eqb_ℤ v timeout_disable_value || ltb_ℤ (pos ms) v) (SamePorts g)
      (set_init_value-SamePorts g 0 to_bmc (pos ms)) (λ j. refl)

init_announce_timers-SamePorts : (g : Globals) (ppi : ℕ) → SamePorts g (init_announce_timers g ppi)
unfolding init_announce_timers
init_announce_timers-SamePorts g ppi =
    if_either g.default_ds.external_port_configuration_enabled (SamePorts g)
      (λ j.
        set_init_value-SamePorts _ ppi to_qualification _ j
        ∙ set_init_value-SamePorts g ppi to_ann_receipt _ j)
      (λ j.
        set_init_value-SamePorts _ ppi to_qualification _ j
        ∙ set_init_value-SamePorts g ppi to_ann_receipt _ j)

pub pp_timeout_init-SamePorts : (g : Globals) (ppi : ℕ) → SamePorts g (pp_timeout_init g ppi)
unfolding pp_timeout_init
pp_timeout_init-SamePorts g ppi j =
    set_init_value-SamePorts _ ppi to_ann_send _ j
    ∙ init_announce_timers-SamePorts _ ppi j
    ∙ init_bmc_timer-SamePorts _ _ j
    ∙ set_init_value-SamePorts _ ppi to_sync_send _ j
    ∙ set_init_value-SamePorts _ ppi to_request _ j
    ∙ set_rand-SamePorts _ ppi to_sync_send _ j
    ∙ set_rand-SamePorts _ ppi to_ann_send _ j
    ∙ set_rand-SamePorts g ppi to_request _ j
