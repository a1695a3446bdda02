-- ===== src/States/Tables.antt =====
-- What the functions that run when a master is lost do not touch: the tables of foreign masters and the
-- states of the ports.
use ppsi.Bmc.DataSets.{bmc_m1, bmc_m3, m1_arb_offset, m1_parent, m1_ptp_offset, m1_source}
use ppsi.Ds.{DefaultDs, Globals, Instance, State, TimeOps, Timer, set_inst, to_gm_by_bmca}
use ppsi.Prelude.{
  Bool, ap, arith, eqb_ℤ, if_either, is_pos, ltb, not, refl, suc, zero, ℕ, ℤ, ◌&&◌, ◌+◌, ◌∙◌, ◌≡◌,
}
use ppsi.States.Common.{any_port, counts_as_master, counts_as_slave, is_grand_master}
use ppsi.Timeout.Clock.{calc_timeout}
use ppsi.Timeout.Defs.{
  owner, pp_get_counter, pp_timeout_disable, pp_timeout_set, pp_timeout_set_tmo, set_counter,
  timeout_disable_value,
}
use ppsi.Timeout.Reset.{
  is_randomized, pp_timeout_reset, pp_timeout_reset_n, reset_randomized, scale,
}

-- Everything of an instance that the search for a master reads
abbrev pub SameTable : Instance → Instance → Type 0
SameTable p q =
    (q.frgn_master ≡ p.frgn_master)
    × (q.frgn_rec_num ≡ p.frgn_rec_num)
    × (q.frgn_rec_best ≡ p.frgn_rec_best)
    × (q.state ≡ p.state)

abbrev pub SameTables : Globals → Globals → Type 0
SameTables g g' = (j : ℕ) → SameTable (g.inst j) (g'.inst j)

pub SameTables-trans : (f g h : Globals) → SameTables f g → SameTables g h → SameTables f h
SameTables-trans f g h a b j =
    ((b j).0 ∙ (a j).0, (b j).1 ∙ (a j).1, (b j).2 ∙ (a j).2, (b j).3 ∙ (a j).3)

pub set_inst-SameTables :
    (g : Globals) (ppi : ℕ) (p : Instance)
    → SameTable (g.inst ppi) p
    → SameTables g (set_inst g ppi p)
set_inst-SameTables g ppi p same j = ground arith

set_counter-SameTables :
    (g : Globals) (ppi index : ℕ) (t : Timer) → SameTables g (set_counter g ppi index t)
unfolding set_counter
set_counter-SameTables g ppi index t =
    set_inst-SameTables g (owner ppi index) _ (refl, refl, refl, refl)

pub pp_timeout_set-SameTables :
    (g : Globals) (ppi index : ℕ) (ms : ℤ) → SameTables g (pp_timeout_set g ppi index ms)
unfolding pp_timeout_set pp_timeout_set_tmo
pp_timeout_set-SameTables g ppi index ms =
    let t = record (pp_get_counter g ppi index) { init_value_ms = ms } in
    let g1 = set_counter g ppi index t in
    let t1 = record (pp_get_counter g1 ppi index) { tmo = calc_timeout g1 ms } in
    SameTables-trans g g1 (set_counter g1 ppi index t1) (set_counter-SameTables g ppi index t)
      (set_counter-SameTables g1 ppi index t1)

pub pp_timeout_reset-SameTables :
    (g : Globals) (ppi index : ℕ) → SameTables g (pp_timeout_reset g ppi index)
unfolding pp_timeout_reset pp_timeout_reset_n reset_randomized pp_timeout_set_tmo
pp_timeout_reset-SameTables g ppi index =
    let t = pp_get_counter g ppi index in
    if_either (eqb_ℤ t.init_value_ms timeout_disable_value) (SameTables g)
      (λ j. (refl, refl, refl, refl))
      (if_either (is_randomized t.which_rand && is_pos (scale t.init_value_ms 1)) (SameTables g)
        (set_counter-SameTables _ ppi index _) (set_counter-SameTables g ppi index _))

bmc_m1-inst : (ops : TimeOps) (g : Globals) → (bmc_m1 ops g).inst ≡ g.inst
unfolding bmc_m1 m1_source m1_parent m1_ptp_offset m1_arb_offset
bmc_m1-inst ops g =
    if_either g.time_properties_ds.ptp_timescale (λ (h : Globals). h.inst ≡ g.inst)
      (if_either _ (λ (h : Globals). h.inst ≡ g.inst) refl refl) refl

pub bmc_m1-SameTables : (ops : TimeOps) (g : Globals) → SameTables g (bmc_m1 ops g)
bmc_m1-SameTables ops g j =
    let same = λ (i : ℕ). ap (λ (c : ℕ → Instance). c i) (bmc_m1-inst ops g) in
    (
      ap (λ (p : Instance). p.frgn_master) (same j),
      ap (λ (p : Instance). p.frgn_rec_num) (same j),
      ap (λ (p : Instance). p.frgn_rec_best) (same j),
      ap (λ (p : Instance). p.state) (same j),
    )

pub bmc_m3-SameTables : (g : Globals) → SameTables g (bmc_m3 g)
unfolding bmc_m3 pp_timeout_disable
bmc_m3-SameTables g =
    if_either (ltb 0 g.rt_opts.gm_delay_to_gen_pps_sec) (SameTables g)
      (pp_timeout_set-SameTables g 0 to_gm_by_bmca timeout_disable_value)
      (λ j. (refl, refl, refl, refl))

any_port_same :
    (test : State → Bool) (n i : ℕ) (g h : Globals)
    → SameTables g h
    → any_port test n i h ≡ any_port test n i g
unfolding any_port
any_port_same test zero i g h same = refl
any_port_same test (suc n) i g h same =
    rw (ap test (same i).3) (rw (any_port_same test n (i + 1) g h same) refl)

pub is_grand_master_same :
    (g h : Globals)
    → SameTables g h
    → h.default_ds ≡ g.default_ds
    → is_grand_master h ≡ is_grand_master g
unfolding is_grand_master
is_grand_master_same g h same ds =
    let n = g.default_ds.number_ports in
    ap
      (λ (d : DefaultDs).
        any_port counts_as_master d.number_ports 0 h
        && not (any_port counts_as_slave d.number_ports 0 h))
      ds
    ∙ rw (any_port_same counts_as_master n 0 g h same)
        (rw (any_port_same counts_as_slave n 0 g h same) refl)
