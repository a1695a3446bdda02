-- ===== src/Bmc/Choice.antt =====
-- Which port the state decision makes a slave.
use mathlib.Core.Path.{subst}
use ppsi.Bmc.Compare.{bmc_dataset_cmp, bmc_gm_cmp, bmc_topology_cmp}
use ppsi.Bmc.DataSets.{bmc_m1, bmc_m2, bmc_m3}
use ppsi.Bmc.Decision.{
  bmc_setup_local_frgn_master, bmc_state_decision, check_boundary_clk, decide_by_ebest,
  decide_by_index, decide_high_class, decide_low_class, decide_slave_only, ebest_record,
  erbest_or_empty, is_master_state, is_slave_state, leave_for, master_end, master_m1, master_m2,
  master_m3, passive_p, qualify_later, qualify_now, slave_only_by, slave_only_class,
}
use ppsi.Bmc.Select.{erbest_record}
use ppsi.Ds.{BmcHooks, FrgnMaster, Globals, State, TimeOps, same_state}
use ppsi.Prelude.{
  Option, arith, false, if_case, if_either, is_index, is_neg, is_pos, is_some, ltb, none, not, refl,
  some, sym, true, ℕ, ◌&&◌, ◌==◌, ◌||◌, ◌≡◌, ◌≢◌,
}

-- If the result is slave or uncalibrated, the port is the Ebest port.
abbrev ChoosesEbest : Globals → ℕ → Globals × State → Type 0
ChoosesEbest g ppi r = is_slave_state r.1 ≡ true → is_index g.ebest_idx ppi ≡ true

leave_for-chooses :
    (s : State) (g g' : Globals) (ppi : ℕ)
    → is_slave_state s ≡ false
    → ChoosesEbest g ppi (leave_for s g' ppi)
unfolding leave_for
leave_for-chooses s g g' ppi h e = cc

master_end-chooses :
    (enter : Globals → Globals) (g g' : Globals) (ppi : ℕ)
    → ChoosesEbest g ppi (master_end enter g' ppi)
unfolding master_end is_master_state is_slave_state
master_end-chooses enter g g' ppi e = ground arith

-- What passive_p and the master labels do to the choice.
no_slave_labels :
    (ops : TimeOps) (g : Globals) (ppi : ℕ)
    → ChoosesEbest g ppi (passive_p g ppi)
      × ChoosesEbest g ppi (master_m1 ops g ppi)
      × ChoosesEbest g ppi (master_m2 ops g ppi)
      × ChoosesEbest g ppi (master_m3 g ppi)
unfolding passive_p master_m1 master_m2 master_m3 is_slave_state
no_slave_labels ops g ppi = (
  if_either (slave_only_class g) (ChoosesEbest g ppi)
      (leave_for-chooses State.listening g g ppi refl)
      (leave_for-chooses State.passive g g ppi refl),
  if_either (slave_only_class g) (ChoosesEbest g ppi)
      (leave_for-chooses State.listening g g ppi refl)
      (master_end-chooses (qualify_now ppi) g (bmc_m1 ops g) ppi),
  if_either (slave_only_class g) (ChoosesEbest g ppi)
      (leave_for-chooses State.listening g g ppi refl)
      (master_end-chooses (qualify_now ppi) g (bmc_m2 ops g) ppi),
  if_either (slave_only_class g) (ChoosesEbest g ppi)
      (leave_for-chooses State.listening g g ppi refl)
      (master_end-chooses (qualify_later ppi) g (bmc_m3 g) ppi),
)

not_slave :
    (s : State) (g g' : Globals) (ppi : ℕ) → is_slave_state s ≡ false → ChoosesEbest g ppi (g', s)
not_slave s g g' ppi h e = cc

boundary-chooses :
    (ops : TimeOps) (hooks : BmcHooks) (g : Globals) (ppi : ℕ) (ebest m : FrgnMaster)
    → ChoosesEbest g ppi (check_boundary_clk ops hooks g ppi ebest m)
unfolding check_boundary_clk is_slave_state
boundary-chooses ops hooks g ppi ebest m =
    let labels = no_slave_labels ops g ppi in
    if_case (is_index g.ebest_idx ppi) (ChoosesEbest g ppi) (λ i e. i)
      (λ i. if_either (is_neg (bmc_gm_cmp g ebest m)) (ChoosesEbest g ppi) labels.3 (
        if_either (is_neg (bmc_topology_cmp g ebest m)) (ChoosesEbest g ppi) labels.0 (
          if_either (is_pos (bmc_topology_cmp g ebest m)) (ChoosesEbest g ppi) labels.3
            (not_slave State.faulty g g ppi refl))))

low-chooses :
    (ops : TimeOps) (g : Globals) (ppi : ℕ) (d0 m : FrgnMaster)
    → ChoosesEbest g ppi (decide_low_class ops g ppi d0 m)
unfolding decide_low_class is_slave_state
low-chooses ops g ppi d0 m =
    let labels = no_slave_labels ops g ppi in
    if_either (is_neg (bmc_dataset_cmp g d0 m)) (ChoosesEbest g ppi) labels.1 (
      if_either (is_pos (bmc_dataset_cmp g d0 m)) (ChoosesEbest g ppi) labels.0
        (not_slave State.faulty g g ppi refl))

high-chooses :
    (ops : TimeOps) (hooks : BmcHooks) (g : Globals) (ppi : ℕ) (d0 ebest m : FrgnMaster)
    → g.default_ds.number_ports ≢ 1
    → ChoosesEbest g ppi (decide_high_class ops hooks g ppi d0 ebest m)
unfolding decide_high_class is_slave_state
high-chooses ops hooks g ppi d0 ebest m h =
    if_either (is_neg (bmc_dataset_cmp g d0 ebest)) (ChoosesEbest g ppi)
      (no_slave_labels ops g ppi).2
      (if_either (is_pos (bmc_dataset_cmp g d0 ebest)) (ChoosesEbest g ppi)
        (if_case (g.default_ds.number_ports == 1) (ChoosesEbest g ppi) (λ e. ground arith)
          (λ e. boundary-chooses ops hooks g ppi ebest m))
        (not_slave State.faulty g g ppi refl))

by_index-chooses :
    (ops : TimeOps) (hooks : BmcHooks) (g : Globals) (ppi : ℕ) (e : Option ℕ)
    → g.default_ds.number_ports ≢ 1
    → ChoosesEbest g ppi (decide_by_index ops hooks g ppi e)
unfolding decide_by_index decide_by_ebest
by_index-chooses ops hooks g ppi none h = (no_slave_labels ops g ppi).1
by_index-chooses ops hooks g ppi (some i) h =
    if_either (ltb g.default_ds.clock_quality.clock_class 128) (ChoosesEbest g ppi)
      (low-chooses ops g ppi (bmc_setup_local_frgn_master g ppi) (erbest_or_empty (g.inst ppi)))
      (high-chooses ops hooks g ppi (bmc_setup_local_frgn_master g ppi) (ebest_record (g.inst i))
        (erbest_or_empty (g.inst ppi)) h)

slave_only_by-chooses :
    (ops : TimeOps) (hooks : BmcHooks) (g : Globals) (ppi : ℕ) (e : Option FrgnMaster)
    → ChoosesEbest g ppi (slave_only_by ops hooks g ppi e)
unfolding slave_only_by is_slave_state
slave_only_by-chooses ops hooks g ppi none = not_slave State.listening g g ppi refl
slave_only_by-chooses ops hooks g ppi (some m) =
    if_case (is_index g.ebest_idx ppi) (ChoosesEbest g ppi) (λ i e. i)
      (λ i. not_slave State.listening g g ppi refl)

decision-chooses :
    (ops : TimeOps) (hooks : BmcHooks) (g : Globals) (ppi : ℕ)
    → g.default_ds.number_ports ≢ 1
    → ChoosesEbest g ppi (bmc_state_decision ops hooks g ppi)
unfolding bmc_state_decision decide_slave_only is_slave_state
decision-chooses ops hooks g ppi h =
    let labels = no_slave_labels ops g ppi in
    let p = g.inst ppi in
    if_case (same_state p.state State.faulty || same_state p.state State.initializing)
      (ChoosesEbest g ppi) (λ c e. ground arith)
      (λ c.
        if_either g.default_ds.slave_only (ChoosesEbest g ppi)
          (slave_only_by-chooses ops hooks g ppi (erbest_record p))
          (if_either (not (is_some p.frgn_rec_best) && same_state p.state State.listening)
            (ChoosesEbest g ppi) (not_slave State.listening g g ppi refl)
            (if_either p.port_ds.master_only (ChoosesEbest g ppi)
              (if_either (is_some g.ebest_idx) (ChoosesEbest g ppi) labels.3 labels.1)
              (by_index-chooses ops hooks g ppi g.ebest_idx h))))

is_index_unique : (e : Option ℕ) (a b : ℕ) → is_index e a ≡ true → is_index e b ≡ true → a ≡ b
is_index_unique none a b ha hb = cc
is_index_unique (some i) a b ha hb = ground arith

-- On a device that has not just one port, from the same Ebest the state decision makes at most one
-- port slave or uncalibrated: the Ebest port. The other globals of the two decisions may differ.
pub bmc_state_decision-one_slave :
    (ops : TimeOps) (hooks : BmcHooks) (g g' : Globals) (a b : ℕ)
    → g.ebest_idx ≡ g'.ebest_idx
    → g.default_ds.number_ports ≢ 1
    → g'.default_ds.number_ports ≢ 1
    → is_slave_state (bmc_state_decision ops hooks g a).1 ≡ true
    → is_slave_state (bmc_state_decision ops hooks g' b).1 ≡ true
    → (a ≡ b) × (is_index g.ebest_idx a ≡ true)
bmc_state_decision-one_slave ops hooks g g' a b same h h' sa sb =
    let ia = decision-chooses ops hooks g a h sa in
    let ib = decision-chooses ops hooks g' b h' sb in
    (is_index_unique g.ebest_idx a b ia (subst (λ e. is_index e b ≡ true) (sym same) ib), ia)
