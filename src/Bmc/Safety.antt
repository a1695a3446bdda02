-- ===== src/Bmc/Safety.antt =====
-- Which states the state decision can reach for which port.
use ppsi.Bmc.Compare.{bmc_dataset_cmp, bmc_gm_cmp, bmc_pidcmp, bmc_topology_cmp}
use ppsi.Bmc.Decision.{
  bmc_setup_local_frgn_master, bmc_state_decision, check_boundary_clk, decide_by_ebest,
  decide_by_index, decide_high_class, decide_low_class, decide_slave_only, ebest_record,
  erbest_or_empty, is_master_state, is_slave_state, leave_for, master_m1, master_m2, master_m3,
  passive_p, slave_end, slave_only_by, slave_only_class, slave_s1,
}
use ppsi.Bmc.Select.{erbest_record}
use ppsi.Bmc.Slave.{bmc_s1}
use ppsi.Ds.{BmcHooks, FrgnMaster, Globals, State, TimeOps, same_state}
use ppsi.Prelude.{
  Bool, Option, arith, false, if_case, if_either, inl, inr, is_index, is_neg, is_pos, is_some,
  is_zero, ltb, none, not, refl, some, true, ℕ, ◌&&◌, ◌==◌, ◌||◌, ◌≡◌, ◌⊎◌,
}

-- A slave-only device, by its option or by its clock class.
abbrev pub IsSlaveOnly : Globals → Type 0
IsSlaveOnly g = (g.default_ds.slave_only ≡ true) ⊎ (slave_only_class g ≡ true)

-- The state is not a master's.
abbrev NoMaster : Globals × State → Type 0
NoMaster r = is_master_state r.1 ≡ false

slave_end-master :
    (changed : Bool) (g : Globals) (ppi : ℕ) → is_master_state (slave_end changed g ppi).1 ≡ false
unfolding slave_end is_slave_state is_master_state leave_for
slave_end-master changed g ppi = ground arith

slave_s1-master :
    (ops : TimeOps) (hooks : BmcHooks) (g : Globals) (ppi : ℕ) (m : FrgnMaster)
    → is_master_state (slave_s1 ops hooks g ppi m).1 ≡ false
unfolding slave_s1
slave_s1-master ops hooks g ppi m =
    if_either (is_index g.ebest_idx ppi) NoMaster
      (slave_end-master
        (not (is_zero (bmc_pidcmp g.parent_ds.parent_port_identity m.source_port_identity)))
        (bmc_s1 ops hooks g ppi m) ppi)
      (slave_end-master false g ppi)

passive_p-master : (g : Globals) (ppi : ℕ) → NoMaster (passive_p g ppi)
unfolding passive_p leave_for is_master_state
passive_p-master g ppi = ground arith

-- The three master labels make a port of a slave-only device no master.
master_m-state :
    (ops : TimeOps) (g : Globals) (ppi : ℕ)
    → slave_only_class g ≡ true
    → (is_master_state (master_m1 ops g ppi).1 ≡ false)
      × (is_master_state (master_m2 ops g ppi).1 ≡ false)
      × (is_master_state (master_m3 g ppi).1 ≡ false)
unfolding master_m1 master_m2 master_m3 leave_for is_master_state
master_m-state ops g ppi h = (rw h refl, rw h refl, rw h refl)

is_master-faulty : is_master_state State.faulty ≡ false
unfolding is_master_state
is_master-faulty = refl

decide_low-master :
    (ops : TimeOps) (g : Globals) (ppi : ℕ) (d0 m : FrgnMaster)
    → slave_only_class g ≡ true
    → NoMaster (decide_low_class ops g ppi d0 m)
unfolding decide_low_class
decide_low-master ops g ppi d0 m h =
    if_either (is_neg (bmc_dataset_cmp g d0 m)) NoMaster ((master_m-state ops g ppi h).0) (
      if_either (is_pos (bmc_dataset_cmp g d0 m)) NoMaster (passive_p-master g ppi)
        (is_master-faulty))

check_boundary-master :
    (ops : TimeOps) (hooks : BmcHooks) (g : Globals) (ppi : ℕ) (ebest m : FrgnMaster)
    → slave_only_class g ≡ true
    → NoMaster (check_boundary_clk ops hooks g ppi ebest m)
unfolding check_boundary_clk
check_boundary-master ops hooks g ppi ebest m h =
    let m3 = (master_m-state ops g ppi h).2 in
    if_either (is_index g.ebest_idx ppi) NoMaster (slave_s1-master ops hooks g ppi ebest) (
      if_either (is_neg (bmc_gm_cmp g ebest m)) NoMaster m3 (
        if_either (is_neg (bmc_topology_cmp g ebest m)) NoMaster (passive_p-master g ppi)
          (if_either (is_pos (bmc_topology_cmp g ebest m)) NoMaster m3 is_master-faulty)))

decide_high-master :
    (ops : TimeOps) (hooks : BmcHooks) (g : Globals) (ppi : ℕ) (d0 ebest m : FrgnMaster)
    → slave_only_class g ≡ true
    → NoMaster (decide_high_class ops hooks g ppi d0 ebest m)
unfolding decide_high_class
decide_high-master ops hooks g ppi d0 ebest m h =
    if_either (is_neg (bmc_dataset_cmp g d0 ebest)) NoMaster ((master_m-state ops g ppi h).1) (
      if_either (is_pos (bmc_dataset_cmp g d0 ebest)) NoMaster
        (if_either (g.default_ds.number_ports == 1) NoMaster (slave_s1-master ops hooks g ppi ebest)
          (check_boundary-master ops hooks g ppi ebest m h))
        is_master-faulty)

decide_by_ebest-master :
    (ops : TimeOps) (hooks : BmcHooks) (g : Globals) (ppi : ℕ) (ebest : FrgnMaster)
    → slave_only_class g ≡ true
    → NoMaster (decide_by_ebest ops hooks g ppi ebest)
unfolding decide_by_ebest
decide_by_ebest-master ops hooks g ppi ebest h =
    if_either (ltb g.default_ds.clock_quality.clock_class 128) NoMaster
      (decide_low-master ops g ppi (bmc_setup_local_frgn_master g ppi)
        (erbest_or_empty (g.inst ppi)) h)
      (decide_high-master ops hooks g ppi (bmc_setup_local_frgn_master g ppi) ebest
        (erbest_or_empty (g.inst ppi)) h)

slave_only_by-master :
    (ops : TimeOps) (hooks : BmcHooks) (g : Globals) (ppi : ℕ) (e : Option FrgnMaster)
    → NoMaster (slave_only_by ops hooks g ppi e)
unfolding slave_only_by is_master_state
slave_only_by-master ops hooks g ppi none = refl
slave_only_by-master ops hooks g ppi (some m) =
    if_either (is_index g.ebest_idx ppi) NoMaster (slave_s1-master ops hooks g ppi m) refl

by_index-master :
    (ops : TimeOps) (hooks : BmcHooks) (g : Globals) (ppi : ℕ) (e : Option ℕ)
    → slave_only_class g ≡ true
    → NoMaster (decide_by_index ops hooks g ppi e)
unfolding decide_by_index
by_index-master ops hooks g ppi none h = (master_m-state ops g ppi h).0
by_index-master ops hooks g ppi (some i) h =
    decide_by_ebest-master ops hooks g ppi (ebest_record (g.inst i)) h

class_of :
    (g : Globals) → IsSlaveOnly g → g.default_ds.slave_only ≡ false → slave_only_class g ≡ true
class_of g (inl a) b = cc
class_of g (inr a) b = a

-- The state decision never makes a port of a slave-only device (by its option or by its clock class)
-- a master.
pub bmc_state_decision-slave_only :
    (ops : TimeOps) (hooks : BmcHooks) (g : Globals) (ppi : ℕ)
    → IsSlaveOnly g
    → is_master_state (bmc_state_decision ops hooks g ppi).1 ≡ false
unfolding bmc_state_decision decide_slave_only is_master_state
bmc_state_decision-slave_only ops hooks g ppi h =
    if_case
      (same_state (g.inst ppi).state State.faulty
        || same_state (g.inst ppi).state State.initializing)
      NoMaster (λ e. ground arith)
      (λ e.
        if_case g.default_ds.slave_only NoMaster
          (λ s. slave_only_by-master ops hooks g ppi (erbest_record (g.inst ppi)))
          (λ s.
            let c = class_of g h s in
            if_either
              (not (is_some (g.inst ppi).frgn_rec_best)
                && same_state (g.inst ppi).state State.listening)
              NoMaster refl
              (if_either (g.inst ppi).port_ds.master_only NoMaster
                (if_either (is_some g.ebest_idx) NoMaster (master_m-state ops g ppi c).2
                  (master_m-state ops g ppi c).0)
                (by_index-master ops hooks g ppi g.ebest_idx c))))
