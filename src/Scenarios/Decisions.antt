-- ===== src/Scenarios/Decisions.antt =====
-- The state decision for a port with a master and for one without.
use ppsi.Bmc.Choice.{bmc_state_decision-one_slave}
use ppsi.Bmc.Compare.{
  are_qualified, bmc_dataset_cmp, bmc_gm_cmp, bmc_idcmp, by_field, gm_cmp_qualified, is_ebest,
  is_ebest_of, is_qualified, memcmp,
}
use ppsi.Bmc.DataSets.{flag}
use ppsi.Bmc.Decision.{
  bmc_setup_local_frgn_master, bmc_state_decision, check_boundary_clk, decide_by_ebest,
  decide_by_index, decide_high_class, ebest_record, is_master_state, is_slave_state, slave_end,
  slave_only_class, slave_s1,
}
use ppsi.Bmc.Safety.{bmc_state_decision-slave_only}
use ppsi.Bmc.Slave.{bmc_s1, s1_flags, s1_parent, s1_utc}
use ppsi.Ds.{Globals}
use ppsi.Prelude.{arith, false, inr, is_index, refl, true, zero, ◌≡◌}
use ppsi.Scenarios.Device.{device_quality, no_hooks, silent_ops, with_masters}
use ppsi.Timeout.Defs.{pp_timeout_disable, pp_timeout_set, pp_timeout_set_tmo, set_counter}

abbrev slave_only_device : Globals
slave_only_device = record with_masters {
  default_ds = record (with_masters.default_ds) {
    clock_quality = record device_quality { clock_class = 255 };
  };
}

slave_only_example :
    is_master_state (bmc_state_decision silent_ops no_hooks slave_only_device 1).1 ≡ false
slave_only_example =
    bmc_state_decision-slave_only silent_ops no_hooks slave_only_device 1
      (inr (unfold slave_only_class in refl))

becomes_slave : is_slave_state (bmc_state_decision silent_ops no_hooks with_masters 0).1 ≡ true
unfolding bmc_state_decision is_slave_state decide_by_index decide_by_ebest decide_high_class
    bmc_dataset_cmp bmc_idcmp memcmp bmc_setup_local_frgn_master ebest_record bmc_gm_cmp
    are_qualified is_qualified gm_cmp_qualified by_field check_boundary_clk slave_s1 slave_end
    is_ebest is_ebest_of bmc_s1 pp_timeout_disable pp_timeout_set pp_timeout_set_tmo set_counter
    s1_flags s1_utc flag s1_parent
becomes_slave = refl

one_slave_example : (zero ≡ 0) × (is_index with_masters.ebest_idx 0 ≡ true)
one_slave_example =
    bmc_state_decision-one_slave silent_ops no_hooks with_masters with_masters 0 0 refl
      (λ e. omega (arith, e)) (λ e. omega (arith, e)) becomes_slave becomes_slave
