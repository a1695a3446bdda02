-- ===== src/Bmc/Apply.antt =====
-- bmc_state_descision_epc and bmc_apply_state_descision: from the decision to the next state.
use ppsi.Bmc.DataSets.{bmc_m2}
use ppsi.Bmc.Decision.{bmc_state_decision, is_master_state, is_slave_state}
use ppsi.Bmc.Select.{bmc_check_frgn_master}
use ppsi.Bmc.Slave.{bmc_s1}
use ppsi.Ds.{BmcHooks, Globals, State, TimeOps, same_state}
use ppsi.Prelude.{Bool, false, if◌then◌else◌, ltb, none, not, some, suc, zero, ℕ, ◌&&◌, ◌+◌, ◌||◌}

-- Is a port slave or uncalibrated? From port `i` on with `n` left.
unfoldable pub any_slave : ℕ → ℕ → Globals → Bool
any_slave zero i g = false
any_slave (suc n) i g = is_slave_state (g.inst i).state || any_slave n (i + 1) g

-- Clause 17.6.5.4: only the data sets change when the ports are configured from outside.
unfoldable pub bmc_state_descision_epc : TimeOps → BmcHooks → Globals → ℕ → Globals × State
bmc_state_descision_epc ops hooks g ppi =
    let p = g.inst ppi in
    let g' =
      if is_slave_state p.state
      then (if ltb 0 p.frgn_rec_num then bmc_s1 ops hooks g ppi (p.frgn_master 0) else g)
      else if is_master_state p.state || same_state p.state State.passive
      then (if any_slave g.default_ds.number_ports 0 g then g else bmc_m2 ops g)
      else g in
    (g', (g'.inst ppi).desired_state)

-- The decision before the extension's hook.
unfoldable pub decide : TimeOps → BmcHooks → Globals → ℕ → Globals × State
decide ops hooks g ppi =
    let p = g.inst ppi in
    if not p.link_up
    then (g, State.initializing)
    else if g.default_ds.external_port_configuration_enabled
    then bmc_state_descision_epc ops hooks g ppi
    else if ltb 1 g.default_ds.number_ports && bmc_check_frgn_master g ppi
    then (g, State.passive)
    else bmc_state_decision ops hooks g ppi

-- The hook is handed the instance's next_state, and its answer replaces the decision. With external
-- port configuration the port keeps its state.
unfoldable pub bmc_apply_state_descision : TimeOps → BmcHooks → Globals → ℕ → Globals × State
bmc_apply_state_descision ops hooks g ppi =
    let (g1, next) = decide ops hooks g ppi in
    let (g2, next2) : Globals × State = elim hooks.state_decision as (λ h. Globals × State) [
      | none ↦ (g1, next)
      | some hook ↦ hook g1 ppi (g1.inst ppi).next_state
    ] in
    if g2.default_ds.external_port_configuration_enabled
    then (g2, (g2.inst ppi).state)
    else (g2, next2)
