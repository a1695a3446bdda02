-- ===== src/States/Lost.antt =====
-- A port that no longer hears Announce messages: st_com_check_announce_receive_timeout
-- (proto-standard/common-fun.c).
use mathlib.Core.Path.{subst}
use ppsi.Bmc.DataSets.{bmc_m1, bmc_m3, m1_arb_offset, m1_parent, m1_ptp_offset, m1_source}
use ppsi.Bmc.Invariant.{IsTable}
use ppsi.Bmc.Table.{bmc_flush_erbest}
use ppsi.Ds.{
  ClockIdentity, DefaultDs, FrgnMaster, Globals, Instance, State, TimeOps, to_ann_receipt,
}
use ppsi.Prelude.{
  ap, eqb_ℤ, if_either, if◌then◌else◌, is_pos, ltb, none, refl, some, sym, true, update_self, ℕ,
  ◌&&◌, ◌+◌, ◌∙◌, ◌≡◌,
}
use ppsi.States.Common.{
  is_grand_master, lose_master, set_next_state, st_com_check_announce_receive_timeout,
}
use ppsi.States.Forgotten.{Without, bmc_flush_erbest-Flushed, bmc_flush_erbest-Without}
use ppsi.States.Tables.{
  SameTable, SameTables, SameTables-trans, bmc_m1-SameTables, bmc_m3-SameTables,
  is_grand_master_same, pp_timeout_reset-SameTables, set_inst-SameTables,
}
use ppsi.States.Waiting.{next_state_self, read_if}
use ppsi.Timeout.Defs.{
  pp_get_counter, pp_timeout, pp_timeout_disable, pp_timeout_set, pp_timeout_set_tmo, set_counter,
  timeout_disable_value,
}
use ppsi.Timeout.Reset.{
  is_randomized, pp_timeout_reset, pp_timeout_reset_n, reset_randomized, scale,
}

reset-default_ds :
    (g : Globals) (ppi index : ℕ) → (pp_timeout_reset g ppi index).default_ds ≡ g.default_ds
unfolding pp_timeout_reset pp_timeout_reset_n reset_randomized pp_timeout_set_tmo set_counter
reset-default_ds g ppi index =
    let t = pp_get_counter g ppi index in
    if_either (eqb_ℤ t.init_value_ms timeout_disable_value)
      (λ (h : Globals). h.default_ds ≡ g.default_ds) refl
      (if_either (is_randomized t.which_rand && is_pos (scale t.init_value_ms 1))
        (λ (h : Globals). h.default_ds ≡ g.default_ds) refl refl)

lose_master-next_state :
    (ops : TimeOps) (g : Globals) (ppi : ℕ)
    → ((lose_master ops g ppi).inst ppi).next_state
      ≡ (if g.default_ds.slave_only then State.listening else State.master)
unfolding lose_master
lose_master-next_state ops g ppi =
    read_if g.default_ds.slave_only (λ (h : Globals). (h.inst ppi).next_state)
      (next_state_self g ppi State.listening)
      (next_state_self (if is_grand_master g then bmc_m1 ops g else bmc_m3 g) ppi State.master)

lose_master-SameTables :
    (ops : TimeOps) (g : Globals) (ppi : ℕ) → SameTables g (lose_master ops g ppi)
unfolding lose_master
lose_master-SameTables ops g ppi =
    let g1 = if is_grand_master g then bmc_m1 ops g else bmc_m3 g in
    if_either g.default_ds.slave_only (SameTables g)
      (set_inst-SameTables g ppi (record (g.inst ppi) { next_state = State.listening })
        (refl, refl, refl, refl))
      (SameTables-trans g g1 (set_next_state g1 ppi State.master)
        (if_either (is_grand_master g) (SameTables g) (bmc_m1-SameTables ops g)
          (bmc_m3-SameTables g))
        (set_inst-SameTables g1 ppi (record (g1.inst ppi) { next_state = State.master })
          (refl, refl, refl, refl)))

m1-grandmaster :
    (ops : TimeOps) (g : Globals)
    → (bmc_m1 ops g).parent_ds.grandmaster_identity ≡ g.default_ds.clock_identity
unfolding bmc_m1 m1_source m1_parent m1_ptp_offset m1_arb_offset
m1-grandmaster ops g =
    let P = λ (h : Globals). h.parent_ds.grandmaster_identity ≡ g.default_ds.clock_identity in
    if_either g.time_properties_ds.ptp_timescale P (if_either _ P refl refl) refl

m3-grandmaster :
    (g : Globals) → (bmc_m3 g).parent_ds.grandmaster_identity ≡ g.parent_ds.grandmaster_identity
unfolding bmc_m3 pp_timeout_disable pp_timeout_set pp_timeout_set_tmo set_counter
m3-grandmaster g =
    if_either (ltb 0 g.rt_opts.gm_delay_to_gen_pps_sec)
      (λ (h : Globals). h.parent_ds.grandmaster_identity ≡ g.parent_ds.grandmaster_identity) refl
      refl

-- The grandmaster that the data sets name when the master is lost
abbrev pub grandmaster_after : Globals → ClockIdentity
grandmaster_after g =
    if g.default_ds.slave_only
    then g.parent_ds.grandmaster_identity
    else if is_grand_master g
    then g.default_ds.clock_identity
    else g.parent_ds.grandmaster_identity

lose_master-grandmaster :
    (ops : TimeOps) (g : Globals) (ppi : ℕ)
    → (lose_master ops g ppi).parent_ds.grandmaster_identity ≡ grandmaster_after g
unfolding lose_master
lose_master-grandmaster ops g ppi =
    let name = λ (h : Globals). h.parent_ds.grandmaster_identity in
    read_if g.default_ds.slave_only name refl
      (read_if (is_grand_master g) name (m1-grandmaster ops g) (m3-grandmaster g))

reset-parent_ds :
    (g : Globals) (ppi index : ℕ) → (pp_timeout_reset g ppi index).parent_ds ≡ g.parent_ds
unfolding pp_timeout_reset pp_timeout_reset_n reset_randomized pp_timeout_set_tmo set_counter
reset-parent_ds g ppi index =
    let t = pp_get_counter g ppi index in
    let P = λ (h : Globals). h.parent_ds ≡ g.parent_ds in
    if_either (eqb_ℤ t.init_value_ms timeout_disable_value) P refl
      (if_either (is_randomized t.which_rand && is_pos (scale t.init_value_ms 1)) P refl refl)

pub record Lost (g : Globals) (ppi best : ℕ) (g' : Globals) : Type 0 where
  pub next_is :
      (g'.inst ppi).next_state ≡ (if g.default_ds.slave_only then State.listening else State.master)
  pub no_best : (g'.inst ppi).frgn_rec_best ≡ none
  pub without : Without (g.inst ppi).frgn_rec_num (g.inst ppi).frgn_master best (g'.inst ppi)
  pub grandmaster_is : g'.parent_ds.grandmaster_identity ≡ grandmaster_after g

IsTable-same : (p q : Instance) → SameTable p q → IsTable p → IsTable q
IsTable-same p q same h = rw same.0 (rw same.1 (rw same.2 h))

Without-same :
    (p q r : Instance) (best : ℕ)
    → SameTable p q
    → Without q.frgn_rec_num q.frgn_master best r
    → Without p.frgn_rec_num p.frgn_master best r
Without-same p q r best same w = record {
  one_less = w.one_less ∙ same.1;
  gone = λ j h e.
      w.gone j h (e ∙ ap (λ (t : ℕ → FrgnMaster). (t best).source_port_identity) (sym same.0));
  before_it = λ j h. w.before_it j h ∙ ap (λ (t : ℕ → FrgnMaster). t j) same.0;
  behind_it = λ j l h. w.behind_it j l h ∙ ap (λ (t : ℕ → FrgnMaster). t (j + 1)) same.0;
}

after_reset :
    (ops : TimeOps) (g : Globals) (ppi : ℕ)
    → grandmaster_after (pp_timeout_reset g ppi to_ann_receipt) ≡ grandmaster_after g
after_reset ops g ppi =
    let g0 = pp_timeout_reset g ppi to_ann_receipt in
    let ds = reset-default_ds g ppi to_ann_receipt in
    let parent = reset-parent_ds g ppi to_ann_receipt in
    let same = pp_timeout_reset-SameTables g ppi to_ann_receipt in
    λ i.
      if (ds i).slave_only
      then (parent i).grandmaster_identity
      else if is_grand_master_same g g0 same ds i
      then (ds i).clock_identity
      else (parent i).grandmaster_identity

-- When the announce receipt timeout of a port expires whose table is well-formed and has an Erbest, the
-- next state is master, or listening on a slave-only device. The Erbest's record is gone from the table,
-- no record in use has its sender any more, every other record is still there, in its order, and there is
-- no Erbest. The data sets name the device itself as the grandmaster if it is not slave-only, a port of it
-- acts as a master and none as a slave; else the grandmaster that they name stays.
pub announce_timeout-Lost :
    (ops : TimeOps) (g : Globals) (ppi best : ℕ)
    → pp_timeout g ppi to_ann_receipt ≡ true
    → IsTable (g.inst ppi)
    → (g.inst ppi).frgn_rec_best ≡ some best
    → Lost g ppi best (st_com_check_announce_receive_timeout ops g ppi)
unfolding st_com_check_announce_receive_timeout
announce_timeout-Lost ops g ppi best expired table is =
    let g0 = pp_timeout_reset g ppi to_ann_receipt in
    let g1 = lose_master ops g0 ppi in
    let p1 = g1.inst ppi in
    let flushed = bmc_flush_erbest-Flushed p1 in
    let self = update_self g1.inst ppi (bmc_flush_erbest p1) in
    let same : SameTable (g.inst ppi) p1 =
      SameTables-trans g g0 g1 (pp_timeout_reset-SameTables g ppi to_ann_receipt)
        (lose_master-SameTables ops g0 ppi) ppi in
    rw expired (record {
      next_is =
          ap (λ (p : Instance). p.next_state) self
          ∙ flushed.next_is
          ∙ lose_master-next_state ops g0 ppi
          ∙ ap (λ (d : DefaultDs). if d.slave_only then State.listening else State.master)
              (reset-default_ds g ppi to_ann_receipt);
      no_best = ap (λ (p : Instance). p.frgn_rec_best) self ∙ flushed.no_best;
      without = subst (Without (g.inst ppi).frgn_rec_num (g.inst ppi).frgn_master best) (sym self) (
          Without-same (g.inst ppi) p1 (bmc_flush_erbest p1) best same (
            bmc_flush_erbest-Without p1 best (IsTable-same (g.inst ppi) p1 same table)
              (same.2 ∙ is)));
      grandmaster_is = lose_master-grandmaster ops g0 ppi ∙ after_reset ops g ppi;
    })
