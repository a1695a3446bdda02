-- ===== src/Bmc/Select.antt =====
-- Erbest and Ebest: the best foreign master of a port and of the device (figure 25 of the standard).
use mathlib.Core.Option
use ppsi.Bmc.Compare.{bmc_dataset_cmp, bmc_idcmp, bmc_pidcmp, is_qualified}
use ppsi.Bmc.Table.{bmc_age_frgn_masters, bmc_flush_frgn_master}
use ppsi.Ds.{FrgnMaster, Globals, Instance, PortIdentity, State, same_state, set_inst}
use ppsi.Prelude.{
  Bool, Option, false, if◌then◌else◌, is_neg, is_zero, ltb, none, not, some, suc, true, zero, ℕ,
  ◌&&◌, ◌+◌, ◌-◌, ◌==◌, ◌||◌,
}

-- The loop that finds the best record, from record `i` on with `n` left.
unfoldable pub find_best : ℕ → ℕ → ℕ → Globals → (ℕ → FrgnMaster) → ℕ
find_best zero i best g table = best
find_best (suc n) i best g table =
    find_best n (i + 1) (if is_neg (bmc_dataset_cmp g (table i) (table best)) then i else best) g
      table

-- The new frgn_rec_best of a port with foreign masters that is neither faulty nor disabled.
unfoldable pub choose_erbest : Globals → Instance → Option ℕ
choose_erbest g p =
    let best = find_best (p.frgn_rec_num - 1) 1 0 g p.frgn_master in
    if g.default_ds.external_port_configuration_enabled
    then some 0
    else if is_qualified g (p.frgn_master best)
    then some best
    else none

-- The erbest of the instance `p`; the globals are read for the Ebest of the round before.
unfoldable pub erbest_of : Globals → Instance → Instance
erbest_of g p =
    if ltb 0 p.frgn_rec_num
    then (if same_state p.state State.faulty || same_state p.state State.disabled
        then record (bmc_flush_frgn_master p) { frgn_rec_best = none }
        else record p { frgn_rec_best = choose_erbest g p })
    else record p { frgn_rec_best = none }

unfoldable pub peer_of : Instance → Option ℕ → Instance
peer_of p none = p
peer_of p (some best) = record p { active_peer = (p.frgn_master best).peer_mac }

-- The peer's MAC address goes with the choice.
unfoldable pub store_peer : Instance → Instance
store_peer p = peer_of p p.frgn_rec_best

-- A port whose link is down first loses its table.
unfoldable pub flush_without_link : Instance → Instance
flush_without_link p = if not p.link_up && ltb 0 p.frgn_rec_num then bmc_flush_frgn_master p else p

unfoldable pub bmc_update_erbest_inst : Globals → ℕ → Globals
bmc_update_erbest_inst g ppi =
    let g = set_inst g ppi (flush_without_link (g.inst ppi)) in
    set_inst g ppi (store_peer (erbest_of g (g.inst ppi)))

-- The loop of bmc_update_erbest, from port `i` on with `n` left.
unfoldable pub update_erbest_loop : ℕ → ℕ → Globals → Globals
update_erbest_loop zero i g = g
update_erbest_loop (suc n) i g = update_erbest_loop n (i + 1) (bmc_update_erbest_inst g i)

unfoldable pub bmc_update_erbest : Globals → Globals
bmc_update_erbest g = update_erbest_loop g.default_ds.number_ports 0 g

-- The Erbest record of a port.
unfoldable pub erbest_record : Instance → Option FrgnMaster
erbest_record p = Option.map p.frgn_master p.frgn_rec_best

-- Is the port's Erbest `m` to replace that of the port `best`? The second clause is not met: `best`
-- always has an Erbest.
unfoldable pub replaces : Globals → FrgnMaster → Instance → Bool
replaces g m best = elim (erbest_record best) [
  | some b ↦ is_neg (bmc_dataset_cmp g m b) || (best.frgn_rec_num == 0)
  | none ↦ best.frgn_rec_num == 0
]

-- One round of the loop of bmc_update_ebest, on port `i`.
unfoldable pub ebest_round : Globals → ℕ → Option ℕ → Option ℕ
ebest_round g i best = elim (erbest_record (g.inst i)) [
  | none ↦ best
  | some m ↦ elim best as (λ b. Option ℕ) [
    | none ↦ some i
    | some b ↦ if replaces g m (g.inst b) then some i else some b
  ]
]

unfoldable pub ebest_loop : ℕ → ℕ → Globals → Option ℕ → Option ℕ
ebest_loop zero i g best = best
ebest_loop (suc n) i g best = ebest_loop n (i + 1) g (ebest_round g i best)

abbrev pub same_index : Option ℕ → Option ℕ → Bool
same_index none none = true
same_index none (some b) = false
same_index (some a) none = false
same_index (some a) (some b) = a == b

unfoldable pub bmc_update_ebest : Globals → Globals
bmc_update_ebest g =
    let best = ebest_loop g.default_ds.number_ports 0 g none in
    record g {
      ebest_idx = best;
      ebest_updated = if same_index g.ebest_idx best then g.ebest_updated else true;
    }

-- Is a port with a link initializing? From port `i` on with `n` left.
unfoldable pub any_initializing : ℕ → ℕ → Globals → Bool
any_initializing zero i g = false
any_initializing (suc n) i g =
    ((g.inst i).link_up && same_state (g.inst i).state State.initializing)
    || any_initializing n (i + 1) g

unfoldable pub bmc_any_port_initializing : Globals → Bool
bmc_any_port_initializing g = any_initializing g.default_ds.number_ports 0 g

-- INST(ppg,i)->bmca_execute=1 for every port, from port `i` on with `n` left
unfoldable pub trigger_loop : ℕ → ℕ → Globals → Globals
trigger_loop zero i g = g
trigger_loop (suc n) i g =
    trigger_loop n (i + 1) (set_inst g i (record (g.inst i) { bmca_execute = true }))

-- bmc_calculate_ebest; `update_quality` is bmc_update_clock_quality
unfoldable pub bmc_calculate_ebest : (Globals → Globals) → Globals → Globals
bmc_calculate_ebest update_quality g =
    let g1 = update_quality g in
    let external = g1.default_ds.external_port_configuration_enabled in
    let g2 = if external then g1 else bmc_age_frgn_masters g1 in
    let g3 = if external then g2 else bmc_update_ebest (bmc_update_erbest g2) in
    if bmc_any_port_initializing g2 then g2 else trigger_loop g3.default_ds.number_ports 0 g3

unfoldable pub bmc_is_erbest : Instance → PortIdentity → Bool
bmc_is_erbest p pid = ltb 0 p.frgn_rec_num && (elim p.frgn_rec_best [
  | none ↦ false
  | some best ↦ is_zero (bmc_pidcmp (p.frgn_master best).source_port_identity pid)
])

-- The loop of bmc_check_frgn_master: a better port of the same clock among the records from `i` on.
unfoldable pub check_loop : ℕ → ℕ → Globals → Instance → Bool
check_loop zero i g p = false
check_loop (suc n) i g p =
    let pid = (p.frgn_master i).source_port_identity in
    (is_zero (bmc_idcmp pid.clock_identity g.default_ds.clock_identity)
      && is_neg (bmc_pidcmp pid p.port_ds.port_identity))
    || check_loop n (i + 1) g p

unfoldable pub bmc_check_frgn_master : Globals → ℕ → Bool
bmc_check_frgn_master g ppi = check_loop (g.inst ppi).frgn_rec_num 0 g (g.inst ppi)
