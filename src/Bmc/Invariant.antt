-- ===== src/Bmc/Invariant.antt =====
-- What every table of foreign masters satisfies, and that removing and aging records keeps it.
use mathlib.Core.Path.{subst}
use ppsi.Bmc.Compare.{bmc_dataset_cmp}
use ppsi.Bmc.Remove.{InUse, after_removal, bmc_remove_foreign_master-table}
use ppsi.Bmc.Select.{
  bmc_update_erbest_inst, choose_erbest, erbest_of, find_best, flush_without_link, peer_of,
  store_peer,
}
use ppsi.Bmc.Table.{
  age_loop, aged_out, bmc_age_frgn_master, bmc_flush_frgn_master, bmc_remove_foreign_master,
  nr_foreign_records,
}
use ppsi.Ds.{FrgnMaster, Globals, Instance, State, same_state, set_inst}
use ppsi.Prelude.{
  Option, ap, arith, if_case, if_either, if◌then◌else◌, is_neg, ltb, ltb→lt, none, not, refl, some,
  suc, sym, update_self, zero, ℕ, ◌&&◌, ◌+◌, ◌-◌, ◌<◌, ◌||◌, ◌∙◌, ◌≡◌, ◌≤◌,
}

-- No two records in use have the same sender.
abbrev pub Distinct : ℕ → (ℕ → FrgnMaster) → Type 0
Distinct num t =
    (i j : ℕ) → i < num → j < num → (t i).source_port_identity ≡ (t j).source_port_identity → i ≡ j

-- The count is in range, the Erbest is a record in use, and no two records have the same sender.
abbrev pub IsTable : Instance → Type 0
IsTable p =
    (p.frgn_rec_num ≤ nr_foreign_records)
    × InUse p.frgn_rec_num p.frgn_rec_best
    × Distinct p.frgn_rec_num p.frgn_master

after_removal-InUse :
    (idx num left : ℕ) (b : Option ℕ)
    → idx < num
    → left + 1 ≡ num
    → InUse num b
    → InUse left (after_removal idx b)
after_removal-InUse idx num left none hi hl h i e = cc
after_removal-InUse idx num left (some b) hi hl h i e = let lt = h b refl in ground arith

-- Where record `j` of the table without record `idx` was before.
abbrev moved_from : ℕ → ℕ → ℕ
moved_from idx j = if ltb j idx then j else j + 1

-- Removing a record in use keeps the table well-formed.
pub bmc_remove_foreign_master-IsTable :
    (p : Instance) (idx : ℕ)
    → idx < p.frgn_rec_num
    → IsTable p
    → IsTable (bmc_remove_foreign_master p idx)
bmc_remove_foreign_master-IsTable p idx h (hn, hb, hd) =
    let r = bmc_remove_foreign_master-table p idx h hn hb in
    (
      (omega (arith, r.1)),
      λ i e.
          after_removal-InUse idx p.frgn_rec_num (bmc_remove_foreign_master p idx).frgn_rec_num
            p.frgn_rec_best h r.1 hb i (sym r.2 ∙ e),
      λ i j hi hj e.
          let moved = hd (moved_from idx i) (moved_from idx j) (ground arith) (ground arith) (
            ap (λ (m : FrgnMaster). m.source_port_identity) (sym (r.0 i (omega (arith, r.1))))
            ∙ e
            ∙ ap (λ (m : FrgnMaster). m.source_port_identity) (r.0 j (omega (arith, r.1)))) in
          ground arith,
    )

abbrev pub TableAt : ℕ → Globals → Type 0
TableAt ppi g = IsTable (g.inst ppi)

age_loop-IsTable :
    (fuel i : ℕ) (g : Globals) (ppi : ℕ)
    → IsTable (g.inst ppi)
    → IsTable ((age_loop fuel i g ppi).inst ppi)
unfolding age_loop
age_loop-IsTable zero i g ppi h = h
age_loop-IsTable (suc fuel) i g ppi h =
    let p = g.inst ppi in
    if_case (ltb i p.frgn_rec_num) (TableAt ppi)
      (λ e.
        if_either (aged_out g p (p.frgn_master i)) (TableAt ppi)
          (age_loop-IsTable fuel i (set_inst g ppi (bmc_remove_foreign_master p i)) ppi (
            subst IsTable (sym (update_self g.inst ppi (bmc_remove_foreign_master p i)))
              (bmc_remove_foreign_master-IsTable p i (ltb→lt i p.frgn_rec_num e) h)))
          (age_loop-IsTable fuel (i + 1) g ppi h))
      (λ e. h)

-- Aging the records of a port keeps its table well-formed.
pub bmc_age_frgn_master-IsTable :
    (g : Globals) (ppi : ℕ) → TableAt ppi g → TableAt ppi (bmc_age_frgn_master g ppi)
unfolding bmc_age_frgn_master
bmc_age_frgn_master-IsTable g ppi h = age_loop-IsTable (g.inst ppi).frgn_rec_num 0 g ppi h

find_best-bound :
    (n i best : ℕ) (g : Globals) (t : ℕ → FrgnMaster) → best < i → find_best n i best g t < i + n
unfolding find_best
find_best-bound zero i best g t h = omega arith
find_best-bound (suc n) i best g t h =
    let next = if is_neg (bmc_dataset_cmp g (t i) (t best)) then i else best in
    let lt : next < i + 1 = ground arith in
    let rest = find_best-bound n (i + 1) next g t lt in omega (arith, rest)

choose_erbest-InUse :
    (g : Globals) (p : Instance) → 0 < p.frgn_rec_num → InUse p.frgn_rec_num (choose_erbest g p)
unfolding choose_erbest
choose_erbest-InUse g p h i e =
    let bound = find_best-bound (p.frgn_rec_num - 1) 1 0 g p.frgn_master (omega arith) in
    ground arith

-- Whatever the index of the Erbest was before: a table whose link went down keeps an old index until
-- the Erbest is chosen.
IsTableButBest : Instance → Type 0
IsTableButBest p = (p.frgn_rec_num ≤ nr_foreign_records) × Distinct p.frgn_rec_num p.frgn_master

flush-IsTableButBest : (p : Instance) → IsTableButBest p → IsTableButBest (flush_without_link p)
unfolding flush_without_link bmc_flush_frgn_master IsTableButBest
flush-IsTableButBest p h =
    if_either (not p.link_up && ltb 0 p.frgn_rec_num) IsTableButBest
      (omega arith, λ i j hi hj e. omega arith) h

erbest_of-IsTable : (g : Globals) (p : Instance) → IsTableButBest p → IsTable (erbest_of g p)
unfolding erbest_of bmc_flush_frgn_master IsTableButBest
erbest_of-IsTable g p (hn, hd) =
    if_case (ltb 0 p.frgn_rec_num) IsTable
      (λ e.
        if_either (same_state p.state State.faulty || same_state p.state State.disabled) IsTable
          (omega arith, (λ i e. cc), λ i j hi hj e. omega arith)
          (hn, choose_erbest-InUse g p (ltb→lt 0 p.frgn_rec_num e), hd))
      (λ e. (hn, (λ i e. cc), hd))

store_peer-IsTable : (p : Instance) (b : Option ℕ) → IsTable p → IsTable (peer_of p b)
unfolding peer_of
store_peer-IsTable p none h = h
store_peer-IsTable p (some best) h = h

-- Choosing the Erbest of a port makes its table well-formed, if its records were: the index is then
-- that of a record in use.
pub bmc_update_erbest_inst-IsTable :
    (g : Globals) (ppi : ℕ)
    → (g.inst ppi).frgn_rec_num ≤ nr_foreign_records
    → Distinct (g.inst ppi).frgn_rec_num (g.inst ppi).frgn_master
    → TableAt ppi (bmc_update_erbest_inst g ppi)
unfolding bmc_update_erbest_inst store_peer IsTableButBest
bmc_update_erbest_inst-IsTable g ppi hn hd =
    let flushed = flush_without_link (g.inst ppi) in
    let g1 = set_inst g ppi flushed in
    let chosen = erbest_of g1 (g1.inst ppi) in
    let ok : IsTableButBest (g1.inst ppi) =
      subst IsTableButBest (sym (update_self g.inst ppi flushed))
        (flush-IsTableButBest (g.inst ppi) (hn, hd)) in
    subst IsTable (sym (update_self g1.inst ppi (peer_of chosen chosen.frgn_rec_best)))
      (store_peer-IsTable chosen chosen.frgn_rec_best (erbest_of-IsTable g1 (g1.inst ppi) ok))
