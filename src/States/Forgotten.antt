-- ===== src/States/Forgotten.antt =====
-- bmc_flush_erbest: the Erbest and its record leave the table of foreign masters.
use mathlib.Core.Path.{subst}
use ppsi.Bmc.Invariant.{IsTable}
use ppsi.Bmc.Remove.{bmc_remove_foreign_master-table}
use ppsi.Bmc.Table.{
  bmc_flush_erbest, bmc_remove_foreign_master, nr_foreign_records, remove_loop, remove_round,
}
use ppsi.Ds.{FrgnMaster, Instance}
use ppsi.Prelude.{
  Option, ap, arith, if_either, if◌then◌else◌, is_index, ltb, none, refl, some, suc, sym, true,
  zero, ℕ, ◌+◌, ◌-◌, ◌<◌, ◌∙◌, ◌≡◌, ◌≢◌, ◌≤◌,
}

-- The table `t` of `num` records without record `best`: the others are still there, and its sender is not.
pub record Without (num : ℕ) (t : ℕ → FrgnMaster) (best : ℕ) (q : Instance) : Type 0 where
  pub one_less : q.frgn_rec_num + 1 ≡ num
  pub gone :
      (j : ℕ)
      → j < q.frgn_rec_num
      → (q.frgn_master j).source_port_identity ≢ (t best).source_port_identity
  pub before_it : (j : ℕ) → j < best → q.frgn_master j ≡ t j
  pub behind_it : (j : ℕ) → best ≤ j → j < q.frgn_rec_num → q.frgn_master j ≡ t (j + 1)

flush_lem :
    (p : Instance) (best : ℕ)
    → p.frgn_rec_best ≡ some best
    → best < p.frgn_rec_num
    → bmc_flush_erbest p ≡ record (bmc_remove_foreign_master p best) { frgn_rec_best = none }
unfolding bmc_flush_erbest
flush_lem p best is low =
    let in_use : ltb best p.frgn_rec_num ≡ true = ground arith in
    ap
      (λ (o : Option ℕ). elim o as (λ b. Instance) [
        | none ↦ record p { frgn_rec_best = none }
        | some i ↦ record (if ltb i p.frgn_rec_num then bmc_remove_foreign_master p i else p) {
          frgn_rec_best = none;
        }
      ])
      is
    ∙ rw in_use refl

pub bmc_flush_erbest-Without :
    (p : Instance) (best : ℕ)
    → IsTable p
    → p.frgn_rec_best ≡ some best
    → Without p.frgn_rec_num p.frgn_master best (bmc_flush_erbest p)
bmc_flush_erbest-Without p best (most, in_use, distinct) is =
    let low = in_use best is in
    let q = bmc_remove_foreign_master p best in
    let (table, num, e) = bmc_remove_foreign_master-table p best low most in_use in
    let moved = λ (j : ℕ). λ (h : j < q.frgn_rec_num). table j (omega (arith, num)) in
    subst (Without p.frgn_rec_num p.frgn_master best) (sym (flush_lem p best is low)) (record {
      one_less = num;
      gone = λ j h same.
          let k : ℕ = if ltb j best then j else j + 1 in
          let met : k ≡ best =
            distinct k best (ground (arith, num)) low
              (ap (λ (r : FrgnMaster). r.source_port_identity) (sym (moved j h)) ∙ same) in
          ground (arith, met);
      before_it = λ j h.
          let place : (if ltb j best then j else j + 1) ≡ j = ground arith in
          moved j (omega (arith, num)) ∙ ap p.frgn_master place;
      behind_it = λ j l h.
          let place : (if ltb j best then j else j + 1) ≡ j + 1 = ground arith in
          moved j h ∙ ap p.frgn_master place;
    })

loop-next_state : (n idx i : ℕ) (p : Instance) → (remove_loop n idx i p).next_state ≡ p.next_state
unfolding remove_loop remove_round
loop-next_state zero idx i p = refl
loop-next_state (suc n) idx i p =
    loop-next_state n idx (i + 1) (remove_round idx i p)
    ∙ if_either (ltb (idx + 1) p.frgn_rec_num) (λ (q : Instance). q.next_state ≡ p.next_state) refl
        refl

remove-next_state :
    (p : Instance) (idx : ℕ) → (bmc_remove_foreign_master p idx).next_state ≡ p.next_state
unfolding bmc_remove_foreign_master
remove-next_state p idx =
    loop-next_state (nr_foreign_records - idx) idx idx
      (record p { frgn_rec_best = if is_index p.frgn_rec_best idx then none else p.frgn_rec_best })

-- Only the table and the Erbest change.
pub record Flushed (p q : Instance) : Type 0 where
  pub next_is : q.next_state ≡ p.next_state
  pub no_best : q.frgn_rec_best ≡ none

flush_by :
    (p : Instance) (best : Option ℕ)
    → Flushed p (elim best as (λ b. Instance) [
      | none ↦ record p { frgn_rec_best = none }
      | some i ↦ record (if ltb i p.frgn_rec_num then bmc_remove_foreign_master p i else p) {
        frgn_rec_best = none;
      }
    ])
flush_by p none = record { next_is = refl; no_best = refl }
flush_by p (some i) = record {
  next_is =
      if_either (ltb i p.frgn_rec_num) (λ (q : Instance). q.next_state ≡ p.next_state)
        (remove-next_state p i) refl;
  no_best = refl;
}

pub bmc_flush_erbest-Flushed : (p : Instance) → Flushed p (bmc_flush_erbest p)
unfolding bmc_flush_erbest
bmc_flush_erbest-Flushed p = flush_by p p.frgn_rec_best
