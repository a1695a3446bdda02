-- ===== src/Bmc/Remove.antt =====
-- Removing a foreign master closes the gap and keeps the Erbest on its record.
use mathlib.Core.Path.{subst}
use ppsi.Bmc.Table.{bmc_remove_foreign_master, nr_foreign_records, remove_loop, remove_round}
use ppsi.Ds.{Instance}
use ppsi.Prelude.{
  Bool-cases, Option, ap, arith, if◌then◌else◌, inl, inr, is_index, leb, ltb, none, refl, some, suc,
  sym, zero, ℕ, ◌&&◌, ◌+◌, ◌-◌, ◌<◌, ◌==◌, ◌∙◌, ◌≡◌, ◌≤◌,
}

-- What a round that moves a record down does to the table, the count and the index of the Erbest.
round_table :
    (idx i : ℕ) (p : Instance) (j : ℕ)
    → idx + 1 < p.frgn_rec_num
    → (remove_round idx i p).frgn_master j
      ≡ (if j == i then p.frgn_master (i + 1) else p.frgn_master j)
unfolding remove_round
round_table idx i p j h = ground arith

round_num : (idx i : ℕ) (p : Instance) → (remove_round idx i p).frgn_rec_num ≡ p.frgn_rec_num
unfolding remove_round
round_num idx i p = ground arith

round_best :
    (idx i : ℕ) (p : Instance)
    → idx + 1 < p.frgn_rec_num
    → (remove_round idx i p).frgn_rec_best
      ≡ (if is_index p.frgn_rec_best (i + 1) then some i else p.frgn_rec_best)
unfolding remove_round
round_best idx i p h = ground arith

shifted_table :
    (n idx i : ℕ) (p : Instance) (j : ℕ)
    → idx + 1 < p.frgn_rec_num
    → (remove_loop n idx i p).frgn_master j
      ≡ (if leb i j && ltb j (i + n) then p.frgn_master (j + 1) else p.frgn_master j)
unfolding remove_loop
shifted_table zero idx i p j h = ground arith
shifted_table (suc n) idx i p j h =
    let num = round_num idx i p in
    let ih =
      shifted_table n idx (i + 1) (remove_round idx i p) j (subst (λ k. idx + 1 < k) (sym num) h) in
    let here = round_table idx i p j h in let next = round_table idx i p (j + 1) h in ground arith

shifted_num : (n idx i : ℕ) (p : Instance) → (remove_loop n idx i p).frgn_rec_num ≡ p.frgn_rec_num
unfolding remove_loop
shifted_num zero idx i p = refl
shifted_num (suc n) idx i p = shifted_num n idx (i + 1) (remove_round idx i p) ∙ round_num idx i p

-- Where the index of the Erbest goes when record `i` to `i + n - 1` take over their successors.
abbrev shift_index : ℕ → ℕ → Option ℕ → Option ℕ
shift_index n i none = none
shift_index n i (some b) = if ltb i b && leb b (i + n) then some (b - 1) else some b

shift_step :
    (n i : ℕ) (b : Option ℕ)
    → shift_index n (i + 1) (if is_index b (i + 1) then some i else b) ≡ shift_index (suc n) i b
shift_step n i none = refl
shift_step n i (some b) = ground arith

shift_zero : (i : ℕ) (b : Option ℕ) → b ≡ shift_index 0 i b
shift_zero i none = refl
shift_zero i (some b) = ground arith

shifted_best :
    (n idx i : ℕ) (p : Instance)
    → idx + 1 < p.frgn_rec_num
    → (remove_loop n idx i p).frgn_rec_best ≡ shift_index n i p.frgn_rec_best
unfolding remove_loop
shifted_best zero idx i p h = shift_zero i p.frgn_rec_best
shifted_best (suc n) idx i p h =
    let num = round_num idx i p in
    let ih =
      shifted_best n idx (i + 1) (remove_round idx i p) (subst (λ k. idx + 1 < k) (sym num) h) in
    let here = round_best idx i p h in
    ih ∙ ap (shift_index n (i + 1)) here ∙ shift_step n i p.frgn_rec_best

clear_round :
    (idx i : ℕ) (p : Instance) (j : ℕ)
    → p.frgn_rec_num ≤ idx + 1
    → j < i
    → (remove_round idx i p).frgn_master j ≡ p.frgn_master j
unfolding remove_round
clear_round idx i p j h hj = ground arith

-- A round without a successor for the removed record clears record `i`.
cleared_table :
    (n idx i : ℕ) (p : Instance) (j : ℕ)
    → p.frgn_rec_num ≤ idx + 1
    → j < i
    → (remove_loop n idx i p).frgn_master j ≡ p.frgn_master j
unfolding remove_loop
cleared_table zero idx i p j h hj = refl
cleared_table (suc n) idx i p j h hj =
    cleared_table n idx (i + 1) (remove_round idx i p) j
      (subst (λ k. k ≤ idx + 1) (sym (round_num idx i p)) h) (omega arith)
    ∙ clear_round idx i p j h hj

clear_round_best :
    (idx i : ℕ) (p : Instance)
    → p.frgn_rec_num ≤ idx + 1
    → (remove_round idx i p).frgn_rec_best ≡ p.frgn_rec_best
unfolding remove_round
clear_round_best idx i p h = ground arith

cleared_best :
    (n idx i : ℕ) (p : Instance)
    → p.frgn_rec_num ≤ idx + 1
    → (remove_loop n idx i p).frgn_rec_best ≡ p.frgn_rec_best
unfolding remove_loop
cleared_best zero idx i p h = refl
cleared_best (suc n) idx i p h =
    cleared_best n idx (i + 1) (remove_round idx i p)
      (subst (λ k. k ≤ idx + 1) (sym (round_num idx i p)) h)
    ∙ clear_round_best idx i p h

-- Where the index of the Erbest goes when record `idx` is removed.
abbrev pub after_removal : ℕ → Option ℕ → Option ℕ
after_removal idx none = none
after_removal idx (some b) = if b == idx then none else if ltb idx b then some (b - 1) else some b

-- An index that names a record in use, if there is one.
abbrev pub InUse : ℕ → Option ℕ → Type 0
InUse num b = (i : ℕ) → b ≡ some i → i < num

-- The Erbest is forgotten when its record is removed.
abbrev without_best : Instance → ℕ → Instance
without_best p idx = record p {
  frgn_rec_best = if is_index p.frgn_rec_best idx then none else p.frgn_rec_best;
}

loop_table :
    (p : Instance) (idx j : ℕ)
    → idx < p.frgn_rec_num
    → p.frgn_rec_num ≤ nr_foreign_records
    → j + 1 < p.frgn_rec_num
    → (remove_loop (nr_foreign_records - idx) idx idx p).frgn_master j
      ≡ p.frgn_master (if ltb j idx then j else j + 1)
loop_table p idx j h hn hj = elim (Bool-cases (ltb (idx + 1) p.frgn_rec_num)) [
  | inl e ↦
      let t = shifted_table (nr_foreign_records - idx) idx idx p j (ground arith) in ground arith
  | inr e ↦
      let t = cleared_table (nr_foreign_records - idx) idx idx p j (ground arith) (ground arith) in
      ground arith
]

shift_removed :
    (n i num : ℕ) (b : Option ℕ)
    → num ≤ i + n
    → InUse num b
    → shift_index n i (if is_index b i then none else b) ≡ after_removal i b
shift_removed n i num none h hb = refl
shift_removed n i num (some b) h hb = let lt = hb b refl in ground arith

clear_removed :
    (i num : ℕ) (b : Option ℕ)
    → num ≤ i + 1
    → InUse num b
    → (if is_index b i then none else b) ≡ after_removal i b
clear_removed i num none h hb = refl
clear_removed i num (some b) h hb = let lt = hb b refl in ground arith

loop_best :
    (p : Instance) (idx : ℕ)
    → idx < p.frgn_rec_num
    → p.frgn_rec_num ≤ nr_foreign_records
    → InUse p.frgn_rec_num p.frgn_rec_best
    → (remove_loop (nr_foreign_records - idx) idx idx (record p {
      frgn_rec_best = if is_index p.frgn_rec_best idx then none else p.frgn_rec_best;
    })).frgn_rec_best
      ≡ after_removal idx p.frgn_rec_best
loop_best p idx h hn hb = elim (Bool-cases (ltb (idx + 1) p.frgn_rec_num)) [
  | inl e ↦
      shifted_best (nr_foreign_records - idx) idx idx (without_best p idx) (ground arith)
      ∙ shift_removed (nr_foreign_records - idx) idx p.frgn_rec_num p.frgn_rec_best (omega arith) hb
  | inr e ↦
      cleared_best (nr_foreign_records - idx) idx idx (without_best p idx) (ground arith)
      ∙ clear_removed idx p.frgn_rec_num p.frgn_rec_best (ground arith) hb
]

-- Removing record `idx` of a table of at most PP_NR_FOREIGN_RECORDS records, whose Erbest index names
-- a record in use: the records before it stay, those behind it move down by one, the count goes down
-- by one, and the Erbest stays the record it was (there is none if it was the one removed).
pub bmc_remove_foreign_master-table :
    (p : Instance) (idx : ℕ)
    → idx < p.frgn_rec_num
    → p.frgn_rec_num ≤ nr_foreign_records
    → InUse p.frgn_rec_num p.frgn_rec_best
    → ((j : ℕ)
        → j + 1 < p.frgn_rec_num
        → (bmc_remove_foreign_master p idx).frgn_master j
          ≡ p.frgn_master (if ltb j idx then j else j + 1))
      × ((bmc_remove_foreign_master p idx).frgn_rec_num + 1 ≡ p.frgn_rec_num)
      × ((bmc_remove_foreign_master p idx).frgn_rec_best ≡ after_removal idx p.frgn_rec_best)
unfolding bmc_remove_foreign_master
bmc_remove_foreign_master-table p idx h hn hb =
    let num = shifted_num (nr_foreign_records - idx) idx idx (without_best p idx) in
    (
      λ j hj. loop_table (without_best p idx) idx j h hn hj,
      (omega (arith, num)),
      loop_best p idx h hn hb,
    )
