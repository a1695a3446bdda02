-- ===== src/Bmc/Arrival.antt =====
-- An Announce message keeps the table of foreign masters well-formed.
use mathlib.Core.Path.{subst}
use ppsi.Bmc.Add.{
  add_by, add_external, add_new, add_or_refresh, bmc_add_frgn_master, find_known, find_worst,
  go_passive, put_record, qualify, refresh,
}
use ppsi.Bmc.Compare.{bmc_dataset_cmp, bmc_idcmp, bmc_pidcmp}
use ppsi.Bmc.Invariant.{Distinct, IsTable, TableAt}
use ppsi.Bmc.Order.{bmc_pidcmp_iff}
use ppsi.Bmc.Table.{bmc_store_frgn_master, nr_foreign_records}
use ppsi.Ds.{
  FrgnMaster, Globals, Instance, MsgAnnounce, PortIdentity, State, set_inst, to_ann_receipt,
}
use ppsi.Prelude.{
  Option, arith, false, if_case, if_either, if◌then◌else◌, is_neg, is_pos, is_zero, leb, ltb, none,
  pos, refl, some, suc, sym, update, update_self, zero, ℕ, ◌&&◌, ◌+◌, ◌-◌, ◌<◌, ◌==◌, ◌∙◌, ◌≡◌, ◌≢◌,
  ◌≤◌,
}
use ppsi.Timeout.Clock.{calc_timeout}
use ppsi.Timeout.Frame.{pp_timeout_reset-keeps}

pub find_known-none :
    (n i : ℕ) (t : ℕ → FrgnMaster) (pid : PortIdentity)
    → find_known n i t pid ≡ none
    → (k : ℕ) → i ≤ k
    → k < i + n
    → (t k).source_port_identity ≢ pid
unfolding find_known
find_known-none zero i t pid h k hi hk e = omega arith
find_known-none (suc n) i t pid h k hi hk e =
    let here = (bmc_pidcmp_iff pid (t i).source_port_identity).1 in
    let rest = λ (none_left : find_known n (i + 1) t pid ≡ none) (le : i + 1 ≤ k).
      find_known-none n (i + 1) t pid none_left k le (omega arith) e in
    ground arith

find_known-some :
    (n i : ℕ) (t : ℕ → FrgnMaster) (pid : PortIdentity) (k : ℕ)
    → find_known n i t pid ≡ some k
    → (k < i + n) × ((t k).source_port_identity ≡ pid)
unfolding find_known
find_known-some zero i t pid k h = cc
find_known-some (suc n) i t pid k h =
    let rest = find_known-some n (i + 1) t pid k in
    let here = (bmc_pidcmp_iff pid (t i).source_port_identity).0 in ground arith

find_worst-bound :
    (n i worst : ℕ) (g : Globals) (t : ℕ → FrgnMaster)
    → worst < i
    → find_worst n i worst g t < i + n
unfolding find_worst
find_worst-bound zero i worst g t h = omega arith
find_worst-bound (suc n) i worst g t h =
    let next =
      if is_pos (bmc_dataset_cmp g (qualify (t i)) (qualify (t worst))) then i else worst in
    let lt : next < i + 1 = ground arith in
    let rest = find_worst-bound n (i + 1) next g t lt in omega (arith, rest)

-- Storing `m` in record `k`, when no other record has its sender.
Distinct-update :
    (num : ℕ) (t : ℕ → FrgnMaster) (k : ℕ) (m : FrgnMaster)
    → ((i j : ℕ)
        → i < num
        → j < num
        → i ≢ k
        → j ≢ k
        → (t i).source_port_identity ≡ (t j).source_port_identity
        → i ≡ j)
    → ((i : ℕ) → i < num → i ≢ k → (t i).source_port_identity ≢ m.source_port_identity)
    → Distinct num (update t k m)
Distinct-update num t k m hd hm i j hi hj e =
    let both = hd i j hi hj in let left = hm i hi in let right = hm j hj in ground arith

-- Storing a record whose sender no other record has, with a count that goes up by at most one.
put_record-IsTable :
    (g : Globals) (ppi k num : ℕ) (m : FrgnMaster)
    → TableAt ppi g
    → k < num
    → num ≤ nr_foreign_records
    → (g.inst ppi).frgn_rec_num ≤ num
    → ((i : ℕ) → i < num → i ≢ k → i < (g.inst ppi).frgn_rec_num)
    → ((i : ℕ)
        → i < (g.inst ppi).frgn_rec_num
        → i ≢ k
        → ((g.inst ppi).frgn_master i).source_port_identity ≢ m.source_port_identity)
    → TableAt ppi (put_record g ppi k num m)
unfolding put_record
put_record-IsTable g ppi k num m (hn, hb, hd) hk h5 grow used fresh =
    let p = g.inst ppi in
    subst IsTable
      (sym (
        update_self g.inst ppi
          (record p { frgn_master = update p.frgn_master k m; frgn_rec_num = num })))
      (
        h5,
        (λ i e. let lt = hb i e in omega (arith, lt)),
        Distinct-update num p.frgn_master k m
            (λ i j hi hj ik jk e. hd i j (used i hi ik) (used j hj jk) e)
            (λ i hi ik. fresh i (used i hi ik) ik),
      )

add_new-IsTable :
    (g : Globals) (ppi : ℕ) (m : FrgnMaster)
    → TableAt ppi g
    → ((i : ℕ)
        → i < (g.inst ppi).frgn_rec_num
        → ((g.inst ppi).frgn_master i).source_port_identity ≢ m.source_port_identity)
    → TableAt ppi (add_new g ppi m)
unfolding add_new
add_new-IsTable g ppi m h new =
    let p = g.inst ppi in
    let num = p.frgn_rec_num in
    let fresh = record m { qualified = false; last_announce_msg_ms = calc_timeout g (pos 0) } in
    let worst = find_worst (num - 1) 1 0 g p.frgn_master in
    let bound = find_worst-bound (num - 1) 1 0 g p.frgn_master (omega arith) in
    if_case (ltb num nr_foreign_records) (TableAt ppi)
      (λ e.
        put_record-IsTable g ppi num (num + 1) fresh h (omega arith) (ground arith) (omega arith)
          (λ i hi ik. omega arith) (λ i hi ik. new i hi))
      (λ e.
        if_either (is_neg (bmc_dataset_cmp g (qualify (p.frgn_master worst)) (qualify m)))
          (TableAt ppi) h
          (put_record-IsTable g ppi worst num fresh h (ground arith) (h.0) (omega arith)
            (λ i hi ik. hi) (λ i hi ik. new i hi)))

-- The instance has a well-formed table and the header of the message that `m` was made from.
abbrev Receives : FrgnMaster → Instance → Type 0
Receives m p = IsTable p × (p.received_ptp_header.source_port_identity ≡ m.source_port_identity)

refresh-sender :
    (g : Globals) (p : Instance) (old m : FrgnMaster)
    → (refresh g p old m).source_port_identity ≡ m.source_port_identity
unfolding refresh
refresh-sender g p old m =
    if_either (p.received_ptp_header.sequence_id == old.sequence_id + 1)
      (λ (r : FrgnMaster). r.source_port_identity ≡ m.source_port_identity) refl refl

known-IsTable :
    (g : Globals) (ppi : ℕ) (m : FrgnMaster) (found : Option ℕ)
    → Receives m (g.inst ppi)
    → find_known
        (g.inst ppi).frgn_rec_num
        0
        (g.inst ppi).frgn_master
        (g.inst ppi).received_ptp_header.source_port_identity
      ≡ found
    → TableAt ppi (add_by g ppi m found)
unfolding add_by
known-IsTable g ppi m none (h, src) e = add_new-IsTable g ppi m h (λ i hi same.
    find_known-none (g.inst ppi).frgn_rec_num 0 (g.inst ppi).frgn_master
      (g.inst ppi).received_ptp_header.source_port_identity e i (omega arith) (omega arith)
      (same ∙ sym src))
known-IsTable g ppi m (some k) (h, src) e =
    let p = g.inst ppi in
    let at =
      find_known-some p.frgn_rec_num 0 p.frgn_master p.received_ptp_header.source_port_identity k
        e in
    put_record-IsTable g ppi k p.frgn_rec_num (refresh g p (p.frgn_master k) m) h
      (omega (arith, at.0)) (h.0) (omega arith) (λ i hi ik. hi)
      (λ i hi ik same. ik (
        h.2 i k hi (omega (arith, at.0))
          (same ∙ refresh-sender g p (p.frgn_master k) m ∙ sym src ∙ sym at.1)))

add_or_refresh-IsTable :
    (g : Globals) (ppi : ℕ) (m : FrgnMaster)
    → Receives m (g.inst ppi)
    → TableAt ppi (add_or_refresh g ppi m)
unfolding add_or_refresh
add_or_refresh-IsTable g ppi m h =
    let p = g.inst ppi in
    if_either (leb 255 m.steps_removed) (TableAt ppi) (h.0) (
      known-IsTable g ppi m
        (find_known p.frgn_rec_num 0 p.frgn_master p.received_ptp_header.source_port_identity) h
        refl)

go_passive-Receives :
    (g : Globals) (ppi : ℕ) (m : FrgnMaster)
    → Receives m (g.inst ppi)
    → Receives m ((go_passive g ppi).inst ppi)
unfolding go_passive
go_passive-Receives g ppi m h =
    let p = record (g.inst ppi) { next_state = State.passive } in
    pp_timeout_reset-keeps (Receives m) (set_inst g ppi p) ppi to_ann_receipt ppi (λ q c k. k)
      (subst (Receives m) (sym (update_self g.inst ppi p)) h)

external-IsTable :
    (g : Globals) (ppi : ℕ) (m : FrgnMaster) → TableAt ppi g → TableAt ppi (add_external g ppi m)
unfolding add_external
external-IsTable g ppi m h =
    let p = g.inst ppi in
    let pid = p.received_ptp_header.source_port_identity in
    if_either
      (is_zero (bmc_idcmp pid.clock_identity g.default_ds.clock_identity)
        && (pid.port_number == ppi))
      (TableAt ppi) h
      (subst IsTable
        (sym (
          update_self g.inst ppi (record p {
            frgn_master = update p.frgn_master 0 m;
            frgn_rec_num = 1;
            frgn_rec_best = some 0;
          })))
        (omega arith, (λ i e. ground arith), λ i j hi hj e. omega arith))

-- Whatever Announce message arrives, handling it keeps the port's table well-formed: at most
-- PP_NR_FOREIGN_RECORDS records, no two with the same sender, and an Erbest among them if there is one.
pub bmc_add_frgn_master-IsTable :
    (g : Globals) (ppi : ℕ) (ann : MsgAnnounce)
    → TableAt ppi g
    → TableAt ppi (bmc_add_frgn_master g ppi (bmc_store_frgn_master (g.inst ppi) ann))
unfolding bmc_add_frgn_master bmc_store_frgn_master
bmc_add_frgn_master-IsTable g ppi ann h =
    let p = g.inst ppi in
    let m = bmc_store_frgn_master p ann in
    let pid = p.received_ptp_header.source_port_identity in
    if_either g.default_ds.external_port_configuration_enabled (TableAt ppi)
      (external-IsTable g ppi m h)
      (if_either (is_zero (bmc_idcmp pid.clock_identity g.default_ds.clock_identity)) (TableAt ppi)
        (if_either
          (ltb 1 g.default_ds.number_ports && is_neg (bmc_pidcmp pid p.port_ds.port_identity))
          (TableAt ppi)
          (add_or_refresh-IsTable (go_passive g ppi) ppi m (go_passive-Receives g ppi m (h, refl)))
          h)
        (add_or_refresh-IsTable g ppi m (h, refl)))
