-- ===== src/Bmc/Add.antt =====
-- bmc_add_frgn_master: what an Announce message does to the table of the port that received it.
use ppsi.Bmc.Compare.{bmc_dataset_cmp, bmc_idcmp, bmc_pidcmp}
use ppsi.Bmc.Table.{nr_foreign_records}
use ppsi.Ds.{FrgnMaster, Globals, Instance, PortIdentity, State, set_inst, to_ann_receipt}
use ppsi.Prelude.{
  Option, false, if◌then◌else◌, is_neg, is_pos, is_zero, leb, ltb, none, pos, some, suc, true,
  update, zero, ℕ, ◌%◌, ◌&&◌, ◌+◌, ◌-◌, ◌==◌,
}
use ppsi.Timeout.Clock.{calc_timeout, time_before_eq, ulong_mod}
use ppsi.Timeout.Reset.{pp_timeout_reset}

-- The first known record with the sender's identity, from record `i` on with `n` left.
unfoldable pub find_known : ℕ → ℕ → (ℕ → FrgnMaster) → PortIdentity → Option ℕ
find_known zero i table pid = none
find_known (suc n) i table pid =
    let rest = find_known n (i + 1) table pid in
    if is_zero (bmc_pidcmp pid (table i).source_port_identity) then some i else rest

-- A copy that is qualified, for a comparison.
unfoldable pub qualify : FrgnMaster → FrgnMaster
qualify m = record m { qualified = true }

-- The loop that finds the worst record, from record `i` on with `n` left.
unfoldable pub find_worst : ℕ → ℕ → ℕ → Globals → (ℕ → FrgnMaster) → ℕ
find_worst zero i worst g table = worst
find_worst (suc n) i worst g table =
    find_worst n (i + 1)
      (if is_pos (bmc_dataset_cmp g (qualify (table i)) (qualify (table worst))) then i else worst)
      g table

-- A known master: the record is replaced. Its age is renewed only by the next sequence number, which
-- the source computes as an int, so that nothing follows 65535.
unfoldable pub refresh : Globals → Instance → FrgnMaster → FrgnMaster → FrgnMaster
refresh g p old m =
    let now = calc_timeout g (pos 0) in
    if p.received_ptp_header.sequence_id == old.sequence_id + 1
    then record m {
      qualified =
          time_before_eq now
            ((old.last_announce_msg_ms + p.frgn_master_time_window_ms) % ulong_mod);
      last_announce_msg_ms = now;
    }
    else record m { qualified = old.qualified; last_announce_msg_ms = old.last_announce_msg_ms }

-- table[sel] = m, and the number of records in use
unfoldable pub put_record : Globals → ℕ → ℕ → ℕ → FrgnMaster → Globals
put_record g ppi sel num m =
    let p = g.inst ppi in
    set_inst g ppi (record p { frgn_master = update p.frgn_master sel m; frgn_rec_num = num })

-- A new master: it takes a free record, or replaces the worst one unless that is better.
unfoldable pub add_new : Globals → ℕ → FrgnMaster → Globals
add_new g ppi m =
    let p = g.inst ppi in
    let fresh = record m { qualified = false; last_announce_msg_ms = calc_timeout g (pos 0) } in
    let worst = find_worst (p.frgn_rec_num - 1) 1 0 g p.frgn_master in
    if ltb p.frgn_rec_num nr_foreign_records
    then put_record g ppi p.frgn_rec_num (p.frgn_rec_num + 1) fresh
    else if is_neg (bmc_dataset_cmp g (qualify (p.frgn_master worst)) (qualify m))
    then g
    else put_record g ppi worst p.frgn_rec_num fresh

-- By what the search for the sender found.
unfoldable pub add_by : Globals → ℕ → FrgnMaster → Option ℕ → Globals
add_by g ppi m none = add_new g ppi m
add_by g ppi m (some i) =
    let p = g.inst ppi in put_record g ppi i p.frgn_rec_num (refresh g p (p.frgn_master i) m)

unfoldable pub add_or_refresh : Globals → ℕ → FrgnMaster → Globals
add_or_refresh g ppi m =
    let p = g.inst ppi in
    if leb 255 m.steps_removed
    then g
    else add_by g ppi m
        (find_known p.frgn_rec_num 0 p.frgn_master p.received_ptp_header.source_port_identity)

-- The port number is compared with port_idx, the instance's index, which counts from 0.
unfoldable pub add_external : Globals → ℕ → FrgnMaster → Globals
add_external g ppi m =
    let p = g.inst ppi in
    let pid = p.received_ptp_header.source_port_identity in
    if is_zero (bmc_idcmp pid.clock_identity g.default_ds.clock_identity)
      && (pid.port_number == ppi)
    then g
    else set_inst g ppi (record p {
      frgn_master = update p.frgn_master 0 m;
      frgn_rec_num = 1;
      frgn_rec_best = some 0;
    })

-- The port is told by a better port of its own clock to go passive (bmc_p1 is empty).
unfoldable pub go_passive : Globals → ℕ → Globals
go_passive g ppi =
    pp_timeout_reset (set_inst g ppi (record (g.inst ppi) { next_state = State.passive })) ppi
      to_ann_receipt

unfoldable pub bmc_add_frgn_master : Globals → ℕ → FrgnMaster → Globals
bmc_add_frgn_master g ppi m =
    let p = g.inst ppi in
    let pid = p.received_ptp_header.source_port_identity in
    let own = is_zero (bmc_idcmp pid.clock_identity g.default_ds.clock_identity) in
    if g.default_ds.external_port_configuration_enabled
    then add_external g ppi m
    else if own
    then (if ltb 1 g.default_ds.number_ports && is_neg (bmc_pidcmp pid p.port_ds.port_identity)
        then add_or_refresh (go_passive g ppi) ppi m
        else g)
    else add_or_refresh g ppi m
