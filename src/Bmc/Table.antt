-- ===== src/Bmc/Table.antt =====
-- The table of foreign masters of an instance: storing, replacing, removing and aging records.
use ppsi.Bmc.Compare.{is_ebest}
use ppsi.Ds.{FrgnMaster, Globals, Instance, MsgAnnounce, PortIdentity, set_inst}
use ppsi.Prelude.{
  Bool, [], false, if◌then◌else◌, is_index, ltb, none, not, pos, some, suc, update, zero, ℕ, ◌%◌,
  ◌&&◌, ◌+◌, ◌-◌, ◌^◌, ◌∷◌,
}
use ppsi.Timeout.Clock.{calc_timeout, time_after, ulong_mod}

-- PP_NR_FOREIGN_RECORDS, as Kconfig_ppsi sets it by default
abbrev pub nr_foreign_records : ℕ
nr_foreign_records = 5

abbrev pub zero_port_identity : PortIdentity
zero_port_identity = record {
  clock_identity = record { id = 0 ∷ 0 ∷ 0 ∷ 0 ∷ 0 ∷ 0 ∷ 0 ∷ 0 ∷ [] };
  port_number = 0;
}

-- A record of which memset cleared every octet.
abbrev pub empty_frgn_master : FrgnMaster
empty_frgn_master = record {
  sequence_id = 0;
  steps_removed = 0;
  current_utc_offset = pos 0;
  receive_port_identity = zero_port_identity;
  source_port_identity = zero_port_identity;
  grandmaster_clock_quality = record {
    clock_class = 0;
    clock_accuracy = 0;
    offset_scaled_log_variance = 0;
  };
  grandmaster_identity = record { id = 0 ∷ 0 ∷ 0 ∷ 0 ∷ 0 ∷ 0 ∷ 0 ∷ 0 ∷ [] };
  grandmaster_priority1 = 0;
  grandmaster_priority2 = 0;
  time_source = 0;
  flag_field_0 = 0;
  flag_field_1 = 0;
  qualified = false;
  last_announce_msg_ms = 0;
  ext_specific = 0 ∷ 0 ∷ 0 ∷ 0 ∷ [];
  peer_mac = 0 ∷ 0 ∷ 0 ∷ 0 ∷ 0 ∷ 0 ∷ [];
}

-- bmc_store_frgn_master: the record of an Announce message, from the header and the unpacked message
unfoldable pub bmc_store_frgn_master : Instance → MsgAnnounce → FrgnMaster
bmc_store_frgn_master p ann = record {
  receive_port_identity = p.port_ds.port_identity;
  sequence_id = p.received_ptp_header.sequence_id;
  source_port_identity = p.received_ptp_header.source_port_identity;
  flag_field_0 = p.received_ptp_header.flag_field_0;
  flag_field_1 = p.received_ptp_header.flag_field_1;
  current_utc_offset = ann.current_utc_offset;
  grandmaster_priority1 = ann.grandmaster_priority1;
  grandmaster_clock_quality = ann.grandmaster_clock_quality;
  grandmaster_priority2 = ann.grandmaster_priority2;
  grandmaster_identity = ann.grandmaster_identity;
  steps_removed = ann.steps_removed;
  time_source = ann.time_source;
  qualified = false;
  last_announce_msg_ms = 0;
  ext_specific = ann.ext_specific;
  peer_mac = p.peer;
}

unfoldable pub bmc_flush_frgn_master : Instance → Instance
bmc_flush_frgn_master p = record p {
  frgn_master = λ i. if ltb i nr_foreign_records then empty_frgn_master else p.frgn_master i;
  frgn_rec_num = 0;
}

-- One round of the loop of bmc_remove_foreign_master. The last round of a shift reads the record
-- behind the end of the array, which here is what the function holds there.
unfoldable pub remove_round : ℕ → ℕ → Instance → Instance
remove_round idx i p =
    if ltb (idx + 1) p.frgn_rec_num
    then record p {
      frgn_master = update p.frgn_master i (p.frgn_master (i + 1));
      frgn_rec_best = if is_index p.frgn_rec_best (i + 1) then some i else p.frgn_rec_best;
    }
    else record p { frgn_master = update p.frgn_master i empty_frgn_master }

-- The loop, with `n` rounds left and the next round at `i`.
unfoldable pub remove_loop : ℕ → ℕ → ℕ → Instance → Instance
remove_loop zero idx i p = p
remove_loop (suc n) idx i p = remove_loop n idx (i + 1) (remove_round idx i p)

unfoldable pub bmc_remove_foreign_master : Instance → ℕ → Instance
bmc_remove_foreign_master p idx =
    let p0 = record p {
      frgn_rec_best = if is_index p.frgn_rec_best idx then none else p.frgn_rec_best;
    } in
    let p1 = remove_loop (nr_foreign_records - idx) idx idx p0 in
    record p1 { frgn_rec_num = (p1.frgn_rec_num + 65535) % 2 ^ 16 }

unfoldable pub bmc_flush_erbest : Instance → Instance
bmc_flush_erbest p = elim p.frgn_rec_best [
  | none ↦ record p { frgn_rec_best = none }
  | some best ↦ record (if ltb best p.frgn_rec_num then bmc_remove_foreign_master p best else p) {
    frgn_rec_best = none;
  }
]

-- Has the record aged out?
unfoldable pub aged_out : Globals → Instance → FrgnMaster → Bool
aged_out g p m =
    not (is_ebest g m)
    && time_after (calc_timeout g (pos 0))
        ((m.last_announce_msg_ms + p.frgn_master_time_window_ms) % ulong_mod)

-- The loop of bmc_age_frgn_master from record `i` on. Each round drops a record or goes on to the
-- next, so as many rounds as there are records are enough.
unfoldable pub age_loop : ℕ → ℕ → Globals → ℕ → Globals
age_loop zero i g ppi = g
age_loop (suc fuel) i g ppi =
    let p = g.inst ppi in
    let dropped = age_loop fuel i (set_inst g ppi (bmc_remove_foreign_master p i)) ppi in
    let kept = age_loop fuel (i + 1) g ppi in
    if ltb i p.frgn_rec_num then (if aged_out g p (p.frgn_master i) then dropped else kept) else g

unfoldable pub bmc_age_frgn_master : Globals → ℕ → Globals
bmc_age_frgn_master g ppi = age_loop (g.inst ppi).frgn_rec_num 0 g ppi

-- The loop of bmc_age_frgn_masters over the ports from `i` on, with `n` left.
unfoldable pub age_ports : ℕ → ℕ → Globals → Globals
age_ports zero i g = g
age_ports (suc n) i g = age_ports n (i + 1) (bmc_age_frgn_master g i)

unfoldable pub bmc_age_frgn_masters : Globals → Globals
bmc_age_frgn_masters g = age_ports g.default_ds.number_ports 0 g
