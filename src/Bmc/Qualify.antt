-- ===== src/Bmc/Qualify.antt =====
-- A foreign master qualifies with its second Announce message inside the window (9.3.2.5 of the
-- standard).
use mathlib.Core.Path.{subst}
use ppsi.Bmc.Add.{add_by, bmc_add_frgn_master, find_known, put_record}
use ppsi.Bmc.Arrival.{find_known-none}
use ppsi.Bmc.Compare.{bmc_idcmp}
use ppsi.Bmc.Known.{
  IsForeign, find_known-at, foreign-add, in_time, known-qualified, new-add, window-passed,
}
use ppsi.Bmc.Table.{bmc_store_frgn_master, nr_foreign_records}
use ppsi.Ds.{FrgnMaster, Globals, Instance, MsgAnnounce, set_inst}
use ppsi.Prelude.{
  ap, arith, false, if◌then◌else◌, is_zero, leb, ltb, none, pos, some, sym, to_word, update,
  update_ne, update_self, ℕ, ◌%◌, ◌&&◌, ◌+◌, ◌<◌, ◌==◌, ◌^◌, ◌∙◌, ◌≡◌,
}
use ppsi.Timeout.Clock.{calc_timeout, time_before_eq, ulong_mod}
use ppsi.Timeout.Expiry.{advance}

-- A sequence number is a UInteger16.
abbrev pub next_sequence : ℕ → ℕ
next_sequence n = (n + 1) % 2 ^ 16

-- The next frame of the same sender, `d` milliseconds later.
abbrev pub next_frame : ℕ → Globals → ℕ → Globals
next_frame d g ppi =
    let p = g.inst ppi in
    set_inst (advance d g) ppi (record p {
      received_ptp_header = record (p.received_ptp_header) {
        sequence_id = next_sequence p.received_ptp_header.sequence_id;
      };
    })

-- The instance when the second frame has arrived.
second_port : Instance → FrgnMaster → Instance
second_port p m = record p {
  frgn_master = update p.frgn_master p.frgn_rec_num m;
  frgn_rec_num = p.frgn_rec_num + 1;
  received_ptp_header = record (p.received_ptp_header) {
    sequence_id = next_sequence p.received_ptp_header.sequence_id;
  };
}

second-port :
    (g : Globals) (ppi d : ℕ) (m : FrgnMaster)
    → (next_frame d
          (put_record g ppi (g.inst ppi).frgn_rec_num ((g.inst ppi).frgn_rec_num + 1) m)
          ppi).inst
        ppi
      ≡ second_port (g.inst ppi) m
unfolding put_record second_port
second-port g ppi d m =
    let p = g.inst ppi in
    let p1 = record p {
      frgn_master = update p.frgn_master p.frgn_rec_num m;
      frgn_rec_num = p.frgn_rec_num + 1;
    } in
    let g1 = set_inst g ppi p1 in
    let next : Instance → Instance = λ q. record q {
      received_ptp_header = record (q.received_ptp_header) {
        sequence_id = next_sequence q.received_ptp_header.sequence_id;
      };
    } in
    update_self g1.inst ppi (next (g1.inst ppi)) ∙ ap next (update_self g.inst ppi p1)

-- The record of the first message.
abbrev first_record : Globals → ℕ → MsgAnnounce → FrgnMaster
first_record g ppi ann = record (bmc_store_frgn_master (g.inst ppi) ann) {
  qualified = false;
  last_announce_msg_ms = calc_timeout g (pos 0);
}

-- The globals after the first message, of an unknown master for which there is room.
first-add :
    (g : Globals) (ppi : ℕ) (ann : MsgAnnounce)
    → IsForeign g ppi
    → ann.steps_removed < 255
    → find_known
        (g.inst ppi).frgn_rec_num
        0
        (g.inst ppi).frgn_master
        (g.inst ppi).received_ptp_header.source_port_identity
      ≡ none
    → (g.inst ppi).frgn_rec_num < nr_foreign_records
    → bmc_add_frgn_master g ppi (bmc_store_frgn_master (g.inst ppi) ann)
      ≡ put_record g ppi
          (g.inst ppi).frgn_rec_num
          ((g.inst ppi).frgn_rec_num + 1)
          (first_record g ppi ann)
unfolding add_by bmc_store_frgn_master
first-add g ppi ann foreign h unknown room =
    let m = bmc_store_frgn_master (g.inst ppi) ann in
    foreign-add g ppi m foreign h ∙ ap (add_by g ppi m) unknown ∙ new-add g ppi m room

-- What the second port holds, as the search and the window read it.
second-known :
    (g : Globals) (ppi : ℕ) (ann : MsgAnnounce)
    → find_known
        (g.inst ppi).frgn_rec_num
        0
        (g.inst ppi).frgn_master
        (g.inst ppi).received_ptp_header.source_port_identity
      ≡ none
    → find_known
        (second_port (g.inst ppi) (first_record g ppi ann)).frgn_rec_num
        0
        (second_port (g.inst ppi) (first_record g ppi ann)).frgn_master
        (second_port (g.inst ppi) (first_record g ppi ann)).received_ptp_header.source_port_identity
      ≡ some (g.inst ppi).frgn_rec_num
unfolding second_port bmc_store_frgn_master
second-known g ppi ann unknown =
    let p = g.inst ppi in
    let num = p.frgn_rec_num in
    let pid = p.received_ptp_header.source_port_identity in
    let m = first_record g ppi ann in
    find_known-at (num + 1) 0 (update p.frgn_master num m) pid num
      (λ j lo hi e. find_known-none num 0 p.frgn_master pid unknown j lo (omega arith) (
        ap (λ (r : FrgnMaster). r.source_port_identity)
          (sym (update_ne p.frgn_master num j m (λ same. omega (arith, same))))
        ∙ e))
      (ap (λ (r : FrgnMaster). r.source_port_identity) (update_self p.frgn_master num m))
      (omega arith) (omega arith)

-- After 65535 comes 0, which is not one more.
in_sequence :
    (n d w s : ℕ)
    → n < ulong_mod
    → d < 2 ^ 62
    → w < 2 ^ 31
    → s < 2 ^ 16
    → (if next_sequence s == s + 1
        then time_before_eq
            (((n + d) % ulong_mod + 0) % ulong_mod)
            (((n + 0) % ulong_mod + w) % ulong_mod)
        else false)
      ≡ (ltb s 65535 && leb d w)
in_sequence n d w s hn hd hw hs = rw (window-passed n d w hn hd hw) (ground arith)

second-qualified :
    (g : Globals) (ppi d : ℕ) (ann ann' : MsgAnnounce)
    → IsForeign g ppi
    → ann'.steps_removed < 255
    → find_known
        (g.inst ppi).frgn_rec_num
        0
        (g.inst ppi).frgn_master
        (g.inst ppi).received_ptp_header.source_port_identity
      ≡ none
    → g.now < ulong_mod
    → d < 2 ^ 62
    → (g.inst ppi).frgn_master_time_window_ms < 2 ^ 31
    → (g.inst ppi).received_ptp_header.sequence_id < 2 ^ 16
    → (((bmc_add_frgn_master
            (next_frame d
              (put_record g ppi
                (g.inst ppi).frgn_rec_num
                ((g.inst ppi).frgn_rec_num + 1)
                (first_record g ppi ann))
              ppi)
            ppi
            (bmc_store_frgn_master
              ((next_frame d
                  (put_record g ppi
                    (g.inst ppi).frgn_rec_num
                    ((g.inst ppi).frgn_rec_num + 1)
                    (first_record g ppi ann))
                  ppi).inst
                ppi)
              ann')).inst
          ppi).frgn_master
        (g.inst ppi).frgn_rec_num).qualified
      ≡ (ltb (g.inst ppi).received_ptp_header.sequence_id 65535
          && leb d (g.inst ppi).frgn_master_time_window_ms)
unfolding second_port bmc_store_frgn_master put_record calc_timeout to_word
second-qualified g ppi d ann ann' foreign h' unknown hn hd hw hs =
    let p = g.inst ppi in
    let num = p.frgn_rec_num in
    let m = first_record g ppi ann in
    let g2 = next_frame d (put_record g ppi num (num + 1) m) ppi in
    let there : g2.inst ppi ≡ second_port p m = second-port g ppi d m in
    let back : second_port p m ≡ g2.inst ppi = sym there in
    known-qualified g2 ppi num (bmc_store_frgn_master (g2.inst ppi) ann')
      (record {
        by_bmca = foreign.by_bmca;
        of_other_clock =
            subst
              (λ (q : Instance).
                is_zero (
                  bmc_idcmp q.received_ptp_header.source_port_identity.clock_identity
                    g.default_ds.clock_identity)
                ≡ false)
              back foreign.of_other_clock;
      })
      h'
      (subst
        (λ (q : Instance).
          find_known q.frgn_rec_num 0 q.frgn_master q.received_ptp_header.source_port_identity
          ≡ some num)
        back (second-known g ppi ann unknown))
    ∙ ap (in_time g2 num) there
    ∙ ap
        (λ (r : FrgnMaster).
          if next_sequence p.received_ptp_header.sequence_id == r.sequence_id + 1
          then time_before_eq (calc_timeout g2 (pos 0))
              ((r.last_announce_msg_ms + p.frgn_master_time_window_ms) % ulong_mod)
          else r.qualified)
        (update_self p.frgn_master num m)
    ∙ in_sequence g.now d p.frgn_master_time_window_ms p.received_ptp_header.sequence_id hn hd hw hs

-- A foreign master that is not known, and for which there is room in the table, is qualified by a
-- message with the next sequence number just when it arrives inside the window of the port and the first
-- message did not have the number 65535: 0, which comes after it, is taken as out of sequence. Both
-- messages are such as the rules of 9.3.2.5 a) and d) let through.
pub bmc_add_frgn_master-qualifies :
    (g : Globals) (ppi d : ℕ) (ann ann' : MsgAnnounce)
    → IsForeign g ppi
    → ann.steps_removed < 255
    → ann'.steps_removed < 255
    → find_known
        (g.inst ppi).frgn_rec_num
        0
        (g.inst ppi).frgn_master
        (g.inst ppi).received_ptp_header.source_port_identity
      ≡ none
    → (g.inst ppi).frgn_rec_num < nr_foreign_records
    → g.now < ulong_mod
    → d < 2 ^ 62
    → (g.inst ppi).frgn_master_time_window_ms < 2 ^ 31
    → (g.inst ppi).received_ptp_header.sequence_id < 2 ^ 16
    → (((bmc_add_frgn_master
            (next_frame d (bmc_add_frgn_master g ppi (bmc_store_frgn_master (g.inst ppi) ann)) ppi)
            ppi
            (bmc_store_frgn_master
              ((next_frame d
                  (bmc_add_frgn_master g ppi (bmc_store_frgn_master (g.inst ppi) ann))
                  ppi).inst
                ppi)
              ann')).inst
          ppi).frgn_master
        (g.inst ppi).frgn_rec_num).qualified
      ≡ (ltb (g.inst ppi).received_ptp_header.sequence_id 65535
          && leb d (g.inst ppi).frgn_master_time_window_ms)
bmc_add_frgn_master-qualifies g ppi d ann ann' foreign h h' unknown room hn hd hw hs =
    ap
      (λ (g1 : Globals).
        (((bmc_add_frgn_master (next_frame d g1 ppi) ppi
              (bmc_store_frgn_master ((next_frame d g1 ppi).inst ppi) ann')).inst
            ppi).frgn_master
          (g.inst ppi).frgn_rec_num).qualified)
      (first-add g ppi ann foreign h unknown room)
    ∙ second-qualified g ppi d ann ann' foreign h' unknown hn hd hw hs
