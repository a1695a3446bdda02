-- ===== src/States/Exact.antt =====
-- The origin timestamp t1 that a two-step Sync and its Follow_Up make together.
use mathlib.Core.Path.{ap₂, subst}
use ppsi.Bmc.Compare.{bmc_pidcmp}
use ppsi.Ds.{MsgHeader, PpTime, set_inst}
use ppsi.Msg.Bytes.{Buffer}
use ppsi.Msg.Events.{msg_unpack_follow_up}
use ppsi.Prelude.{ap, arith, false, is_zero, refl, sym, true, update_self, ℕ, ◌∙◌, ◌≡◌}
use ppsi.Servo.Port.{ServoEnv, ServoPort, Stamps}
use ppsi.States.Common.{msg_from_current_master}
use ppsi.States.Slave.{
  c_time, complete_t1, got_t1, is_expected_follow_up, is_two_step, slave_handle_followup,
  slave_handle_sync, two_step_sync,
}
use ppsi.States.Total.{IsCorrection, IsOrigin, IsTotal, total_lem}
use ppsi.States.World.{
  ActHooks, ActWorld, act_globals, act_inst, act_stamps, set_act_globals, set_stamps, set_waiting,
}
use ppsi.Time.Arith.{pp_time_add}

-- The header of the next message arrives.
abbrev pub hear : ActWorld → ℕ → MsgHeader → ActWorld
hear w ppi hdr =
    set_act_globals w
      (set_inst (act_globals w) ppi (record (act_inst w ppi) { received_ptp_header = hdr }))

-- The Follow_Up belongs to the Sync: the port is the same, and so is the sequence number.
abbrev pub IsPair : MsgHeader → MsgHeader → Type 0
IsPair hdr hdr' =
    (hdr'.source_port_identity ≡ hdr.source_port_identity) × (hdr'.sequence_id ≡ hdr.sequence_id)

-- The world before the Follow_Up
abbrev pub after_sync : ServoEnv → ActHooks → ActWorld → ℕ → Buffer → MsgHeader → ActWorld
after_sync env hooks w ppi buf hdr' = hear (slave_handle_sync env hooks w ppi buf).0 ppi hdr'

-- What the two messages make known
pub record Known (env : ServoEnv) (hooks : ActHooks) (w w2 : ActWorld) (ppi : ℕ) (hdr' : MsgHeader)
    (buf' : Buffer) : Type 0 where
  pub accepted :
      slave_handle_followup env hooks w2 ppi buf'
      ≡ got_t1 env false hooks.handle_followup (complete_t1 w2 ppi buf') ppi
  pub t1_is :
      IsTotal
        (act_stamps (complete_t1 w2 ppi buf') ppi).t1
        (c_time (act_inst w ppi).received_ptp_header)
        (msg_unpack_follow_up buf')
        (c_time hdr')
  pub t2_is : (act_stamps (complete_t1 w2 ppi buf') ppi).t2 ≡ (w.act_ports ppi).last_rcv_time
  pub only_once : is_expected_follow_up (complete_t1 w2 ppi buf') ppi ≡ false

abbrev paired : ActWorld → ℕ → MsgHeader → ActWorld
paired w ppi hdr' = hear (two_step_sync w ppi (act_inst w ppi).received_ptp_header) ppi hdr'

after_sync_lem :
    (env : ServoEnv) (hooks : ActHooks) (w : ActWorld) (ppi : ℕ) (buf : Buffer) (hdr' : MsgHeader)
    → msg_from_current_master (act_globals w) ppi ≡ true
    → is_two_step (act_inst w ppi).received_ptp_header ≡ true
    → after_sync env hooks w ppi buf hdr' ≡ paired w ppi hdr'
unfolding slave_handle_sync
after_sync_lem env hooks w ppi buf hdr' ours two = rw ours (rw two refl)

-- What each step leaves in the world, read back.
pub hear_header :
    (w : ActWorld) (ppi : ℕ) (hdr : MsgHeader)
    → (act_inst (hear w ppi hdr) ppi).received_ptp_header ≡ hdr
hear_header w ppi hdr = ground arith

hear_waiting :
    (w : ActWorld) (ppi : ℕ) (hdr : MsgHeader)
    → (act_inst (hear w ppi hdr) ppi).waiting_for_f_up ≡ (act_inst w ppi).waiting_for_f_up
hear_waiting w ppi hdr = ground arith

two_step_waiting :
    (w : ActWorld) (ppi : ℕ) (hdr : MsgHeader)
    → (act_inst (two_step_sync w ppi hdr) ppi).waiting_for_f_up ≡ true
unfolding two_step_sync
two_step_waiting w ppi hdr = ground arith

two_step_sequence :
    (w : ActWorld) (ppi : ℕ) (hdr : MsgHeader)
    → ((two_step_sync w ppi hdr).act_ports ppi).recv_sync_sequence_id ≡ hdr.sequence_id
unfolding two_step_sync
two_step_sequence w ppi hdr = ground arith

pub set_stamps_self :
    (w : ActWorld) (ppi : ℕ) (t : Stamps) → act_stamps (set_stamps w ppi t) ppi ≡ t
set_stamps_self w ppi t =
    ap (λ (p : ServoPort). p.received)
      (update_self w.act_servo.servo_ports ppi
        (record (w.act_servo.servo_ports ppi) { received = t }))

two_step_t1 :
    (w : ActWorld) (ppi : ℕ) (hdr : MsgHeader)
    → (act_stamps (two_step_sync w ppi hdr) ppi).t1 ≡ c_time hdr
unfolding two_step_sync
two_step_t1 w ppi hdr =
    ap (λ (t : Stamps). t.t1)
      (set_stamps_self w ppi
        (record (act_stamps w ppi) { t1 = c_time hdr; t2 = (w.act_ports ppi).last_rcv_time }))

two_step_t2 :
    (w : ActWorld) (ppi : ℕ) (hdr : MsgHeader)
    → (act_stamps (two_step_sync w ppi hdr) ppi).t2 ≡ (w.act_ports ppi).last_rcv_time
unfolding two_step_sync
two_step_t2 w ppi hdr =
    ap (λ (t : Stamps). t.t2)
      (set_stamps_self w ppi
        (record (act_stamps w ppi) { t1 = c_time hdr; t2 = (w.act_ports ppi).last_rcv_time }))

abbrev with_t1 : ActWorld → ℕ → Buffer → Stamps
with_t1 w ppi buf = record (act_stamps w ppi) {
  t1 =
      pp_time_add (pp_time_add (act_stamps w ppi).t1 (msg_unpack_follow_up buf))
        (c_time (act_inst w ppi).received_ptp_header);
}

completed_t1 :
    (w : ActWorld) (ppi : ℕ) (buf : Buffer)
    → (act_stamps (complete_t1 w ppi buf) ppi).t1
      ≡ pp_time_add
          (pp_time_add (act_stamps w ppi).t1 (msg_unpack_follow_up buf))
          (c_time (act_inst w ppi).received_ptp_header)
unfolding complete_t1
completed_t1 w ppi buf =
    ap (λ (t : Stamps). t.t1) (set_stamps_self (set_waiting w ppi false) ppi (with_t1 w ppi buf))

completed_t2 :
    (w : ActWorld) (ppi : ℕ) (buf : Buffer)
    → (act_stamps (complete_t1 w ppi buf) ppi).t2 ≡ (act_stamps w ppi).t2
unfolding complete_t1
completed_t2 w ppi buf =
    ap (λ (t : Stamps). t.t2) (set_stamps_self (set_waiting w ppi false) ppi (with_t1 w ppi buf))

completed_waiting :
    (w : ActWorld) (ppi : ℕ) (buf : Buffer)
    → (act_inst (complete_t1 w ppi buf) ppi).waiting_for_f_up ≡ false
unfolding complete_t1
completed_waiting w ppi buf = ground arith

heard_from_master :
    (w : ActWorld) (ppi : ℕ) (hdr hdr' : MsgHeader)
    → hdr'.source_port_identity ≡ (act_inst w ppi).received_ptp_header.source_port_identity
    → msg_from_current_master (act_globals (hear (two_step_sync w ppi hdr) ppi hdr')) ppi
      ≡ msg_from_current_master (act_globals w) ppi
unfolding msg_from_current_master two_step_sync
heard_from_master w ppi hdr hdr' same =
    ap (λ pid. is_zero (bmc_pidcmp (act_globals w).parent_ds.parent_port_identity pid))
      (ap (λ (h : MsgHeader). h.source_port_identity)
          (hear_header (two_step_sync w ppi hdr) ppi hdr')
        ∙ same)

paired_expected :
    (w : ActWorld) (ppi : ℕ) (hdr' : MsgHeader)
    → msg_from_current_master (act_globals w) ppi ≡ true
    → IsPair (act_inst w ppi).received_ptp_header hdr'
    → is_expected_follow_up (paired w ppi hdr') ppi ≡ true
unfolding is_expected_follow_up
paired_expected w ppi hdr' ours (same_port, same_seq) =
    let hdr = (act_inst w ppi).received_ptp_header in
    let w1 = two_step_sync w ppi hdr in
    let seq : ((paired w ppi hdr').act_ports ppi).recv_sync_sequence_id
        ≡ (act_inst (paired w ppi hdr') ppi).received_ptp_header.sequence_id =
      two_step_sequence w ppi hdr
      ∙ sym same_seq
      ∙ ap (λ (h : MsgHeader). h.sequence_id) (sym (hear_header w1 ppi hdr')) in
    rw (heard_from_master w ppi hdr hdr' same_port ∙ ours)
      (rw (hear_waiting w1 ppi hdr' ∙ two_step_waiting w ppi hdr) (ground (arith, seq)))

completed_unexpected :
    (w : ActWorld) (ppi : ℕ) (buf : Buffer)
    → is_expected_follow_up (complete_t1 w ppi buf) ppi ≡ false
unfolding is_expected_follow_up
completed_unexpected w ppi buf = ground (arith, completed_waiting w ppi buf)

accepted_lem :
    (env : ServoEnv) (hooks : ActHooks) (w : ActWorld) (ppi : ℕ) (buf : Buffer)
    → is_expected_follow_up w ppi ≡ true
    → slave_handle_followup env hooks w ppi buf
      ≡ got_t1 env false hooks.handle_followup (complete_t1 w ppi buf) ppi
unfolding slave_handle_followup
accepted_lem env hooks w ppi buf h = rw h refl

-- A two-step Sync of the current master and its Follow_Up, for corrections of at most a second and an
-- origin timestamp that fits a message: the Follow_Up is accepted, t1 is exactly the sum of the timestamp
-- and of both corrections, t2 is when the Sync was received, and another copy of the Follow_Up is not
-- expected any more.
pub slave_handle_followup-t1 :
    (env : ServoEnv) (hooks : ActHooks) (w : ActWorld) (ppi : ℕ) (buf buf' : Buffer)
    (hdr' : MsgHeader)
    → msg_from_current_master (act_globals w) ppi ≡ true
    → is_two_step (act_inst w ppi).received_ptp_header ≡ true
    → IsPair (act_inst w ppi).received_ptp_header hdr'
    → IsCorrection (act_inst w ppi).received_ptp_header.c_field
    → IsCorrection hdr'.c_field
    → IsOrigin (msg_unpack_follow_up buf')
    → Known env hooks w (after_sync env hooks w ppi buf hdr') ppi hdr' buf'
slave_handle_followup-t1 env hooks w ppi buf buf' hdr' ours two pair hc hc' ho =
    let hdr = (act_inst w ppi).received_ptp_header in
    let w1 = two_step_sync w ppi hdr in
    let t1_is : (act_stamps (complete_t1 (paired w ppi hdr') ppi buf') ppi).t1
        ≡ pp_time_add (pp_time_add (c_time hdr) (msg_unpack_follow_up buf')) (c_time hdr') =
      completed_t1 (paired w ppi hdr') ppi buf'
      ∙ ap₂ (λ (a b : PpTime). pp_time_add (pp_time_add a (msg_unpack_follow_up buf')) b)
          (two_step_t1 w ppi hdr) (ap c_time (hear_header w1 ppi hdr')) in
    subst (λ w2. Known env hooks w w2 ppi hdr' buf')
      (sym (after_sync_lem env hooks w ppi buf hdr' ours two))
      (record {
        accepted =
            accepted_lem env hooks (paired w ppi hdr') ppi buf'
              (paired_expected w ppi hdr' ours pair);
        t1_is =
            subst (λ r. IsTotal r (c_time hdr) (msg_unpack_follow_up buf') (c_time hdr'))
              (sym t1_is)
              (total_lem hdr.c_field hdr'.c_field (msg_unpack_follow_up buf') hc hc' ho);
        t2_is = completed_t2 (paired w ppi hdr') ppi buf' ∙ two_step_t2 w ppi hdr;
        only_once = completed_unexpected (paired w ppi hdr') ppi buf';
      })
