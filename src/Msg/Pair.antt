-- ===== src/Msg/Pair.antt =====
-- A Sync that goes out and the Follow_Up behind it.
use mathlib.Core.Path.{subst}
use ppsi.Ds.{PortDs, PpTime}
use ppsi.Msg.Bytes.{Buffer, clear, get16, get16-put16, put16}
use ppsi.Msg.Events.{
  msg_pack_follow_up, msg_pack_sync, msg_unpack_follow_up, start_msg, two_step_flag,
}
use ppsi.Msg.Exact.{pack_origin_timestamp_other, stamp, unpack-pack_follow_up, whole_stamp}
use ppsi.Msg.Header.{
  MsgFormat, MsgTypeInfo, Sender, msg_set_seq_id, msg_unpack_header, pp_msgtype_info,
}
use ppsi.Msg.Issue.{
  TxEnv, TxPort, after_send, issue_follow_up, msg_issue_sync_followup, send_and_log, send_drop,
}
use ppsi.Msg.Timestamp.{pack_origin_timestamp}
use ppsi.Prelude.{
  Bool, ap, arith, eqb_ℤ, false, if_either, inl, ltb_ℤ, pos, refl, sym, true, update, ℕ, ℤ, ◌%◌,
  ◌&&◌, ◌+◌, ◌<◌, ◌^◌, ◌∙◌, ◌∷◌, ◌≡◌, ◌≤◌,
}
use ppsi.Time.Arith.{is_incorrect, pp_time_add_interval}

-- The sequence number of a Sync
seq_lem :
    (s : Sender) (mf : MsgTypeInfo) (t : PpTime)
    → get16 (pack_origin_timestamp (clear (msg_set_seq_id s mf).tx_ptp 34 10) t) 30
      ≡ (s.sent_seq mf.msg_type + 1) % 2 ^ 16
unfolding msg_set_seq_id get16 clear
seq_lem s mf t =
    let seq = (s.sent_seq mf.msg_type + 1) % 2 ^ 16 in
    let buf = put16 s.tx_ptp 30 seq in
    rw
      (
        pack_origin_timestamp_other (clear buf 34 10) t 30 (inl (omega arith)),
        pack_origin_timestamp_other (clear buf 34 10) t 31 (inl (omega arith)),
      )
      (get16-put16 s.tx_ptp 30 seq (omega arith))

sync_sequence :
    (port : PortDs) (egress : ℤ) (s : Sender) (t : PpTime)
    → (msg_unpack_header (msg_pack_sync port egress s t).tx_ptp).sequence_id
      ≡ (s.sent_seq 0 + 1) % 2 ^ 16
unfolding msg_pack_sync msg_unpack_header pp_msgtype_info
sync_sequence port egress s t =
    let mf = pp_msgtype_info MsgFormat.sync_fmt in
    let s1 = start_msg port s MsgFormat.sync_fmt in
    seq_lem (record s1 { tx_ptp = update s1.tx_ptp 6 two_step_flag }) mf
      (pp_time_add_interval t egress)

sync_count :
    (port : PortDs) (egress : ℤ) (s : Sender) (t : PpTime)
    → (msg_pack_sync port egress s t).sent_seq 0 ≡ (s.sent_seq 0 + 1) % 2 ^ 16
unfolding msg_pack_sync msg_set_seq_id pp_msgtype_info
sync_count port egress s t = refl

-- A Sync and its Follow_Up: the sequence numbers are the same, and the second tells when the first went out.
pub record Announced (sync follow : Buffer) (secs nsecs fraction : ℕ) : Type 0 where
  pub same_sequence : (msg_unpack_header follow).sequence_id ≡ (msg_unpack_header sync).sequence_id
  pub whole : msg_unpack_follow_up follow ≡ whole_stamp secs nsecs
  pub rest : (msg_unpack_header follow).c_field ≡ pos fraction

-- The port with the Sync packed
abbrev pub with_sync : TxEnv → PortDs → TxPort → TxPort
with_sync env port p = record p {
  sender = msg_pack_sync port env.egress_latency p.sender (env.get_time p);
}

-- The Sync's octets and those of the Follow_Up for the time of sending `t`
abbrev pub sync_octets : TxEnv → PortDs → TxPort → Buffer
sync_octets env port p = (with_sync env port p).sender.tx_ptp

abbrev pub follow_up_octets : TxEnv → PortDs → TxPort → PpTime → Buffer
follow_up_octets env port p t = (msg_pack_follow_up port (with_sync env port p).sender t).tx_ptp

pair-Announced :
    (env : TxEnv) (port : PortDs) (p : TxPort) (secs nsecs fraction : ℕ)
    → secs < 2 ^ 48
    → nsecs < 2 ^ 32
    → fraction < 2 ^ 16
    → Announced
        (sync_octets env port p)
        (follow_up_octets env port p (stamp secs nsecs fraction))
        secs
        nsecs
        fraction
pair-Announced env port p secs nsecs fraction hs hn hf =
    let s = (with_sync env port p).sender in
    let count = sync_count port env.egress_latency p.sender (env.get_time p) in
    let (whole, rest, sequence) =
      unpack-pack_follow_up port s secs nsecs fraction hs hn hf
        (subst (λ (k : ℕ). k < 2 ^ 16) (sym count) (omega arith)) in
    record {
      same_sequence =
          sequence ∙ count ∙ sym (sync_sequence port env.egress_latency p.sender (env.get_time p));
      whole = whole;
      rest = rest;
    }

-- A failed Sync is not followed.
pub sync_failed :
    (env : TxEnv) (port : PortDs) (p : TxPort) (ret : ℤ) (t : PpTime)
    → env.send (with_sync env port p) MsgFormat.sync_fmt ≡ (ret, t)
    → eqb_ℤ ret send_drop ≡ false
    → ltb_ℤ ret (pos 44) ≡ true
    → (msg_issue_sync_followup env port p).0.sent
      ≡ record { format = MsgFormat.sync_fmt; octets = sync_octets env port p } ∷ p.sent
unfolding msg_issue_sync_followup issue_follow_up send_and_log after_send pp_msgtype_info
sync_failed env port p ret t sending kept short = rw sending (rw kept (rw short refl))

-- The two frames that were handed over, and what they say
pub record SentPair (env : TxEnv) (port : PortDs) (p q : TxPort) (secs nsecs fraction : ℕ)
    : Type 0 where
  pub frames :
      q.sent
      ≡ record {
        format = MsgFormat.follow_up_fmt;
        octets = follow_up_octets env port p (stamp secs nsecs fraction);
      }
        ∷ record { format = MsgFormat.sync_fmt; octets = sync_octets env port p }
        ∷ p.sent
  pub announced :
      Announced
        (sync_octets env port p)
        (follow_up_octets env port p (stamp secs nsecs fraction))
        secs
        nsecs
        fraction

-- Whatever the network answers, the frame was handed over.
after_send-sent :
    (env : TxEnv) (p : TxPort) (msglen : ℕ) (is_event : Bool) (ret : ℤ)
    → (after_send env p msglen is_event ret).0.sent ≡ p.sent
unfolding after_send
after_send-sent env p msglen is_event ret =
    let same = λ (r : TxPort × ℤ). r.0.sent ≡ p.sent in
    let t = pp_time_add_interval p.last_snt_time env.sending_latency in
    if_either (eqb_ℤ ret send_drop) same refl (
      if_either (ltb_ℤ ret (pos msglen)) same refl
        (if_either (is_event && is_incorrect t) same refl refl))

send_and_log-sent :
    (env : TxEnv) (p : TxPort) (fmt : MsgFormat) (is_event : Bool)
    → (send_and_log env p fmt is_event).0.sent
      ≡ record { format = fmt; octets = p.sender.tx_ptp } ∷ p.sent
unfolding send_and_log
send_and_log-sent env p fmt is_event =
    let (ret, t) = env.send p fmt in
    after_send-sent env
      (record p {
        last_snt_time = t;
        sent = record { format = fmt; octets = p.sender.tx_ptp } ∷ p.sent;
      })
      (pp_msgtype_info fmt).msglen is_event ret

-- An event message that goes out
after_send-good :
    (env : TxEnv) (p : TxPort) (msglen n : ℕ) (t : PpTime)
    → msglen ≤ n
    → pp_time_add_interval p.last_snt_time env.sending_latency ≡ t
    → is_incorrect t ≡ false
    → after_send env p msglen true (pos n)
      ≡ (record p { last_snt_time = t; ptp_tx_count = p.ptp_tx_count + 1 }, pos 0)
unfolding after_send
after_send-good env p msglen n t long corrected good =
    let kept : eqb_ℤ (pos n) send_drop ≡ false = ground arith in
    let whole : ltb_ℤ (pos n) (pos msglen) ≡ false = ground arith in
    rw corrected (rw good (rw kept (rw whole refl)))

-- The port once its Sync is out
abbrev sync_sent : TxEnv → PortDs → TxPort → PpTime → TxPort
sync_sent env port p t = record (with_sync env port p) {
  last_snt_time = t;
  ptp_tx_count = p.ptp_tx_count + 1;
  sent = record { format = MsgFormat.sync_fmt; octets = sync_octets env port p } ∷ p.sent;
}

sync_out :
    (env : TxEnv) (port : PortDs) (p : TxPort) (n : ℕ) (t0 t : PpTime)
    → env.send (with_sync env port p) MsgFormat.sync_fmt ≡ (pos n, t0)
    → 44 ≤ n
    → pp_time_add_interval t0 env.sending_latency ≡ t
    → is_incorrect t ≡ false
    → send_and_log env (with_sync env port p) MsgFormat.sync_fmt true
      ≡ (sync_sent env port p t, pos 0)
unfolding send_and_log pp_msgtype_info
sync_out env port p n t0 t sending long corrected good = rw sending (
    after_send-good env
      (record (with_sync env port p) {
        last_snt_time = t0;
        sent = record { format = MsgFormat.sync_fmt; octets = sync_octets env port p } ∷ p.sent;
      })
      44 n t long corrected good)

sent_pair :
    (env : TxEnv) (port : PortDs) (p : TxPort) (n : ℕ) (t0 t : PpTime)
    → env.send (with_sync env port p) MsgFormat.sync_fmt ≡ (pos n, t0)
    → 44 ≤ n
    → pp_time_add_interval t0 env.sending_latency ≡ t
    → is_incorrect t ≡ false
    → (msg_issue_sync_followup env port p).0.sent
      ≡ record { format = MsgFormat.follow_up_fmt; octets = follow_up_octets env port p t }
        ∷ record { format = MsgFormat.sync_fmt; octets = sync_octets env port p }
        ∷ p.sent
unfolding msg_issue_sync_followup issue_follow_up
sent_pair env port p n t0 t sending long corrected good =
    let q = sync_sent env port p t in
    ap (λ (r : TxPort × ℤ). (issue_follow_up env port r).0.sent)
      (sync_out env port p n t0 t sending long corrected good)
    ∙ send_and_log-sent env (record q { sender = msg_pack_follow_up port q.sender t })
        MsgFormat.follow_up_fmt false

-- A Sync that the network takes whole, with a time of sending that is correct once the egress latency is
-- added and that fits the fields: it is followed by a Follow_Up with the same sequence number, whose
-- timestamp and correction field together are exactly that time.
pub msg_issue_sync_followup-SentPair :
    (env : TxEnv) (port : PortDs) (p : TxPort) (n : ℕ) (t0 : PpTime) (secs nsecs fraction : ℕ)
    → env.send (with_sync env port p) MsgFormat.sync_fmt ≡ (pos n, t0)
    → 44 ≤ n
    → pp_time_add_interval t0 env.sending_latency ≡ stamp secs nsecs fraction
    → is_incorrect (stamp secs nsecs fraction) ≡ false
    → secs < 2 ^ 48
    → nsecs < 2 ^ 32
    → fraction < 2 ^ 16
    → SentPair env port p (msg_issue_sync_followup env port p).0 secs nsecs fraction
msg_issue_sync_followup-SentPair env port p n t0 secs nsecs fraction sending long corrected good hs
      hn hf =
    record {
      frames = sent_pair env port p n t0 (stamp secs nsecs fraction) sending long corrected good;
      announced = pair-Announced env port p secs nsecs fraction hs hn hf;
    }
