-- ===== src/Msg/Issue.antt =====
-- Sending the messages of the delay measurement: __send_and_log of proto-standard/common-fun.c, and
-- msg_issue_sync_followup, msg_issue_delay_req and msg_issue_delay_resp of proto-standard/msg.c.
use ppsi.Ds.{MsgHeader, PortDs, PpTime}
use ppsi.Msg.Bytes.{Buffer}
use ppsi.Msg.Events.{msg_pack_delay_req, msg_pack_delay_resp, msg_pack_follow_up, msg_pack_sync}
use ppsi.Msg.Header.{MsgFormat, Sender, pp_msgtype_info}
use ppsi.Prelude.{
  Bool, List, eqb_ℤ, false, if◌then◌else◌, ltb_ℤ, negsuc, pos, true, ℕ, ℤ, ◌&&◌, ◌+◌, ◌∷◌,
}
use ppsi.Time.Arith.{is_incorrect, pp_time_add_interval}

-- A frame that was handed to the network, with its length
pub record Frame : Type 0 where
  pub format : MsgFormat
  pub octets : Buffer

-- The fields of the instance that the sending uses, and the frames that were handed over, newest first.
pub record TxPort : Type 0 where
  pub sender : Sender
  pub last_snt_time : PpTime
  pub ptp_tx_count : ℕ
  pub sent : List Frame

-- What is given: the network's `send`, which tells a result and the time of sending, the clock, and the
-- port's egress latency (an extension may give its own for the sending), asymmetry and use of the
-- correction field.
pub record TxEnv : Type 0 where
  pub send : TxPort → MsgFormat → ℤ × PpTime
  pub get_time : TxPort → PpTime
  pub egress_latency : ℤ
  pub sending_latency : ℤ
  pub asymmetry : ℤ
  pub compliant : Bool

-- PP_SEND_ERROR, PP_SEND_NO_STAMP and PP_SEND_DROP
abbrev pub send_error : ℤ
send_error = negsuc 0

abbrev pub send_no_stamp : ℤ
send_no_stamp = pos 1

abbrev pub send_drop : ℤ
send_drop = negsuc 1

-- After the call of `send`, which has set the time of sending.
unfoldable pub after_send : TxEnv → TxPort → ℕ → Bool → ℤ → TxPort × ℤ
after_send env p msglen is_event ret =
    let t = pp_time_add_interval p.last_snt_time env.sending_latency in
    let q = record p { last_snt_time = t } in
    if eqb_ℤ ret send_drop
    then (p, pos 0)
    else if ltb_ℤ ret (pos msglen)
    then (p, send_error)
    else if is_event && is_incorrect t
    then (q, send_no_stamp)
    else (record q { ptp_tx_count = p.ptp_tx_count + 1 }, pos 0)

unfoldable pub send_and_log : TxEnv → TxPort → MsgFormat → Bool → TxPort × ℤ
send_and_log env p fmt is_event =
    let (ret, t) = env.send p fmt in
    after_send env
      (record p {
        last_snt_time = t;
        sent = record { format = fmt; octets = p.sender.tx_ptp } ∷ p.sent;
      })
      (pp_msgtype_info fmt).msglen is_event ret

-- The Follow_Up, when the Sync went out
unfoldable pub issue_follow_up : TxEnv → PortDs → TxPort × ℤ → TxPort × ℤ
issue_follow_up env port (p, e) =
    let q = record p { sender = msg_pack_follow_up port p.sender p.last_snt_time } in
    if eqb_ℤ e (pos 0) then send_and_log env q MsgFormat.follow_up_fmt false else (p, e)

unfoldable pub msg_issue_sync_followup : TxEnv → PortDs → TxPort → TxPort × ℤ
msg_issue_sync_followup env port p = issue_follow_up env port (
    send_and_log env
      (record p { sender = msg_pack_sync port env.egress_latency p.sender (env.get_time p) })
      MsgFormat.sync_fmt true)

unfoldable pub msg_issue_delay_req : TxEnv → PortDs → TxPort → TxPort × ℤ
msg_issue_delay_req env port p =
    send_and_log env
      (record p {
        sender =
            msg_pack_delay_req port env.egress_latency env.asymmetry env.compliant p.sender
              (env.get_time p);
      })
      MsgFormat.delay_req_fmt true

unfoldable pub msg_issue_delay_resp : TxEnv → PortDs → TxPort → MsgHeader → PpTime → TxPort × ℤ
msg_issue_delay_resp env port p hdr t =
    send_and_log env (record p { sender = msg_pack_delay_resp port env.compliant p.sender hdr t })
      MsgFormat.delay_resp_fmt false
