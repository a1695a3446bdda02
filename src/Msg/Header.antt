-- ===== src/Msg/Header.antt =====
-- The message header: msgtype.c, msg_unpack_header, msg_init_header and __msg_pack_header.
use ppsi.Ds.{MsgHeader, PortDs, PortIdentity}
use ppsi.Msg.Bytes.{Buffer, clear, get16, get64, get_octets, put16, put64, put_octets}
use ppsi.Prelude.{if◌then◌else◌, of_word, pos, to_word, update, ℕ, ℤ, ◌%◌, ◌*◌, ◌+◌, ◌/◌, ◌==◌, ◌^◌}

-- struct pp_msgtype_info, the fields that go into a message.
pub record MsgTypeInfo : Type 0 where
  pub msg_type : ℕ
  pub msglen : ℕ
  pub control_field : ℕ
  pub log_message_interval : ℕ

-- enum pp_msg_format
pub data MsgFormat : Type 0 where
  sync_fmt delay_req_fmt pdelay_req_fmt pdelay_resp_fmt follow_up_fmt delay_resp_fmt : MsgFormat
  pdelay_r_fup_fmt announce_fmt signaling_fmt signaling_no_fwd_fmt management_fmt : MsgFormat

info : ℕ → ℕ → ℕ → ℕ → MsgTypeInfo
info t len control log = record {
  msg_type = t;
  msglen = len;
  control_field = control;
  log_message_interval = log;
}

-- The table pp_msgtype_info. A length of -1 in a uint16_t is 65535.
unfoldable pub pp_msgtype_info : MsgFormat → MsgTypeInfo
unfolding info
pp_msgtype_info MsgFormat.sync_fmt = info 0 44 0 1
pp_msgtype_info MsgFormat.delay_req_fmt = info 1 44 1 0x7f
pp_msgtype_info MsgFormat.pdelay_req_fmt = info 2 54 5 0x7f
pp_msgtype_info MsgFormat.pdelay_resp_fmt = info 3 54 5 0x7f
pp_msgtype_info MsgFormat.follow_up_fmt = info 8 44 2 1
pp_msgtype_info MsgFormat.delay_resp_fmt = info 9 54 3 2
pp_msgtype_info MsgFormat.pdelay_r_fup_fmt = info 10 54 5 0x7f
pp_msgtype_info MsgFormat.announce_fmt = info 11 64 5 0
pp_msgtype_info MsgFormat.signaling_fmt = info 12 65535 5 0x7f
pp_msgtype_info MsgFormat.signaling_no_fwd_fmt = info 12 65535 5 0x7f
pp_msgtype_info MsgFormat.management_fmt = info 13 65535 4 0x7f

-- What the packing functions write: the instance's tx_ptp and sent_seq.
pub record Sender : Type 0 where
  pub tx_ptp : Buffer
  pub sent_seq : ℕ → ℕ

-- The header fields of a received message. msg_unpack_header always returns 0.
unfoldable pub msg_unpack_header : Buffer → MsgHeader
msg_unpack_header buf = record {
  transport_specific = buf 0 / 16;
  message_type = buf 0 % 16;
  version_ptp = buf 1 % 16;
  message_length = get16 buf 2;
  domain_number = buf 4;
  flag_field_0 = buf 6;
  flag_field_1 = buf 7;
  source_port_identity = record {
    clock_identity = record { id = get_octets buf 20 8 };
    port_number = get16 buf 28;
  };
  sequence_id = get16 buf 30;
  log_message_interval = of_word 8 (buf 33);
  c_field = of_word 64 (get64 buf 8);
}

-- msg_init_header, for a port of version 2.`minor`
unfoldable pub msg_init_header : Buffer → ℕ → ℕ → ℕ → PortIdentity → Buffer
msg_init_header buf minor version domain pid =
    let buf = clear buf 0 34 in
    let buf = update buf 1 ((minor * 16 + version % 16) % 256) in
    let buf = update buf 4 domain in
    let buf = put_octets buf 20 pid.clock_identity.id in put16 buf 28 pid.port_number

-- __msg_set_seq_id
unfoldable pub msg_set_seq_id : Sender → MsgTypeInfo → Sender
msg_set_seq_id s mf =
    let seq = (s.sent_seq mf.msg_type + 1) % 2 ^ 16 in
    record { tx_ptp = put16 s.tx_ptp 30 seq; sent_seq = update s.sent_seq mf.msg_type seq }

-- The switch on the kind of interval.
unfoldable pub log_interval : PortDs → ℕ → ℤ
log_interval port log =
    if log == 0
    then pos port.log_announce_interval
    else if log == 1
    then port.log_sync_interval
    else if log == 2
    then port.log_min_delay_req_interval
    else pos log

-- __msg_pack_header; its result is mf.msglen
unfoldable pub msg_pack_header : PortDs → Buffer → MsgTypeInfo → Buffer
msg_pack_header port buf mf =
    let buf = update buf 0 mf.msg_type in
    let buf = put16 buf 2 mf.msglen in
    let buf = put64 buf 8 0 in
    let buf = update (update buf 6 0) 7 0 in
    let buf = update buf 32 mf.control_field in
    update buf 33 (to_word 8 (log_interval port mf.log_message_interval))
