-- ===== src/Msg/Events.antt =====
-- The messages of the delay measurement in proto-standard/msg.c: Sync, Follow_Up, Delay_Req and
-- Delay_Resp. The egress latency and the asymmetry are those of the port's data sets; `compliant` is false
-- when the hook is_correction_field_compliant is there and says so.
use ppsi.Ds.{MsgHeader, PortDs, PortIdentity, PpTime}
use ppsi.Msg.Bytes.{Buffer, clear, get16, get_octets, put16, put64, put_octets}
use ppsi.Msg.Header.{MsgFormat, Sender, msg_pack_header, msg_set_seq_id, pp_msgtype_info}
use ppsi.Msg.Timestamp.{pack_origin_timestamp, unpack_origin_timestamp}
use ppsi.Prelude.{Bool, if◌then◌else◌, neg_ℤ, pos, to_word, update, ℕ, ℤ, ◌%◌, ◌-ℤ◌, ◌^◌}
use ppsi.Time.Arith.{pp_time_add_interval}
use ppsi.Time.Convert.{pp_time_to_interval}

-- struct MsgDelayResp
pub record MsgDelayResp : Type 0 where
  pub receive_timestamp : PpTime
  pub requesting_port_identity : PortIdentity

abbrev pub two_step_flag : ℕ
two_step_flag = 2

-- The common start: the header, with its result, the length, left out.
abbrev pub start_msg : PortDs → Sender → MsgFormat → Sender
start_msg port s fmt = record s { tx_ptp = msg_pack_header port s.tx_ptp (pp_msgtype_info fmt) }

unfoldable pub msg_pack_sync : PortDs → ℤ → Sender → PpTime → Sender
msg_pack_sync port egress s t =
    let s1 = start_msg port s MsgFormat.sync_fmt in
    let s2 =
      msg_set_seq_id (record s1 { tx_ptp = update s1.tx_ptp 6 two_step_flag })
        (pp_msgtype_info MsgFormat.sync_fmt) in
    record s2 {
      tx_ptp = pack_origin_timestamp (clear s2.tx_ptp 34 10) (pp_time_add_interval t egress);
    }

-- msg_unpack_sync, msg_unpack_follow_up and msg_unpack_delay_req only read the timestamp.
unfoldable pub msg_unpack_sync : Buffer → PpTime
msg_unpack_sync buf = unpack_origin_timestamp buf

unfoldable pub msg_unpack_follow_up : Buffer → PpTime
msg_unpack_follow_up buf = unpack_origin_timestamp buf

unfoldable pub msg_unpack_delay_req : Buffer → PpTime
msg_unpack_delay_req buf = unpack_origin_timestamp buf

-- scaled_nsecs & 0xffff
unfoldable pub sub_ns : PpTime → ℕ
sub_ns t = to_word 64 t.scaled_nsecs % 2 ^ 16

unfoldable pub msg_pack_follow_up : PortDs → Sender → PpTime → Sender
msg_pack_follow_up port s t =
    let s1 = start_msg port s MsgFormat.follow_up_fmt in
    let buf = put16 s1.tx_ptp 30 (s.sent_seq 0) in
    record s1 { tx_ptp = put64 (pack_origin_timestamp buf t) 8 (sub_ns t) }

unfoldable pub msg_pack_delay_req : PortDs → ℤ → ℤ → Bool → Sender → PpTime → Sender
msg_pack_delay_req port egress asymmetry compliant s t =
    let s1 =
      msg_set_seq_id (start_msg port s MsgFormat.delay_req_fmt)
        (pp_msgtype_info MsgFormat.delay_req_fmt) in
    let correction = if compliant then neg_ℤ asymmetry else pos 0 in
    let buf = clear (put64 s1.tx_ptp 8 (to_word 64 correction)) 34 10 in
    record s1 { tx_ptp = pack_origin_timestamp buf (pp_time_add_interval t egress) }

-- The correction field of a Delay_Resp, for the header of the request and the time of its receipt.
unfoldable pub resp_correction : Bool → MsgHeader → PpTime → ℤ
resp_correction compliant hdr t =
    if compliant
    then pp_time_to_interval (record { secs = pos 0; scaled_nsecs = hdr.c_field }) -ℤ pos (sub_ns t)
    else pos (sub_ns t)

unfoldable pub msg_pack_delay_resp : PortDs → Bool → Sender → MsgHeader → PpTime → Sender
msg_pack_delay_resp port compliant s hdr t =
    let s1 = start_msg port s MsgFormat.delay_resp_fmt in
    let buf = put64 s1.tx_ptp 8 (to_word 64 (resp_correction compliant hdr t)) in
    let buf = pack_origin_timestamp (put16 buf 30 hdr.sequence_id) t in
    let buf = put_octets buf 44 hdr.source_port_identity.clock_identity.id in
    record s1 { tx_ptp = put16 buf 52 hdr.source_port_identity.port_number }

unfoldable pub msg_unpack_delay_resp : Buffer → MsgDelayResp
msg_unpack_delay_resp buf = record {
  receive_timestamp = unpack_origin_timestamp buf;
  requesting_port_identity = record {
    clock_identity = record { id = get_octets buf 44 8 };
    port_number = get16 buf 52;
  };
}
