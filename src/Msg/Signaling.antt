-- ===== src/Msg/Signaling.antt =====
-- Signaling messages of proto-standard/msg.c, on a little-endian machine. The port number of the target is
-- written and read without a conversion to network order.
use ppsi.Ds.{PortDs, PortIdentity}
use ppsi.Msg.Bytes.{Buffer, get16, get_octets, put16, put_octets}
use ppsi.Msg.Events.{start_msg}
use ppsi.Msg.Header.{MsgFormat, Sender, msg_set_seq_id, pp_msgtype_info}
use ppsi.Prelude.{arith, update, ℕ, ◌%◌, ◌*◌, ◌+◌, ◌/◌, ◌<◌, ◌^◌, ◌≡◌}

-- struct MsgSignaling; `tlv` is the offset of the TLV in the buffer.
pub record MsgSignaling : Type 0 where
  pub target_port_identity : PortIdentity
  pub tlv : ℕ

-- *(UInteger16 *)(buf + i) = v and *(UInteger16 *)(buf + i) on the machine
unfoldable pub put_host16 : Buffer → ℕ → ℕ → Buffer
put_host16 buf i v = update (update buf i (v % 256)) (i + 1) (v / 256 % 256)

unfoldable pub get_host16 : Buffer → ℕ → ℕ
get_host16 buf i = buf i + buf (i + 1) * 256

-- __msg_pack_signaling for one of the two formats; msg_pack_signaling and msg_pack_signaling_no_fowardable
-- are its uses.
unfoldable pub pack_signaling_by :
    MsgFormat → PortDs → Sender → PortIdentity → (tlv_type tlv_length_field : ℕ) → Sender
pack_signaling_by fmt port s target tlv_type tlv_length_field =
    let s1 = msg_set_seq_id (start_msg port s fmt) (pp_msgtype_info fmt) in
    let buf = put_octets s1.tx_ptp 34 target.clock_identity.id in
    let buf = put_host16 buf 42 target.port_number in
    record s1 { tx_ptp = put16 (put16 buf 44 tlv_type) 46 tlv_length_field }

unfoldable pub msg_pack_signaling : PortDs → Sender → PortIdentity → ℕ → ℕ → Sender
msg_pack_signaling = pack_signaling_by MsgFormat.signaling_fmt

unfoldable pub msg_pack_signaling_no_forwardable : PortDs → Sender → PortIdentity → ℕ → ℕ → Sender
msg_pack_signaling_no_forwardable = pack_signaling_by MsgFormat.signaling_no_fwd_fmt

unfoldable pub msg_unpack_signaling : Buffer → MsgSignaling
msg_unpack_signaling buf = record {
  target_port_identity = record {
    clock_identity = record { id = get_octets buf 34 8 };
    port_number = get_host16 buf 42;
  };
  tlv = 44;
}

-- In network order, as another machine reads it, the port number has its octets swapped.
pub port_number-swapped :
    (port : PortDs) (s : Sender) (target : PortIdentity) (fmt : MsgFormat) (t n : ℕ)
    → target.port_number < 2 ^ 16
    → get16 (pack_signaling_by fmt port s target t n).tx_ptp 42
      ≡ target.port_number % 256 * 256 + target.port_number / 256
unfolding pack_signaling_by get16 put16 put_host16
port_number-swapped port s target fmt t n h = omega arith
