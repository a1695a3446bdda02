-- ===== src/Wr/Signaling.antt =====
-- msg_unpack_wrsig of proto-ext-whiterabbit/wr-msg.c: the White Rabbit TLV of a signaling message.
use ppsi.Ds.{PdState, ppm_signaling}
use ppsi.Fsm.Link.{pdstate_set_state_pdetected}
use ppsi.Msg.Bytes.{Buffer, get16, get32}
use ppsi.Prelude.{
  Bool, Option, false, if◌then◌else◌, none, some, true, ℕ, ◌%◌, ◌&&◌, ◌*◌, ◌+◌, ◌/◌, ◌==◌,
}
use ppsi.Wr.Port.{World, WrPort, set_globals, set_wr}

-- The messages of the handshake.
abbrev pub slave_present_id : ℕ
slave_present_id = 0x1000

abbrev pub lock_id : ℕ
lock_id = 0x1001

abbrev pub locked_id : ℕ
locked_id = 0x1002

abbrev pub calibrate_id : ℕ
calibrate_id = 0x1003

abbrev pub calibrated_id : ℕ
calibrated_id = 0x1004

abbrev pub wr_mode_on_id : ℕ
wr_mode_on_id = 0x1005

-- Is it the TLV of White Rabbit: type, organization, magic number and version?
unfoldable pub is_wr_tlv : Buffer → Bool
is_wr_tlv buf =
    (get16 buf 44 == 3)
    && (get16 buf 48 * 256 + get16 buf 50 / 256 == 0x080030)
    && (get16 buf 50 % 256 * 256 + get16 buf 52 / 256 == 0xdead)
    && (get16 buf 52 % 256 == 1)

-- What the message tells about the other node.
unfoldable pub note_other_node : Buffer → WrPort → WrPort
note_other_node buf q =
    let id = get16 buf 54 in
    if id == calibrate_id
    then record q {
      other_node_cal_send_pattern = get16 buf 56 / 256;
      other_node_cal_retry = get16 buf 56 % 256;
      other_node_cal_period = get16 buf 58 * 65536 + get16 buf 60;
    }
    else if id == calibrated_id
    then record q {
      other_node_delta_tx = record { msb = get32 buf 56; lsb = get32 buf 60 };
      other_node_delta_rx = record { msb = get32 buf 64; lsb = get32 buf 68 };
    }
    else q

abbrev pub is_pdetection : PdState → Bool
is_pdetection PdState.pd_pdetection = true
is_pdetection _ = false

-- The message's id, or `none` for the result 0.
unfoldable pub msg_unpack_wrsig : World → ℕ → Buffer → World × Option ℕ
msg_unpack_wrsig w ppi buf =
    let w1 = set_wr w ppi (note_other_node buf (w.wr_ports ppi)) in
    let w2 =
      if is_pdetection (w1.globals.inst ppi).pdstate
      then set_globals w1 (pdstate_set_state_pdetected w1.globals ppi)
      else w1 in
    if is_wr_tlv buf then (w2, some (get16 buf 54)) else (w, none)

-- The message of the port, if it holds a signaling message of White Rabbit. A message of that type
-- always comes with its buffer.
unfoldable pub receive_wrsig : World → ℕ → Option Buffer → World × Option ℕ
receive_wrsig w ppi none = (w, none)
receive_wrsig w ppi (some buf) =
    if (w.globals.inst ppi).received_ptp_header.message_type == ppm_signaling
    then msg_unpack_wrsig w ppi buf
    else (w, none)
