-- ===== src/Msg/Announce.antt =====
-- The Announce message: msg_set_announce_flags, msg_pack_announce and msg_unpack_announce, without
-- the hooks of an extension.
use ppsi.Ds.{Globals, MsgAnnounce, PortDs, TimePropertiesDs}
use ppsi.Msg.Bytes.{Buffer, clear, get16, get_octets, put16, put_octets}
use ppsi.Msg.Header.{MsgFormat, Sender, msg_pack_header, msg_set_seq_id, pp_msgtype_info}
use ppsi.Msg.Timestamp.{unpack_origin_timestamp}
use ppsi.Prelude.{
  Bool, [], if◌then◌else◌, of_word, to_word, update, ℕ, ◌%◌, ◌*◌, ◌+◌, ◌/◌, ◌^◌, ◌∷◌,
}

abbrev bit : Bool → ℕ → ℕ
bit b v = if b then v else 0

-- Byte 1 of the flags, a bit for each field of timePropertiesDS, as table 20 orders them.
unfoldable pub announce_flags : TimePropertiesDs → ℕ
announce_flags prop =
    bit prop.leap61 1
    + bit prop.leap59 2
    + bit prop.current_utc_offset_valid 4
    + bit prop.ptp_timescale 8
    + bit prop.time_traceable 16
    + bit prop.frequency_traceable 32

-- The octets before the grandmaster's identity.
unfoldable pub pack_grandmaster : Globals → Buffer → Buffer
pack_grandmaster g buf =
    let par = g.parent_ds in
    let buf = update (update buf 6 0) 7 (announce_flags g.time_properties_ds) in
    let buf = clear buf 34 30 in
    let buf = put16 buf 44 (to_word 16 g.time_properties_ds.current_utc_offset) in
    let buf = update buf 47 par.grandmaster_priority1 in
    let buf = update buf 48 par.grandmaster_clock_quality.clock_class in
    let buf = update buf 49 par.grandmaster_clock_quality.clock_accuracy in
    let buf = put16 buf 50 par.grandmaster_clock_quality.offset_scaled_log_variance in
    update buf 52 par.grandmaster_priority2

-- The identity and the octets after it.
unfoldable pub pack_announce_fields : Globals → Buffer → Buffer
pack_announce_fields g buf =
    let buf = put_octets (pack_grandmaster g buf) 53 g.parent_ds.grandmaster_identity.id in
    let buf = update buf 61 (g.current_ds.steps_removed / 256 % 256) in
    let buf = update buf 62 (g.current_ds.steps_removed % 256) in
    update buf 63 g.time_properties_ds.time_source

unfoldable pub msg_pack_announce : Globals → PortDs → Sender → Sender
msg_pack_announce g port s =
    let mf = pp_msgtype_info MsgFormat.announce_fmt in
    let s = msg_set_seq_id (record s { tx_ptp = msg_pack_header port s.tx_ptp mf }) mf in
    record s { tx_ptp = pack_announce_fields g s.tx_ptp }

unfoldable pub msg_unpack_announce : Buffer → MsgAnnounce
msg_unpack_announce buf = record {
  origin_timestamp = unpack_origin_timestamp buf;
  current_utc_offset = of_word 16 (get16 buf 44);
  grandmaster_priority1 = buf 47;
  grandmaster_clock_quality = record {
    clock_class = buf 48;
    clock_accuracy = buf 49;
    offset_scaled_log_variance = get16 buf 50;
  };
  grandmaster_priority2 = buf 52;
  grandmaster_identity = record { id = get_octets buf 53 8 };
  steps_removed = (buf 61 * 256 + buf 62) % 2 ^ 16;
  time_source = buf 63;
  ext_specific = 0 ∷ 0 ∷ 0 ∷ 0 ∷ [];
}
