-- ===== src/Wr/Packing.antt =====
-- msg_pack_wrsig of proto-ext-whiterabbit/wr-msg.c, on a little-endian machine, and its round trip.
use mathlib.Core.Path.{subst}
use ppsi.Ds.{PortIdentity}
use ppsi.Msg.Bytes.{Buffer, get16, get32, put16, put32, put_octets}
use ppsi.Prelude.{
  ap, arith, if◌then◌else◌, refl, some, sym, true, update, ℕ, ◌*◌, ◌+◌, ◌/◌, ◌<◌, ◌==◌, ◌^◌, ◌∙◌,
  ◌≡◌,
}
use ppsi.Wr.Port.{World, WrPort}
use ppsi.Wr.Signaling.{calibrate_id, calibrated_id, is_wr_tlv, msg_unpack_wrsig, note_other_node}

-- What follows the message's id, with its length and that of the id and the TLV's start.
unfoldable pub pack_wrsig_data : WrPort → ℕ → Buffer → Buffer × ℕ
pack_wrsig_data q id buf =
    if id == calibrate_id
    then (
      put32 (put16 buf 56 (q.cal_retry + (if q.was_calibrated then 0 else 256))) 58 q.cal_period,
      14,
    )
    else if id == calibrated_id
    then (
      put32 (put32 (put32 (put32 buf 56 q.delta_tx.msb) 60 q.delta_tx.lsb) 64 q.delta_rx.msb) 68
          q.delta_rx.lsb,
      24,
    )
    else (buf, 8)

-- The TLV of White Rabbit up to the message's id.
unfoldable pub pack_wr_tlv : ℕ → Buffer → Buffer
pack_wr_tlv id buf =
    put16 (put16 (put16 (put16 (put16 buf 44 3) 48 0x0800) 50 0x30de) 52 0xad01) 54 id

-- The header's part, and the target: the port of the parent.
unfoldable pub pack_wrsig_header : PortIdentity → Buffer → Buffer
pack_wrsig_header target buf =
    let buf = update buf 0 (buf 0 / 16 * 16 + 12) in
    let buf = update (update buf 32 5) 33 0x7f in
    put16 (put_octets buf 34 target.clock_identity.id) 42 target.port_number

-- The message and its length.
unfoldable pub msg_pack_wrsig : PortIdentity → WrPort → ℕ → Buffer → Buffer × ℕ
msg_pack_wrsig target q id buf =
    let (buf, len) = pack_wrsig_data q id (pack_wr_tlv id (pack_wrsig_header target buf)) in
    (put16 (put16 buf 2 (48 + len)) 46 len, 48 + len)

-- The port holds what its C types can.
pub record FitsWrsig (q : WrPort) : Type 0 where
  pub retry : q.cal_retry < 2 ^ 8
  pub period : q.cal_period < 2 ^ 32
  pub tx_msb : q.delta_tx.msb < 2 ^ 32
  pub tx_lsb : q.delta_tx.lsb < 2 ^ 32
  pub rx_msb : q.delta_rx.msb < 2 ^ 32
  pub rx_lsb : q.delta_rx.lsb < 2 ^ 32

-- What CALIBRATE tells the other node.
abbrev pub LearntPeriod : WrPort → WrPort → Type 0
LearntPeriod q r =
    (r.other_node_cal_period ≡ q.cal_period)
    × (r.other_node_cal_retry ≡ q.cal_retry)
    × (r.other_node_cal_send_pattern ≡ (if q.was_calibrated then 0 else 1))

-- What CALIBRATED tells the other node.
abbrev pub LearntDelays : WrPort → WrPort → Type 0
LearntDelays q r = (r.other_node_delta_tx ≡ q.delta_tx) × (r.other_node_delta_rx ≡ q.delta_rx)

packed-is_wr_tlv :
    (target : PortIdentity) (q : WrPort) (id : ℕ) (buf : Buffer)
    → is_wr_tlv (msg_pack_wrsig target q id buf).0 ≡ true
unfolding msg_pack_wrsig pack_wrsig_data pack_wr_tlv is_wr_tlv get16 put16 put32
packed-is_wr_tlv target q id buf = ground arith

packed-id :
    (target : PortIdentity) (q : WrPort) (id : ℕ) (buf : Buffer)
    → id < 2 ^ 16
    → get16 (msg_pack_wrsig target q id buf).0 54 ≡ id
unfolding msg_pack_wrsig pack_wrsig_data pack_wr_tlv get16 put16 put32
packed-id target q id buf h = ground arith

calibrate-Learnt :
    (target : PortIdentity) (q r : WrPort) (buf : Buffer)
    → FitsWrsig q
    → LearntPeriod q (note_other_node (msg_pack_wrsig target q calibrate_id buf).0 r)
unfolding note_other_node msg_pack_wrsig pack_wrsig_data get16 put16 put32 pack_wr_tlv
calibrate-Learnt target q r buf fits = (ground arith, ground arith, ground arith)

calibrated-Learnt :
    (target : PortIdentity) (q r : WrPort) (buf : Buffer)
    → FitsWrsig q
    → LearntDelays q (note_other_node (msg_pack_wrsig target q calibrated_id buf).0 r)
unfolding note_other_node msg_pack_wrsig pack_wrsig_data get16 put16 put32 get32 pack_wr_tlv
calibrated-Learnt target q r buf fits = (ground arith, ground arith)

unpacked-port :
    (w : World) (ppi : ℕ) (buf : Buffer)
    → is_wr_tlv buf ≡ true
    → ((msg_unpack_wrsig w ppi buf).1 ≡ some (get16 buf 54))
      × ((msg_unpack_wrsig w ppi buf).0.wr_ports ppi ≡ note_other_node buf (w.wr_ports ppi))
unfolding msg_unpack_wrsig
unpacked-port w ppi buf h = (rw h refl, ground arith)

-- A message of the handshake is read back with its id; CALIBRATE tells the calibration period, the
-- retries and the pattern of the sender, and CALIBRATED its two fixed delays, for a sender whose
-- fields hold what their C types can, on a little-endian machine.
pub unpack-pack_wrsig :
    (w : World) (ppi : ℕ) (target : PortIdentity) (q : WrPort) (id : ℕ) (buf : Buffer)
    → FitsWrsig q
    → id < 2 ^ 16
    → ((msg_unpack_wrsig w ppi (msg_pack_wrsig target q id buf).0).1 ≡ some id)
      × (id ≡ calibrate_id
          → LearntPeriod q
              ((msg_unpack_wrsig w ppi (msg_pack_wrsig target q id buf).0).0.wr_ports ppi))
      × (id ≡ calibrated_id
          → LearntDelays q
              ((msg_unpack_wrsig w ppi (msg_pack_wrsig target q id buf).0).0.wr_ports ppi))
unpack-pack_wrsig w ppi target q id buf fits h =
    let read =
      unpacked-port w ppi (msg_pack_wrsig target q id buf).0 (packed-is_wr_tlv target q id buf) in
    (
      read.0 ∙ ap some (packed-id target q id buf h),
      λ e. subst (LearntPeriod q) (sym read.1) (
          subst
            (λ i.
              LearntPeriod q (note_other_node (msg_pack_wrsig target q i buf).0 (w.wr_ports ppi)))
            (sym e) (calibrate-Learnt target q (w.wr_ports ppi) buf fits)),
      λ e. subst (LearntDelays q) (sym read.1) (
          subst
            (λ i.
              LearntDelays q (note_other_node (msg_pack_wrsig target q i buf).0 (w.wr_ports ppi)))
            (sym e) (calibrated-Learnt target q (w.wr_ports ppi) buf fits)),
    )
