-- ===== src/Msg/Answer.antt =====
-- What a Delay_Resp tells the port that asked.
use mathlib.Core.Path.{ap₂}
use ppsi.Ds.{MsgHeader, PortDs, PpTime}
use ppsi.Msg.Bytes.{
  Buffer, get16, get16-put16, get32, get64, get_octets, put16, put16_other, put64, put_octets,
}
use ppsi.Msg.Events.{msg_pack_delay_resp, msg_unpack_delay_resp, resp_correction, start_msg}
use ppsi.Msg.Exact.{
  get64-put64, pack_origin_timestamp_other, stamp, sub_ns_lem, unpack_origin_timestamp_ext,
  whole_stamp,
}
use ppsi.Msg.Header.{MsgFormat, Sender, msg_unpack_header}
use ppsi.Msg.Octets.{get_octets_eight, get_octets_ext, put_octets_other}
use ppsi.Msg.Timestamp.{pack_origin_timestamp, unpack-pack_origin_timestamp}
use ppsi.Prelude.{
  Bool, ap, arith, inl, length, negsuc, of_word, pos, refl, to_word, true, ℕ, ℤ, ◌*ℤ◌, ◌+ℤ◌, ◌+◌,
  ◌-ℤ◌, ◌-◌, ◌<ℤ◌, ◌<◌, ◌^◌, ◌∙◌, ◌≡◌, ◌≤ℤ◌, ◌≤◌,
}
use ppsi.Time.Convert.{pp_time_to_interval}

-- Signed 64-bit numbers survive the field.
of_word-to_word_64 :
    (z : ℤ) → negsuc (2 ^ 63 - 1) ≤ℤ z → z <ℤ pos (2 ^ 63) → of_word 64 (to_word 64 z) ≡ z
unfolding of_word to_word
of_word-to_word_64 z lo hi = ground arith

to_word_64-lt : (z : ℤ) → to_word 64 z < 2 ^ 64
unfolding to_word
to_word_64-lt (pos n) = omega arith
to_word_64-lt (negsuc n) = omega arith

abbrev resp_stamped : PortDs → Bool → Sender → MsgHeader → PpTime → Buffer
resp_stamped port compliant s hdr t =
    put16
      (put64 (start_msg port s MsgFormat.delay_resp_fmt).tx_ptp 8
        (to_word 64 (resp_correction compliant hdr t)))
      30 hdr.sequence_id

-- The octets of a Delay_Resp before the identity of the asking port
abbrev resp_start : PortDs → Bool → Sender → MsgHeader → PpTime → Buffer
resp_start port compliant s hdr t = pack_origin_timestamp (resp_stamped port compliant s hdr t) t

resp_before :
    (port : PortDs) (compliant : Bool) (s : Sender) (hdr : MsgHeader) (t : PpTime) (j : ℕ)
    → j < 44
    → (msg_pack_delay_resp port compliant s hdr t).tx_ptp j ≡ resp_start port compliant s hdr t j
unfolding msg_pack_delay_resp
resp_before port compliant s hdr t j h =
    let id = hdr.source_port_identity.clock_identity.id in
    let start = resp_start port compliant s hdr t in
    put16_other (put_octets start 44 id) 52 hdr.source_port_identity.port_number j
      (inl (omega arith))
    ∙ put_octets_other id start 44 j (inl h)

get64_ext :
    (b c : Buffer) (i : ℕ) → ((j : ℕ) → i ≤ j → j < i + 8 → b j ≡ c j) → get64 b i ≡ get64 c i
unfolding get64 get32 get16
get64_ext b c i same =
    rw
      (
        same i (omega arith) (omega arith),
        same (i + 1) (omega arith) (omega arith),
        same (i + 2) (omega arith) (omega arith),
        same (i + 2 + 1) (omega arith) (omega arith),
        same (i + 4) (omega arith) (omega arith),
        same (i + 4 + 1) (omega arith) (omega arith),
        same (i + 4 + 2) (omega arith) (omega arith),
        same (i + 4 + 2 + 1) (omega arith) (omega arith),
      )
      refl

interval_of_nsecs :
    (z : ℤ)
    → negsuc (2 ^ 62 - 1) ≤ℤ z
    → z <ℤ pos (2 ^ 62)
    → pp_time_to_interval (record { secs = pos 0; scaled_nsecs = z }) ≡ z
unfolding pp_time_to_interval ◌+ℤ◌ ◌*ℤ◌ of_word to_word
interval_of_nsecs z lo hi = ground arith

resp_correction_lem :
    (hdr : MsgHeader) (secs nsecs fraction : ℕ)
    → fraction < 2 ^ 16
    → negsuc (2 ^ 62 - 1) ≤ℤ hdr.c_field
    → hdr.c_field <ℤ pos (2 ^ 62)
    → resp_correction true hdr (stamp secs nsecs fraction) ≡ hdr.c_field -ℤ pos fraction
unfolding resp_correction
resp_correction_lem hdr secs nsecs fraction h lo hi =
    ap₂ (λ z n. z -ℤ pos n) (interval_of_nsecs hdr.c_field lo hi) (sub_ns_lem secs nsecs fraction h)

correction_fits :
    (z : ℤ) (fraction : ℕ)
    → fraction < 2 ^ 16
    → negsuc (2 ^ 62 - 1) ≤ℤ z
    → z <ℤ pos (2 ^ 62)
    → of_word 64 (to_word 64 (z -ℤ pos fraction)) ≡ z -ℤ pos fraction
unfolding ◌-ℤ◌
correction_fits z fraction h lo hi =
    of_word-to_word_64 (z -ℤ pos fraction) (ground arith) (ground arith)

-- The correction field and the sequence number, among the octets before the identity
resp_field :
    (port : PortDs) (compliant : Bool) (s : Sender) (hdr : MsgHeader) (t : PpTime)
    → get64 (msg_pack_delay_resp port compliant s hdr t).tx_ptp 8
      ≡ to_word 64 (resp_correction compliant hdr t)
resp_field port compliant s hdr t =
    let start = (start_msg port s MsgFormat.delay_resp_fmt).tx_ptp in
    let v = to_word 64 (resp_correction compliant hdr t) in
    get64_ext (msg_pack_delay_resp port compliant s hdr t).tx_ptp (put64 start 8 v) 8 (λ j lo hi.
      resp_before port compliant s hdr t j (omega arith)
      ∙ pack_origin_timestamp_other (put16 (put64 start 8 v) 30 hdr.sequence_id) t j
          (inl (omega arith))
      ∙ put16_other (put64 start 8 v) 30 hdr.sequence_id j (inl (omega arith)))
    ∙ get64-put64 start 8 v (to_word_64-lt (resp_correction compliant hdr t))

resp_sequence :
    (port : PortDs) (compliant : Bool) (s : Sender) (hdr : MsgHeader) (t : PpTime)
    → hdr.sequence_id < 2 ^ 16
    → get16 (msg_pack_delay_resp port compliant s hdr t).tx_ptp 30 ≡ hdr.sequence_id
unfolding get16
resp_sequence port compliant s hdr t h =
    let start =
      put64 (start_msg port s MsgFormat.delay_resp_fmt).tx_ptp 8
        (to_word 64 (resp_correction compliant hdr t)) in
    let kept = λ (j : ℕ) (low : j < 34).
      resp_before port compliant s hdr t j (omega arith)
      ∙ pack_origin_timestamp_other (put16 start 30 hdr.sequence_id) t j (inl low) in
    rw (kept 30 (omega arith), kept 31 (omega arith)) (get16-put16 start 30 hdr.sequence_id h)

resp_id :
    (port : PortDs) (compliant : Bool) (s : Sender) (hdr : MsgHeader) (t : PpTime)
    → length hdr.source_port_identity.clock_identity.id ≡ 8
    → get_octets (msg_pack_delay_resp port compliant s hdr t).tx_ptp 44 8
      ≡ hdr.source_port_identity.clock_identity.id
unfolding msg_pack_delay_resp
resp_id port compliant s hdr t h =
    let id = hdr.source_port_identity.clock_identity.id in
    let start = resp_start port compliant s hdr t in
    get_octets_ext (msg_pack_delay_resp port compliant s hdr t).tx_ptp (put_octets start 44 id) 44 8
      (λ j lo hi.
        put16_other (put_octets start 44 id) 52 hdr.source_port_identity.port_number j
          (inl (omega arith)))
    ∙ get_octets_eight id start 44 h

resp_port :
    (port : PortDs) (compliant : Bool) (s : Sender) (hdr : MsgHeader) (t : PpTime)
    → hdr.source_port_identity.port_number < 2 ^ 16
    → get16 (msg_pack_delay_resp port compliant s hdr t).tx_ptp 52
      ≡ hdr.source_port_identity.port_number
unfolding msg_pack_delay_resp
resp_port port compliant s hdr t h =
    get16-put16
      (put_octets (resp_start port compliant s hdr t) 44 hdr.source_port_identity.clock_identity.id)
      52 hdr.source_port_identity.port_number h

-- The request's header holds what its C types can, and a correction of less than 2^62.
pub record FitsRequest (hdr : MsgHeader) : Type 0 where
  pub identity : length hdr.source_port_identity.clock_identity.id ≡ 8
  pub port : hdr.source_port_identity.port_number < 2 ^ 16
  pub sequence : hdr.sequence_id < 2 ^ 16
  pub correction_low : negsuc (2 ^ 62 - 1) ≤ℤ hdr.c_field
  pub correction_high : hdr.c_field <ℤ pos (2 ^ 62)

-- A message answers the request `hdr` that arrived at the time of the seconds, nanoseconds and fraction.
pub record Answers (hdr : MsgHeader) (secs nsecs fraction : ℕ) (buf : Buffer) : Type 0 where
  pub asked_by : (msg_unpack_delay_resp buf).requesting_port_identity ≡ hdr.source_port_identity
  pub sequence : (msg_unpack_header buf).sequence_id ≡ hdr.sequence_id
  pub received : (msg_unpack_delay_resp buf).receive_timestamp ≡ whole_stamp secs nsecs
  pub correction : (msg_unpack_header buf).c_field ≡ hdr.c_field -ℤ pos fraction

-- A Delay_Resp that is packed for a request and unpacked by the port that asked names that port and the
-- request, and its timestamp less its correction field is exactly the time of receipt less the request's
-- own correction: the timestamp holds the whole nanoseconds, and the correction is the request's less the
-- fraction of a nanosecond. The extension complies with the standard's use of the field.
pub unpack-pack_delay_resp :
    (port : PortDs) (s : Sender) (hdr : MsgHeader) (secs nsecs fraction : ℕ)
    → FitsRequest hdr
    → secs < 2 ^ 48
    → nsecs < 2 ^ 32
    → fraction < 2 ^ 16
    → Answers hdr secs nsecs fraction
        (msg_pack_delay_resp port true s hdr (stamp secs nsecs fraction)).tx_ptp
unfolding msg_unpack_delay_resp msg_unpack_header
unpack-pack_delay_resp port s hdr secs nsecs fraction fits hs hn hf =
    let t = stamp secs nsecs fraction in
    let buf = (msg_pack_delay_resp port true s hdr t).tx_ptp in
    record {
      asked_by = λ i. record {
        clock_identity = record { id = resp_id port true s hdr t fits.identity i };
        port_number = resp_port port true s hdr t fits.port i;
      };
      sequence = resp_sequence port true s hdr t fits.sequence;
      received =
          unpack_origin_timestamp_ext buf (resp_start port true s hdr t)
            (λ j lo hi. resp_before port true s hdr t j (omega arith))
          ∙ unpack-pack_origin_timestamp (resp_stamped port true s hdr t) secs nsecs fraction hs hn
              hf;
      correction =
          ap (of_word 64) (
            resp_field port true s hdr t
            ∙ ap (to_word 64) (
                resp_correction_lem hdr secs nsecs fraction hf fits.correction_low
                  fits.correction_high))
          ∙ correction_fits hdr.c_field fraction hf fits.correction_low fits.correction_high;
    }
