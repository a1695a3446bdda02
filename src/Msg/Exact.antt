-- ===== src/Msg/Exact.antt =====
-- The time stamp and the correction field of a Follow_Up together are exact.
use ppsi.Ds.{PortDs, PpTime}
use ppsi.Msg.Bytes.{Buffer, get16, get16-put16, get32, get64, put16, put32, put64}
use ppsi.Msg.Events.{msg_pack_follow_up, msg_unpack_follow_up, start_msg, sub_ns}
use ppsi.Msg.Header.{MsgFormat, Sender, msg_unpack_header}
use ppsi.Msg.Timestamp.{
  pack_origin_timestamp, unpack-pack_origin_timestamp, unpack_origin_timestamp,
}
use ppsi.Prelude.{
  ap, arith, inl, inr, of_word, pos, refl, to_word, ℕ, ◌%◌, ◌*◌, ◌+◌, ◌/◌, ◌<◌, ◌^◌, ◌∙◌, ◌≡◌, ◌≤◌,
  ◌⊎◌,
}

get32-put32_mod : (buf : Buffer) (i v : ℕ) → get32 (put32 buf i v) i ≡ v % 2 ^ 32
unfolding get32 put32 get16 put16
get32-put32_mod buf i v = ground arith

get32-put32_above : (buf : Buffer) (i v : ℕ) → get32 (put32 buf (i + 4) v) i ≡ get32 buf i
unfolding get32 put32 get16 put16
get32-put32_above buf i v = ground arith

pub get64-put64 : (buf : Buffer) (i v : ℕ) → v < 2 ^ 64 → get64 (put64 buf i v) i ≡ v
unfolding get64 put64
get64-put64 buf i v h = omega (
  arith,
  get32-put32_above (put32 buf i (v / 2 ^ 32)) i v,
  get32-put32_mod buf i (v / 2 ^ 32),
  get32-put32_mod (put32 buf i (v / 2 ^ 32)) (i + 4) v,
)

pub put64_other : (buf : Buffer) (i v j : ℕ) → (j < i) ⊎ (i + 7 < j) → put64 buf i v j ≡ buf j
unfolding put64 put32 put16
put64_other buf i v j h = ground arith

-- The octets of a timestamp touch no other.
pub pack_origin_timestamp_other :
    (buf : Buffer) (t : PpTime) (j : ℕ)
    → (j < 34) ⊎ (43 < j)
    → pack_origin_timestamp buf t j ≡ buf j
unfolding pack_origin_timestamp put32 put16
pack_origin_timestamp_other buf t j h = ground arith

-- A timestamp is read from the ten octets at 34.
pub unpack_origin_timestamp_ext :
    (b c : Buffer)
    → ((j : ℕ) → 34 ≤ j → j ≤ 43 → b j ≡ c j)
    → unpack_origin_timestamp b ≡ unpack_origin_timestamp c
unfolding unpack_origin_timestamp get16 get32
unpack_origin_timestamp_ext b c same =
    rw
      (
        same 34 (omega arith) (omega arith),
        same 35 (omega arith) (omega arith),
        same 36 (omega arith) (omega arith),
        same 37 (omega arith) (omega arith),
        same 38 (omega arith) (omega arith),
        same 39 (omega arith) (omega arith),
        same 40 (omega arith) (omega arith),
        same 41 (omega arith) (omega arith),
        same 42 (omega arith) (omega arith),
        same 43 (omega arith) (omega arith),
      )
      refl

-- A time with 48 bits of seconds and less than 2^48 of 2^-16 nanoseconds
abbrev pub stamp : ℕ → ℕ → ℕ → PpTime
stamp secs nsecs fraction = record {
  secs = pos secs;
  scaled_nsecs = pos (nsecs * 2 ^ 16 + fraction);
}

abbrev pub whole_stamp : ℕ → ℕ → PpTime
whole_stamp secs nsecs = record { secs = pos secs; scaled_nsecs = pos (nsecs * 2 ^ 16) }

pub sub_ns-lt : (t : PpTime) → sub_ns t < 2 ^ 64
unfolding sub_ns
sub_ns-lt t = omega arith

pub sub_ns_lem :
    (secs nsecs fraction : ℕ) → fraction < 2 ^ 16 → sub_ns (stamp secs nsecs fraction) ≡ fraction
unfolding sub_ns to_word
sub_ns_lem secs nsecs fraction h = ground arith

sub_ns_field :
    (secs nsecs fraction : ℕ)
    → fraction < 2 ^ 16
    → of_word 64 (sub_ns (stamp secs nsecs fraction)) ≡ pos fraction
unfolding sub_ns to_word of_word
sub_ns_field secs nsecs fraction h = ground arith

-- What is behind the correction field and before the timestamp stays.
seq_kept :
    (buf : Buffer) (t : PpTime) (v : ℕ)
    → get16 (put64 (pack_origin_timestamp buf t) 8 v) 30 ≡ get16 buf 30
unfolding get16
seq_kept buf t v =
    rw
      (
        put64_other (pack_origin_timestamp buf t) 8 v 30 (inr (omega arith)),
        put64_other (pack_origin_timestamp buf t) 8 v 31 (inr (omega arith)),
        pack_origin_timestamp_other buf t 30 (inl (omega arith)),
        pack_origin_timestamp_other buf t 31 (inl (omega arith)),
      )
      refl

-- A Follow_Up tells the time of sending exactly: its timestamp holds the seconds and the whole
-- nanoseconds, its correction field the fraction, and its sequence number is that of the Sync, for a time
-- that fits the fields.
pub unpack-pack_follow_up :
    (port : PortDs) (s : Sender) (secs nsecs fraction : ℕ)
    → secs < 2 ^ 48
    → nsecs < 2 ^ 32
    → fraction < 2 ^ 16
    → s.sent_seq 0 < 2 ^ 16
    → (msg_unpack_follow_up (msg_pack_follow_up port s (stamp secs nsecs fraction)).tx_ptp
        ≡ whole_stamp secs nsecs)
      × ((msg_unpack_header (msg_pack_follow_up port s (stamp secs nsecs fraction)).tx_ptp).c_field
          ≡ pos fraction)
      × ((msg_unpack_header
            (msg_pack_follow_up port s (stamp secs nsecs fraction)).tx_ptp).sequence_id
          ≡ s.sent_seq 0)
unfolding msg_unpack_follow_up msg_pack_follow_up msg_unpack_header
unpack-pack_follow_up port s secs nsecs fraction hs hn hf hq =
    let buf = put16 (start_msg port s MsgFormat.follow_up_fmt).tx_ptp 30 (s.sent_seq 0) in
    let t = stamp secs nsecs fraction in
    (
      unpack_origin_timestamp_ext (put64 (pack_origin_timestamp buf t) 8 (sub_ns t))
            (pack_origin_timestamp buf t)
            (λ j lo hi. put64_other (pack_origin_timestamp buf t) 8 (sub_ns t) j (omega arith))
          ∙ unpack-pack_origin_timestamp buf secs nsecs fraction hs hn hf,
      ap (of_word 64) (get64-put64 (pack_origin_timestamp buf t) 8 (sub_ns t) (sub_ns-lt t))
          ∙ sub_ns_field secs nsecs fraction hf,
      seq_kept buf t (sub_ns t)
          ∙ get16-put16 (start_msg port s MsgFormat.follow_up_fmt).tx_ptp 30 (s.sent_seq 0) hq,
    )
