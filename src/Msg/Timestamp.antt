-- ===== src/Msg/Timestamp.antt =====
-- The ten octets of a timestamp in a message.
use ppsi.Ds.{PpTime}
use ppsi.Msg.Bytes.{Buffer, get16, get32, put16, put32}
use ppsi.Prelude.{arith, pos, to_word, ℕ, ◌%◌, ◌*◌, ◌+◌, ◌/◌, ◌<◌, ◌^◌, ◌≡◌}

-- __pack_origin_timestamp: 48 bits of seconds and 32 bits of nanoseconds
unfoldable pub pack_origin_timestamp : Buffer → PpTime → Buffer
pack_origin_timestamp buf t =
    put32
      (put32 (put16 buf 34 (to_word 64 t.secs / 2 ^ 32 % 2 ^ 16)) 36 (to_word 64 t.secs % 2 ^ 32))
      40 (to_word 64 t.scaled_nsecs / 2 ^ 16 % 2 ^ 32)

-- __unpack_origin_timestamp
unfoldable pub unpack_origin_timestamp : Buffer → PpTime
unpack_origin_timestamp buf = record {
  secs = pos (get16 buf 34 * 2 ^ 32 + get32 buf 36);
  scaled_nsecs = pos (get32 buf 40 * 2 ^ 16);
}

-- A timestamp of 48 bits of seconds and 32 bits of nanoseconds is read back as it was, without the
-- fraction of a nanosecond, which does not travel in these octets.
pub unpack-pack_origin_timestamp :
    (buf : Buffer) (secs nsecs fraction : ℕ)
    → secs < 2 ^ 48
    → nsecs < 2 ^ 32
    → fraction < 2 ^ 16
    → unpack_origin_timestamp (
        pack_origin_timestamp buf
          (record { secs = pos secs; scaled_nsecs = pos (nsecs * 2 ^ 16 + fraction) }))
      ≡ record { secs = pos secs; scaled_nsecs = pos (nsecs * 2 ^ 16) }
unfolding unpack_origin_timestamp pack_origin_timestamp to_word get16 put16 get32 put32
unpack-pack_origin_timestamp buf secs nsecs fraction hs hn hf = ground arith
