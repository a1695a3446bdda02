-- ===== src/Scenarios/Messages.antt =====
-- Messages that go out and are read back.
use ppsi.Msg.Announce.{msg_pack_announce, msg_unpack_announce}
use ppsi.Msg.Header.{Sender}
use ppsi.Msg.RoundTrip.{FitsAnnounce, TellsDataSets, unpack-pack_announce}
use ppsi.Prelude.{arith, refl}
use ppsi.Scenarios.Device.{sample, sample_port}

sample-FitsAnnounce : FitsAnnounce sample
sample-FitsAnnounce = record {
  steps_removed = omega arith;
  variance = omega arith;
  identity = refl;
  utc_low = omega arith;
  utc_high = omega arith;
}

abbrev pub silent_sender : Sender
silent_sender = record { tx_ptp = λ i. 0; sent_seq = λ t. 41 }

unpack-pack_announce_example :
    TellsDataSets sample
      (msg_unpack_announce (msg_pack_announce sample sample_port.port_ds silent_sender).tx_ptp)
unpack-pack_announce_example =
    unpack-pack_announce sample sample_port.port_ds silent_sender sample-FitsAnnounce
