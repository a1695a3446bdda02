-- ===== src/Msg/RoundTrip.antt =====
-- An Announce that one device packs says to the other what the data sets of the first hold.
use ppsi.Ds.{Globals, MsgAnnounce, PortDs}
use ppsi.Msg.Announce.{
  msg_pack_announce, msg_unpack_announce, pack_announce_fields, pack_grandmaster,
}
use ppsi.Msg.Bytes.{Buffer, get16, get_octets, put16, put_octets}
use ppsi.Msg.Header.{MsgFormat, Sender, msg_pack_header, msg_set_seq_id, pp_msgtype_info}
use ppsi.Msg.Octets.{get_octets_eight, get_octets_ext, put_octets_other}
use ppsi.Prelude.{
  ap, arith, inl, length, negsuc, of_word, pos, refl, to_word, ℕ, ℤ, ◌%◌, ◌*◌, ◌+◌, ◌-◌, ◌<ℤ◌, ◌<◌,
  ◌^◌, ◌∙◌, ◌≡◌, ◌≤ℤ◌,
}

-- The data sets hold what their C types can: octets, 16-bit numbers and eight-octet identities.
pub record FitsAnnounce (g : Globals) : Type 0 where
  pub steps_removed : g.current_ds.steps_removed < 2 ^ 16
  pub variance : g.parent_ds.grandmaster_clock_quality.offset_scaled_log_variance < 2 ^ 16
  pub identity : length g.parent_ds.grandmaster_identity.id ≡ 8
  pub utc_low : negsuc (2 ^ 15 - 1) ≤ℤ g.time_properties_ds.current_utc_offset
  pub utc_high : g.time_properties_ds.current_utc_offset <ℤ pos (2 ^ 15)

pub of_word-to_word_16 :
    (z : ℤ) → negsuc (2 ^ 15 - 1) ≤ℤ z → z <ℤ pos (2 ^ 15) → of_word 16 (to_word 16 z) ≡ z
unfolding of_word to_word
of_word-to_word_16 z lo hi = ground arith

announce_identity :
    (g : Globals) (buf : Buffer)
    → length g.parent_ds.grandmaster_identity.id ≡ 8
    → get_octets (pack_announce_fields g buf) 53 8 ≡ g.parent_ds.grandmaster_identity.id
unfolding pack_announce_fields
announce_identity g buf h =
    get_octets_ext (pack_announce_fields g buf)
      (put_octets (pack_grandmaster g buf) 53 g.parent_ds.grandmaster_identity.id) 53 8
      (λ j lo hi. ground arith)
    ∙ get_octets_eight g.parent_ds.grandmaster_identity.id (pack_grandmaster g buf) 53 h

-- Below the identity, the octets are those packed before it.
announce_before :
    (g : Globals) (buf : Buffer) (j : ℕ)
    → j < 53
    → pack_announce_fields g buf j ≡ pack_grandmaster g buf j
unfolding pack_announce_fields
announce_before g buf j h = ground (
  arith,
  put_octets_other g.parent_ds.grandmaster_identity.id (pack_grandmaster g buf) 53 j (inl h),
)

to_word_16-lt : (z : ℤ) → to_word 16 z < 2 ^ 16
unfolding to_word
to_word_16-lt (pos n) = omega arith
to_word_16-lt (negsuc n) = omega arith

utc_octets :
    (g : Globals) (buf : Buffer)
    → pack_grandmaster g buf 44 * 256 + pack_grandmaster g buf 45
      ≡ to_word 16 g.time_properties_ds.current_utc_offset
unfolding pack_grandmaster put16
utc_octets g buf = omega (arith, to_word_16-lt g.time_properties_ds.current_utc_offset)

variance_octets :
    (g : Globals) (buf : Buffer)
    → FitsAnnounce g
    → pack_grandmaster g buf 50 * 256 + pack_grandmaster g buf 51
      ≡ g.parent_ds.grandmaster_clock_quality.offset_scaled_log_variance
unfolding pack_grandmaster put16
variance_octets g buf fits = omega (arith, fits.variance)

steps_octets :
    (g : Globals) (buf : Buffer)
    → FitsAnnounce g
    → (pack_announce_fields g buf 61 * 256 + pack_announce_fields g buf 62) % 2 ^ 16
      ≡ g.current_ds.steps_removed
unfolding pack_announce_fields
steps_octets g buf fits = omega (arith, fits.steps_removed)

grandmaster_octets :
    (g : Globals) (buf : Buffer)
    → (pack_grandmaster g buf 47 ≡ g.parent_ds.grandmaster_priority1)
      × (pack_grandmaster g buf 48 ≡ g.parent_ds.grandmaster_clock_quality.clock_class)
      × (pack_grandmaster g buf 49 ≡ g.parent_ds.grandmaster_clock_quality.clock_accuracy)
      × (pack_grandmaster g buf 52 ≡ g.parent_ds.grandmaster_priority2)
unfolding pack_grandmaster put16
grandmaster_octets g buf = (refl, refl, refl, refl)

announce_quality :
    (g : Globals) (buf : Buffer)
    → FitsAnnounce g
    → (msg_unpack_announce (pack_announce_fields g buf)).grandmaster_clock_quality
      ≡ g.parent_ds.grandmaster_clock_quality
unfolding msg_unpack_announce get16
announce_quality g buf fits =
    rw
      (
        announce_before g buf 48 (omega arith),
        announce_before g buf 49 (omega arith),
        announce_before g buf 50 (omega arith),
        announce_before g buf 51 (omega arith),
      )
      (rw (variance_octets g buf fits) (unfold pack_grandmaster put16 in refl))

announce_utc :
    (g : Globals) (buf : Buffer)
    → get16 (pack_announce_fields g buf) 44 ≡ to_word 16 g.time_properties_ds.current_utc_offset
unfolding get16
announce_utc g buf =
    rw (announce_before g buf 44 (omega arith), announce_before g buf 45 (omega arith))
      (utc_octets g buf)

-- What the peer reads is what the sender's data sets hold.
pub record TellsDataSets (g : Globals) (ann : MsgAnnounce) : Type 0 where
  pub utc : ann.current_utc_offset ≡ g.time_properties_ds.current_utc_offset
  pub priority1 : ann.grandmaster_priority1 ≡ g.parent_ds.grandmaster_priority1
  pub quality : ann.grandmaster_clock_quality ≡ g.parent_ds.grandmaster_clock_quality
  pub priority2 : ann.grandmaster_priority2 ≡ g.parent_ds.grandmaster_priority2
  pub identity : ann.grandmaster_identity ≡ g.parent_ds.grandmaster_identity
  pub steps : ann.steps_removed ≡ g.current_ds.steps_removed
  pub source : ann.time_source ≡ g.time_properties_ds.time_source

fields_tell :
    (g : Globals) (buf : Buffer)
    → FitsAnnounce g
    → TellsDataSets g (msg_unpack_announce (pack_announce_fields g buf))
unfolding msg_unpack_announce
fields_tell g buf fits = record {
  utc =
      ap (of_word 16) (announce_utc g buf)
      ∙ of_word-to_word_16 g.time_properties_ds.current_utc_offset fits.utc_low fits.utc_high;
  priority1 = announce_before g buf 47 (omega arith) ∙ (grandmaster_octets g buf).0;
  quality = announce_quality g buf fits;
  priority2 = announce_before g buf 52 (omega arith) ∙ (grandmaster_octets g buf).3;
  identity = λ i. record { id = announce_identity g buf fits.identity i };
  steps = steps_octets g buf fits;
  source = unfold pack_announce_fields in refl;
}

-- An Announce packed from the data sets and unpacked by the peer tells the peer the grandmaster, its
-- quality and priorities, the UTC offset, the steps removed and the time source of the sender, for
-- data sets that hold what their C types can.
pub unpack-pack_announce :
    (g : Globals) (port : PortDs) (s : Sender)
    → FitsAnnounce g
    → TellsDataSets g (msg_unpack_announce (msg_pack_announce g port s).tx_ptp)
unfolding msg_pack_announce
unpack-pack_announce g port s fits =
    fields_tell g
      (msg_set_seq_id
        (record s {
          tx_ptp = msg_pack_header port s.tx_ptp (pp_msgtype_info MsgFormat.announce_fmt);
        })
        (pp_msgtype_info MsgFormat.announce_fmt)).tx_ptp
      fits
