-- ===== src/Ds/Identity.antt =====
-- Identities and qualities of clocks and ports, as in include/ppsi/ieee1588_types.h.
use ppsi.Prelude.{List, ℕ, ℤ}

-- struct ClockIdentity: eight octets.
pub record ClockIdentity : Type 0 where
  pub id : List ℕ

-- struct PortIdentity
pub record PortIdentity : Type 0 where
  pub clock_identity : ClockIdentity
  pub port_number : ℕ

-- struct ClockQuality
pub record ClockQuality : Type 0 where
  pub clock_class : ℕ
  pub clock_accuracy : ℕ
  pub offset_scaled_log_variance : ℕ

-- struct MsgHeader. `c_field` is cField.scaled_nsecs (its seconds are always 0).
pub record MsgHeader : Type 0 where
  pub transport_specific : ℕ
  pub message_type : ℕ
  pub version_ptp : ℕ
  pub message_length : ℕ
  pub domain_number : ℕ
  pub flag_field_0 : ℕ
  pub flag_field_1 : ℕ
  pub source_port_identity : PortIdentity
  pub sequence_id : ℕ
  pub log_message_interval : ℤ
  pub c_field : ℤ

-- struct pp_time of include/ppsi/pp-time.h: seconds and 2^-16 nanoseconds, both signed.
pub record PpTime : Type 0 where
  pub secs : ℤ
  pub scaled_nsecs : ℤ

-- struct MsgAnnounce
pub record MsgAnnounce : Type 0 where
  pub origin_timestamp : PpTime
  pub current_utc_offset : ℤ
  pub grandmaster_priority1 : ℕ
  pub grandmaster_clock_quality : ClockQuality
  pub grandmaster_priority2 : ℕ
  pub grandmaster_identity : ClockIdentity
  pub steps_removed : ℕ
  pub time_source : ℕ
  pub ext_specific : List ℕ
