-- ===== src/Ds/Options.antt =====
-- The data sets that the ports share (include/ppsi/ieee1588_types.h) and the run-time options.
use ppsi.Prelude.{ℕ, ℤ, Bool}
use ppsi.Ds.Identity.{ClockIdentity, PortIdentity, ClockQuality}

-- struct pp_runtime_opts, the fields that the algorithms read. An int that can be -1, for an attribute
-- that is not configured, is a ℤ; a Boolean is the octet that it is stored in.
pub record RtOpts : Type 0 where
  pub clock_quality_clock_class : ℕ
  pub clock_quality_clock_accuracy : ℤ
  pub clock_quality_offset_scaled_log_variance : ℤ
  pub time_source : ℤ
  pub ptp_time_scale : ℕ
  pub frequency_traceable : ℕ
  pub time_traceable : ℕ
  pub priority1 : ℕ
  pub priority2 : ℕ
  pub domain_number : ℕ
  pub gm_delay_to_gen_pps_sec : ℕ

-- defaultDS_t
pub record DefaultDs : Type 0 where
  pub clock_identity : ClockIdentity
  pub number_ports : ℕ
  pub clock_quality : ClockQuality
  pub priority1 : ℕ
  pub priority2 : ℕ
  pub domain_number : ℕ
  pub slave_only : Bool
  pub external_port_configuration_enabled : Bool

-- currentDS_t
pub record CurrentDs : Type 0 where
  pub steps_removed : ℕ
  pub offset_from_master : ℤ
  pub mean_delay : ℤ

-- parentDS_t
pub record ParentDs : Type 0 where
  pub parent_port_identity : PortIdentity
  pub observed_parent_offset_scaled_log_variance : ℕ
  pub observed_parent_clock_phase_change_rate : ℤ
  pub grandmaster_identity : ClockIdentity
  pub grandmaster_clock_quality : ClockQuality
  pub grandmaster_priority1 : ℕ
  pub grandmaster_priority2 : ℕ
  pub new_grandmaster : Bool

-- timePropertiesDS_t
pub record TimePropertiesDs : Type 0 where
  pub current_utc_offset : ℤ
  pub current_utc_offset_valid : Bool
  pub leap59 : Bool
  pub leap61 : Bool
  pub time_traceable : Bool
  pub frequency_traceable : Bool
  pub ptp_timescale : Bool
  pub time_source : ℕ
