-- ===== src/Scenarios/Device.antt =====
-- A boundary clock with two ports that has just started.
use ppsi.Bmc.Table.{empty_frgn_master}
use ppsi.Ds.{
  BmcHooks, ClockIdentity, ClockQuality, ExState, FrgnMaster, Globals, Instance, MsgHeader, PdState,
  PortIdentity, Rand, State, TimeOps,
}
use ppsi.Prelude.{[], false, if◌then◌else◌, none, pos, some, true, update, ℕ, ◌+◌, ◌==◌, ◌∷◌}

abbrev pub own_identity : ClockIdentity
own_identity = record { id = 0 ∷ 27 ∷ 25 ∷ 255 ∷ 254 ∷ 1 ∷ 2 ∷ 3 ∷ [] }

abbrev pub other_identity : ClockIdentity
other_identity = record { id = 0 ∷ 27 ∷ 25 ∷ 255 ∷ 254 ∷ 9 ∷ 9 ∷ 9 ∷ [] }

abbrev pub own_port : PortIdentity
own_port = record { clock_identity = own_identity; port_number = 1 }

abbrev pub other_port : ℕ → PortIdentity
other_port n = record { clock_identity = other_identity; port_number = n }

abbrev pub device_quality : ClockQuality
device_quality = record {
  clock_class = 187;
  clock_accuracy = 254;
  offset_scaled_log_variance = 65535;
}

abbrev pub sample_header : MsgHeader
sample_header = record {
  transport_specific = 0;
  message_type = 11;
  version_ptp = 2;
  message_length = 64;
  domain_number = 0;
  flag_field_0 = 0;
  flag_field_1 = 0;
  source_port_identity = other_port 1;
  sequence_id = 8;
  log_message_interval = pos 1;
  c_field = pos 0;
}

abbrev pub sample_port : Instance
sample_port = record {
  state = State.listening;
  next_state = State.listening;
  next_delay = pos 0;
  is_new_state = false;
  current_state_item = some State.listening;
  waiting_for_f_up = false;
  waiting_for_rf_up = false;
  delay_mechanism_p2p = false;
  peer = 2 ∷ 0 ∷ 0 ∷ 0 ∷ 0 ∷ 1 ∷ [];
  active_peer = 0 ∷ 0 ∷ 0 ∷ 0 ∷ 0 ∷ 0 ∷ [];
  frgn_rec_num = 0;
  frgn_rec_best = none;
  frgn_master_time_window_ms = 8000;
  frgn_master = λ i. empty_frgn_master;
  frgn_master_before = empty_frgn_master;
  port_ds = record {
    port_identity = own_port;
    log_min_delay_req_interval = pos 0;
    log_announce_interval = 1;
    announce_receipt_timeout = 3;
    log_sync_interval = pos 0;
    log_min_pdelay_req_interval = pos 0;
    master_only = false;
  };
  desired_state = State.slave;
  tmo_cfg = λ i. record { which_rand = Rand.rand_none; init_value_ms = pos 1000; tmo = 0 };
  received_ptp_header = sample_header;
  link_up = true;
  bmca_execute = false;
  ptp_fallback = true;
  pdstate = PdState.pd_none;
  ext_state = ExState.ex_disable;
}

abbrev pub sample : Globals
sample = record {
  inst = λ i. sample_port;
  rt_opts = record {
    clock_quality_clock_class = 187;
    clock_quality_clock_accuracy = pos 254;
    clock_quality_offset_scaled_log_variance = pos 65535;
    time_source = pos 0xa0;
    ptp_time_scale = 1;
    frequency_traceable = 0;
    time_traceable = 0;
    priority1 = 128;
    priority2 = 128;
    domain_number = 0;
    gm_delay_to_gen_pps_sec = 0;
  };
  default_ds = record {
    clock_identity = own_identity;
    number_ports = 2;
    clock_quality = device_quality;
    priority1 = 128;
    priority2 = 128;
    domain_number = 0;
    slave_only = false;
    external_port_configuration_enabled = false;
  };
  current_ds = record { steps_removed = 2; offset_from_master = pos 0; mean_delay = pos 0 };
  parent_ds = record {
    parent_port_identity = other_port 1;
    observed_parent_offset_scaled_log_variance = 0;
    observed_parent_clock_phase_change_rate = pos 0;
    grandmaster_identity = other_identity;
    grandmaster_clock_quality = record device_quality { clock_class = 6 };
    grandmaster_priority1 = 127;
    grandmaster_priority2 = 128;
    new_grandmaster = false;
  };
  time_properties_ds = record {
    current_utc_offset = pos 37;
    current_utc_offset_valid = true;
    leap59 = false;
    leap61 = false;
    time_traceable = true;
    frequency_traceable = true;
    ptp_timescale = true;
    time_source = 0x20;
  };
  ebest_idx = none;
  ebest_updated = false;
  seed = 1;
  now = 100000;
  last_timing_mode_state = λ i. none;
  outputs = [];
}

-- A clock without UTC and a protocol without an extension.
abbrev pub silent_ops : TimeOps
silent_ops = record {
  get_utc_time = λ g. none;
  get_utc_offset = λ g. none;
  get_gm_lock_state = λ g. none;
}

abbrev pub no_hooks : BmcHooks
no_hooks = record { bmca_s1 = λ g i m. g; state_decision = none }

-- A qualified master of the other clock, with the given first priority and port.
abbrev pub sample_master : ℕ → ℕ → FrgnMaster
sample_master priority1 port = record empty_frgn_master {
  source_port_identity = other_port port;
  receive_port_identity = own_port;
  grandmaster_identity = other_identity;
  grandmaster_clock_quality = device_quality;
  grandmaster_priority1 = priority1;
  grandmaster_priority2 = 128;
  qualified = true;
}

-- The sample's first port with three foreign masters, of which the second is the Erbest.
abbrev pub port_with_masters : Instance
port_with_masters = record sample_port {
  frgn_rec_num = 3;
  frgn_rec_best = some 1;
  frgn_master = λ i. sample_master (if i == 1 then 100 else 110) (i + 1);
}

abbrev pub with_masters : Globals
with_masters = record sample { inst = update sample.inst 0 port_with_masters; ebest_idx = some 0 }
