-- ===== src/Scenarios/Actions.antt =====
-- A slave in the delay measurement, a faulty port, and a port that lost its master.
use ppsi.Bmc.Compare.{bmc_idcmp, bmc_pidcmp, memcmp}
use ppsi.Bmc.Invariant.{IsTable}
use ppsi.Ds.{Globals, MsgHeader, State, set_inst, to_ann_receipt}
use ppsi.Msg.Answer.{FitsRequest}
use ppsi.Msg.Bytes.{Buffer, clear, get16, get32, get64, get_octets, put16, put32, put64, put_octets}
use ppsi.Msg.Events.{msg_pack_delay_resp, msg_unpack_delay_resp, msg_unpack_follow_up}
use ppsi.Msg.Exact.{stamp}
use ppsi.Msg.Header.{Sender, msg_init_header, msg_pack_header, msg_unpack_header, pp_msgtype_info}
use ppsi.Msg.Issue.{TxEnv, TxPort, msg_issue_sync_followup}
use ppsi.Msg.Pair.{SentPair, msg_issue_sync_followup-SentPair}
use ppsi.Msg.Timestamp.{pack_origin_timestamp, unpack_origin_timestamp}
use ppsi.Prelude.{
  [], arith, false, if◌then◌else◌, negsuc, none, pos, refl, some, to_word, true, ◌*◌, ◌+ℤ◌, ◌-ℤ◌,
  ◌==◌, ◌^◌, ◌∷◌, ◌≡◌,
}
use ppsi.Scenarios.Device.{
  other_port, own_identity, own_port, sample, sample_header, sample_port, silent_ops, with_masters,
}
use ppsi.Scenarios.Masters.{three-IsTable}
use ppsi.Scenarios.Messages.{silent_sender}
use ppsi.Scenarios.Servos.{servo_env, servo_world}
use ppsi.Servo.Instances.{can_use_response}
use ppsi.Servo.Steps.{second_incorrect}
use ppsi.States.Answer.{Asked, Timed, answer_to, slave_handle_response-t4}
use ppsi.States.Common.{msg_from_current_master, pp_faulty, st_com_check_announce_receive_timeout}
use ppsi.States.Exact.{Known, after_sync, slave_handle_followup-t1}
use ppsi.States.Interval.{interval, slave_handle_response-interval, with_t4}
use ppsi.States.Lost.{Lost, announce_timeout-Lost}
use ppsi.States.Slave.{
  corrected_t4, is_compliant, is_own_response, is_two_step, set_t4, slave_handle_response,
}
use ppsi.States.Total.{IsCorrection, IsOrigin}
use ppsi.States.Waiting.{later, pp_faulty-leaves, runs_faulty}
use ppsi.States.World.{ActHooks, ActWorld, act_globals}
use ppsi.Time.Arith.{
  flip, is_incorrect, is_negative, lower_loop, normalize_pp_time, pp_time_add, pp_time_add_interval,
  pp_time_sub, raise_loop, run_loops,
}
use ppsi.Timeout.Defs.{pp_timeout, pp_timeout_set, pp_timeout_set_tmo, set_counter}
use ppsi.Timeout.Expiry.{advance, pp_timeout-set}

abbrev no_act_hooks : ActHooks
no_act_hooks = record {
  handle_sync = none;
  handle_followup = none;
  handle_resp = none;
  is_correction_field_compliant = none;
}

-- The world in which a message with the header has arrived at port 0.
abbrev arrived : MsgHeader → ActWorld
arrived hdr = record {
  act_servo = record servo_world {
    servo_globals = set_inst sample 0 (record sample_port { received_ptp_header = hdr });
  };
  act_ports = λ i. record {
    sent_seq = λ t. 9;
    last_rcv_time = record { secs = pos 100; scaled_nsecs = pos (2500 * 2 ^ 16) };
    recv_sync_sequence_id = 0;
    sync_cf = pos 0;
  };
}

abbrev sync_header : MsgHeader
sync_header = record sample_header {
  message_type = 0;
  flag_field_0 = 2;
  sequence_id = 77;
  c_field = pos 300;
}

abbrev follow_header : MsgHeader
follow_header = record sample_header { message_type = 8; sequence_id = 77; c_field = negsuc 20 }

-- 100 seconds and 77 nanoseconds
abbrev follow_octets : Buffer
follow_octets i = if i == 39 then 100 else if i == 43 then 77 else 0

sync-from_master : msg_from_current_master (act_globals (arrived sync_header)) 0 ≡ true
unfolding msg_from_current_master bmc_pidcmp bmc_idcmp memcmp
sync-from_master = refl

sync-two_step : is_two_step sync_header ≡ true
unfolding is_two_step
sync-two_step = refl

follow-IsOrigin : IsOrigin (msg_unpack_follow_up follow_octets)
unfolding msg_unpack_follow_up unpack_origin_timestamp get32 get16
follow-IsOrigin = (omega arith, omega arith, omega arith, omega arith)

slave_handle_followup-t1_example :
    Known servo_env no_act_hooks
      (arrived sync_header)
      (after_sync servo_env no_act_hooks (arrived sync_header) 0 follow_octets follow_header)
      0
      follow_header
      follow_octets
slave_handle_followup-t1_example =
    slave_handle_followup-t1 servo_env no_act_hooks (arrived sync_header) 0 follow_octets
      follow_octets follow_header sync-from_master sync-two_step (refl, refl)
      (omega arith, omega arith) (omega arith, omega arith) follow-IsOrigin

-- A network that takes every frame, and tells that it went out after 100 seconds.
abbrev tx_env : TxEnv
tx_env = record {
  send = λ p f. (pos 64, stamp 100 5000 17);
  get_time = λ p. record { secs = pos 99; scaled_nsecs = pos 0 };
  egress_latency = pos 0;
  sending_latency = pos 0;
  asymmetry = pos 0;
  compliant = true;
}

abbrev tx_port : TxPort
tx_port = record {
  sender = silent_sender;
  last_snt_time = record { secs = pos 0; scaled_nsecs = pos 0 };
  ptp_tx_count = 3;
  sent = [];
}

tx-corrected : pp_time_add_interval (stamp 100 5000 17) tx_env.sending_latency ≡ stamp 100 5000 17
unfolding pp_time_add_interval pp_time_add normalize_pp_time is_negative ◌+ℤ◌ run_loops raise_loop
    lower_loop flip
tx-corrected = refl

stamp_correct : is_incorrect (stamp 100 5000 17) ≡ false
unfolding is_incorrect to_word
stamp_correct = refl

msg_issue_sync_followup-SentPair_example :
    SentPair tx_env sample_port.port_ds tx_port
      (msg_issue_sync_followup tx_env sample_port.port_ds tx_port).0
      100
      5000
      17
msg_issue_sync_followup-SentPair_example =
    msg_issue_sync_followup-SentPair tx_env sample_port.port_ds tx_port 64 (stamp 100 5000 17) 100
      5000 17 refl (omega arith) tx-corrected stamp_correct (omega arith) (omega arith)
      (omega arith)

-- The slave's request, as the master received it
abbrev request_header : MsgHeader
request_header = record sample_header {
  message_type = 1;
  source_port_identity = own_port;
  sequence_id = 9;
  c_field = pos 40000;
}

abbrev master_sender : Sender
master_sender = record {
  tx_ptp = msg_init_header (λ i. 0) 1 2 0 (other_port 1);
  sent_seq = λ t. 41;
}

abbrev answer_octets : Buffer
answer_octets = answer_to sample_port.port_ds master_sender request_header 100 8500 17

abbrev answered : ActWorld
answered = arrived (msg_unpack_header answer_octets)

answer-from_master : msg_from_current_master (act_globals answered) 0 ≡ true
unfolding msg_from_current_master msg_unpack_header msg_pack_delay_resp msg_init_header
    msg_pack_header pp_msgtype_info put_octets get_octets put16 put32 put64 get16 get64 get32 clear
    bmc_pidcmp bmc_idcmp memcmp pack_origin_timestamp
answer-from_master = refl

answered-Asked : Asked answered 0 request_header answer_octets
answered-Asked = record { heard = refl; own = refl; last = refl; from_master = answer-from_master }

request-FitsRequest : FitsRequest request_header
request-FitsRequest = record {
  identity = refl;
  port = omega arith;
  sequence = omega arith;
  correction_low = omega arith;
  correction_high = omega arith;
}

answered-compliant : is_compliant no_act_hooks answered 0 ≡ true
unfolding is_compliant
answered-compliant = refl

request-IsCorrection : IsCorrection (request_header.c_field -ℤ pos 17)
unfolding ◌-ℤ◌
request-IsCorrection = (omega arith, omega arith)

slave_handle_response-t4_example :
    Timed servo_env no_act_hooks answered 0 answer_octets request_header (stamp 100 8500 17)
slave_handle_response-t4_example =
    slave_handle_response-t4 servo_env no_act_hooks answered 0 sample_port.port_ds master_sender
      request_header 100 8500 17 answered-compliant request-FitsRequest (omega arith) (omega arith)
      (omega arith) request-IsCorrection (omega arith, omega arith) answered-Asked

-- A response of zeros for the port's own request, from its master
abbrev zero_octets : Buffer
zero_octets = put16 (put_octets (λ i. 0) 44 own_identity.id) 52 1

abbrev asked_header : MsgHeader
asked_header = record sample_header {
  message_type = 9;
  sequence_id = 9;
  log_message_interval = pos 3;
}

zero-own : is_own_response (arrived asked_header) 0 (msg_unpack_delay_resp zero_octets) ≡ true
unfolding is_own_response msg_from_current_master bmc_pidcmp bmc_idcmp memcmp msg_unpack_delay_resp
    get_octets put_octets put16 get16
zero-own = refl

slave_handle_response-interval_example :
    interval (slave_handle_response servo_env no_act_hooks (arrived asked_header) 0 zero_octets) 0
    ≡ (if can_use_response (with_t4 no_act_hooks (arrived asked_header) 0 zero_octets).act_servo 0
        then interval (arrived asked_header) 0
        else pos 3)
slave_handle_response-interval_example =
    slave_handle_response-interval servo_env no_act_hooks (arrived asked_header) 0 zero_octets refl
      zero-own

-- The servo can use it, so that the port keeps its own interval.
zero-usable :
    can_use_response (with_t4 no_act_hooks (arrived asked_header) 0 zero_octets).act_servo 0 ≡ true
unfolding second_incorrect is_compliant set_t4 corrected_t4 is_incorrect msg_unpack_delay_resp
    unpack_origin_timestamp put_octets put16 get16 get32 pp_time_sub normalize_pp_time is_negative
    ◌-ℤ◌ run_loops raise_loop lower_loop flip to_word
zero-usable = refl

-- A port that has just become faulty
abbrev faulty_port : Globals
faulty_port = set_inst sample 0 (record sample_port { state = State.faulty; is_new_state = true })

-- Three runs in between, and a fourth after a minute
pp_faulty-leaves_example :
    ((pp_faulty
        (later 10000 (runs_faulty 0 (20000 ∷ 15000 ∷ 15000 ∷ []) (pp_faulty faulty_port 0)) 0)
        0).inst
      0).next_state
    ≡ State.initializing
pp_faulty-leaves_example =
    pp_faulty-leaves faulty_port 0 (20000 ∷ 15000 ∷ 15000 ∷ []) 10000 refl refl (omega arith)
      (omega arith) (omega arith)

-- The announce receipt timeout, set to a second, two seconds ago
abbrev silent_master : Globals
silent_master = advance 2000 (pp_timeout_set with_masters 0 to_ann_receipt (pos 1000))

silent_master-expired : pp_timeout silent_master 0 to_ann_receipt ≡ true
silent_master-expired =
    pp_timeout-set with_masters 0 to_ann_receipt 1000 2000 (omega arith) (omega arith) (omega arith)

silent_master-IsTable : IsTable (silent_master.inst 0)
unfolding pp_timeout_set pp_timeout_set_tmo set_counter
silent_master-IsTable = three-IsTable

silent_master-best : (silent_master.inst 0).frgn_rec_best ≡ some 1
unfolding pp_timeout_set pp_timeout_set_tmo set_counter
silent_master-best = refl

announce_timeout-Lost_example :
    Lost silent_master 0 1 (st_com_check_announce_receive_timeout silent_ops silent_master 0)
announce_timeout-Lost_example =
    announce_timeout-Lost silent_ops silent_master 0 1 silent_master-expired silent_master-IsTable
      silent_master-best
