-- ===== src/Fsm/Frame.antt =====
-- The checks on a received frame: fsm_unpack_verify_frame and pp_packet_prefilter of fsm.c.
use Prim.Native.Nat.{bit_and}
use ppsi.Bmc.Compare.{bmc_idcmp, bmc_pidcmp}
use ppsi.Ds.{Globals, MsgHeader, State, ppm_announce, same_state}
use ppsi.Msg.Bytes.{Buffer}
use ppsi.Msg.Header.{msg_unpack_header}
use ppsi.Prelude.{
  Bool, Option, false, if◌then◌else◌, is_zero, leb, ltb, none, not, some, ℕ, ◌%◌, ◌&&◌, ◌==◌, ◌||◌,
}

-- type_length, by message type; the entries that the table leaves out are 0
unfoldable pub type_length : ℕ → ℕ
type_length t =
    if t == 0 || (t == 1 || t == 8)
    then 44
    else if (t == 2 || t == 3) || (t == 9 || t == 10)
    then 54
    else if t == 11
    then 64
    else if t == 12
    then 34
    else if t == 13
    then 48
    else 0

-- __PP_NR_MESSAGES_TYPES
abbrev pub nr_messages_types : ℕ
nr_messages_types = 14

-- A frame that passes the checks, with its header unpacked; `none` is a non-zero result, and leaves
-- the header of the instance as it was. Without octets the message type is 0, and the frame too short.
unfoldable pub fsm_unpack_verify_frame : Option Buffer → ℕ → Option MsgHeader
fsm_unpack_verify_frame none len = none
fsm_unpack_verify_frame (some buf) len =
    let msgtype = if len == 0 then 0 else buf 0 % 16 in
    if leb nr_messages_types msgtype || ltb len (type_length msgtype)
    then none
    else if buf 1 % 16 == 2
    then some (msg_unpack_header buf)
    else none

-- PP_ALTERNATE_MASTER_FLAG
abbrev pub alternate_master_flag : ℕ
alternate_master_flag = 1

-- States in which a port handles no message.
unfoldable pub ignores_messages : State → Bool
ignores_messages s =
    same_state s State.initializing || (same_state s State.disabled || same_state s State.faulty)

-- Is the header's frame to be handled? `false` is the result -1.
unfoldable pub pp_packet_prefilter : Globals → ℕ → Bool
pp_packet_prefilter g ppi =
    let p = g.inst ppi in
    let hdr = p.received_ptp_header in
    let own = p.port_ds.port_identity in
    if not (hdr.domain_number == g.default_ds.domain_number)
    then false
    else if not (bit_and hdr.flag_field_0 alternate_master_flag == 0)
    then false
    else if is_zero (bmc_pidcmp hdr.source_port_identity own)
    then false
    else if (is_zero (bmc_idcmp hdr.source_port_identity.clock_identity own.clock_identity)
          && ltb 1 g.default_ds.number_ports)
        && not (hdr.message_type == ppm_announce)
    then false
    else not (ignores_messages p.state)
