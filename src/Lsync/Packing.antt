-- ===== src/Lsync/Packing.antt =====
-- The messages of L1Sync: proto-ext-l1sync/l1e-msg.c, with the bit masks of l1e-constants.h. The optional
-- parameters are the fields of L1SyncOptParamsPortDS_t that the message tells, with the flag of
-- L1SyncBasicPortDS_t that enables them.
use Prim.Native.Nat.{bit_and}
use ppsi.Ds.{PortDs, PortIdentity}
use ppsi.Lsync.Port.{SyncPort}
use ppsi.Msg.Bytes.{Buffer, get16, put16}
use ppsi.Msg.Header.{Sender}
use ppsi.Msg.Signaling.{msg_pack_signaling_no_forwardable}
use ppsi.Prelude.{Bool, Option, [], if◌then◌else◌, none, not, some, update, ℕ, ◌+◌, ◌==◌, ◌||◌, ◌∷◌}

pub record OptParams : Type 0 where
  pub opt_params_enabled : Bool
  pub timestamps_corrected_tx : Bool
  pub phase_offset_tx_valid : Bool
  pub frequency_offset_tx_valid : Bool

abbrev pub tlv_type_l1_sync : ℕ
tlv_type_l1_sync = 0x8001

abbrev mask_bit : Bool → ℕ → ℕ
mask_bit b v = if b then v else 0

unfoldable pub l1e_creat_l1sync_bitmask : (tx rx congruent : Bool) → ℕ
l1e_creat_l1sync_bitmask tx rx congruent = mask_bit tx 1 + mask_bit rx 2 + mask_bit congruent 4

-- A clock identity and a port number of ones
abbrev pub all_ports : PortIdentity
all_ports = record {
  clock_identity = record { id = 255 ∷ 255 ∷ 255 ∷ 255 ∷ 255 ∷ 255 ∷ 255 ∷ 255 ∷ [] };
  port_number = 65535;
}

abbrev pub local_config : SyncPort → OptParams → ℕ
local_config q opt =
    l1e_creat_l1sync_bitmask q.tx_coherent_is_required q.rx_coherent_is_required
      q.congruent_is_required
    + mask_bit opt.opt_params_enabled 8

abbrev pub local_active : SyncPort → ℕ
local_active q = l1e_creat_l1sync_bitmask q.is_tx_coherent q.is_rx_coherent q.is_congruent

abbrev pub more_config : OptParams → ℕ
more_config opt =
    mask_bit opt.timestamps_corrected_tx 1
    + mask_bit opt.phase_offset_tx_valid 2
    + mask_bit opt.frequency_offset_tx_valid 4

-- The two bit masks, and the extended format for the optional parameters. The length comes with it.
unfoldable pub pack_l1sync : SyncPort → OptParams → Buffer → Buffer × ℕ
pack_l1sync q opt buf =
    let buf = update (update buf 48 (local_config q opt)) 49 (local_active q) in
    if opt.opt_params_enabled
    then (put16 (put16 (update buf 50 (more_config opt)) 46 40) 2 88, 88)
    else (put16 buf 2 50, 50)

unfoldable pub l1e_pack_signal : PortDs → Sender → SyncPort → OptParams → Sender × ℕ
l1e_pack_signal port s q opt =
    let s1 = msg_pack_signaling_no_forwardable port s all_ports tlv_type_l1_sync 2 in
    let (buf, len) = pack_l1sync q opt s1.tx_ptp in (record s1 { tx_ptp = buf }, len)

-- (m & v) == v
unfoldable pub has_bit : ℕ → ℕ → Bool
has_bit m v = bit_and m v == v

unfoldable pub learn_peer : Buffer → SyncPort → SyncPort
learn_peer buf q = record q {
  peer_tx_coherent_is_required = has_bit (buf 48) 1;
  peer_rx_coherent_is_required = has_bit (buf 48) 2;
  peer_congruent_is_required = has_bit (buf 48) 4;
  peer_is_tx_coherent = has_bit (buf 49) 1;
  peer_is_rx_coherent = has_bit (buf 49) 2;
  peer_is_congruent = has_bit (buf 49) 4;
}

-- `none` is the result -1.
unfoldable pub l1e_unpack_signal : SyncPort → Buffer → ℕ → Option SyncPort
l1e_unpack_signal q buf plen =
    if not (get16 buf 44 == tlv_type_l1_sync)
    then none
    else if not (get16 buf 46 == 2) || not (plen == 50)
    then none
    else some (learn_peer buf q)
