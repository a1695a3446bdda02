-- ===== src/Lsync/Peer.antt =====
-- What a port learns from the L1Sync message of its peer.
use ppsi.Ds.{PortDs}
use ppsi.Lsync.Packing.{
  OptParams, all_ports, has_bit, l1e_creat_l1sync_bitmask, l1e_pack_signal, l1e_unpack_signal,
  learn_peer, local_active, local_config, more_config, pack_l1sync, tlv_type_l1_sync,
}
use ppsi.Lsync.Port.{SyncPort}
use ppsi.Msg.Bytes.{Buffer, get16, put16}
use ppsi.Msg.Header.{Sender}
use ppsi.Msg.Signaling.{msg_pack_signaling_no_forwardable, pack_signaling_by}
use ppsi.Prelude.{
  Bool, Bool-cases, ap, arith, false, if◌then◌else◌, inl, inr, length, none, refl, some, sym, true,
  update, ℕ, ◌∙◌, ◌≡◌,
}

-- What is to be learnt
abbrev pub learnt : SyncPort → SyncPort → SyncPort
learnt q r = record r {
  peer_tx_coherent_is_required = q.tx_coherent_is_required;
  peer_rx_coherent_is_required = q.rx_coherent_is_required;
  peer_congruent_is_required = q.congruent_is_required;
  peer_is_tx_coherent = q.is_tx_coherent;
  peer_is_rx_coherent = q.is_rx_coherent;
  peer_is_congruent = q.is_congruent;
}

mask_lem :
    (a b c : Bool)
    → (has_bit (l1e_creat_l1sync_bitmask a b c) 1 ≡ a)
      × (has_bit (l1e_creat_l1sync_bitmask a b c) 2 ≡ b)
      × (has_bit (l1e_creat_l1sync_bitmask a b c) 4 ≡ c)
unfolding has_bit l1e_creat_l1sync_bitmask
mask_lem true true true = (refl, refl, refl)
mask_lem true true false = (refl, refl, refl)
mask_lem true false true = (refl, refl, refl)
mask_lem true false false = (refl, refl, refl)
mask_lem false true true = (refl, refl, refl)
mask_lem false true false = (refl, refl, refl)
mask_lem false false true = (refl, refl, refl)
mask_lem false false false = (refl, refl, refl)

-- The octets of the masks, when the optional parameters are off
learn_lem :
    (q r : SyncPort) (buf : Buffer)
    → buf 48
      ≡ l1e_creat_l1sync_bitmask q.tx_coherent_is_required q.rx_coherent_is_required
          q.congruent_is_required
    → buf 49 ≡ l1e_creat_l1sync_bitmask q.is_tx_coherent q.is_rx_coherent q.is_congruent
    → learn_peer buf r ≡ learnt q r
unfolding learn_peer
learn_lem q r buf config active =
    let (t, x, c) =
      mask_lem q.tx_coherent_is_required q.rx_coherent_is_required q.congruent_is_required in
    let (t', x', c') = mask_lem q.is_tx_coherent q.is_rx_coherent q.is_congruent in
    rw config (
      rw active (λ i. record r {
        peer_tx_coherent_is_required = t i;
        peer_rx_coherent_is_required = x i;
        peer_congruent_is_required = c i;
        peer_is_tx_coherent = t' i;
        peer_is_rx_coherent = x' i;
        peer_is_congruent = c' i;
      }))

-- The message, as a pair
abbrev pub l1sync_message : PortDs → Sender → SyncPort → OptParams → Buffer × ℕ
l1sync_message port s q opt = let (s1, len) = l1e_pack_signal port s q opt in (s1.tx_ptp, len)

peer_plain :
    (port : PortDs) (s : Sender) (q r : SyncPort) (buf : Buffer)
    → get16 buf 44 ≡ tlv_type_l1_sync
    → get16 buf 46 ≡ 2
    → buf 48
      ≡ l1e_creat_l1sync_bitmask q.tx_coherent_is_required q.rx_coherent_is_required
          q.congruent_is_required
    → buf 49 ≡ l1e_creat_l1sync_bitmask q.is_tx_coherent q.is_rx_coherent q.is_congruent
    → l1e_unpack_signal r buf 50 ≡ some (learnt q r)
unfolding l1e_unpack_signal
peer_plain port s q r buf type length config active =
    rw type (rw length (ap some (learn_lem q r buf config active)))

-- The octets with the extended format
abbrev extended_octets : SyncPort → OptParams → Buffer → Buffer
extended_octets q opt buf =
    put16
      (put16
        (update (update (update buf 48 (local_config q opt)) 49 (local_active q)) 50
          (more_config opt))
        46 40)
      2 88

-- The octets of both formats
plain_octets :
    (q : SyncPort) (opt : OptParams) (buf : Buffer)
    → opt.opt_params_enabled ≡ false
    → pack_l1sync q opt buf
      ≡ (put16 (update (update buf 48 (local_config q opt)) 49 (local_active q)) 2 50, 50)
unfolding pack_l1sync
plain_octets q opt buf off =
    ap
      (λ b.
        if b
        then (extended_octets q opt buf, 88)
        else (put16 (update (update buf 48 (local_config q opt)) 49 (local_active q)) 2 50, 50))
      off

extended_lem :
    (q : SyncPort) (opt : OptParams) (buf : Buffer)
    → opt.opt_params_enabled ≡ true
    → pack_l1sync q opt buf ≡ (extended_octets q opt buf, 88)
unfolding pack_l1sync
extended_lem q opt buf on =
    ap
      (λ b.
        if b
        then (extended_octets q opt buf, 88)
        else (put16 (update (update buf 48 (local_config q opt)) 49 (local_active q)) 2 50, 50))
      on

ignored : (r : SyncPort) (buf : Buffer) → l1e_unpack_signal r buf 88 ≡ none
unfolding l1e_unpack_signal
ignored r buf = ground arith

read_plain :
    (port : PortDs) (s : Sender) (q r : SyncPort) (opt : OptParams) (buf : Buffer)
    → opt.opt_params_enabled ≡ false
    → get16 buf 44 ≡ tlv_type_l1_sync
    → get16 buf 46 ≡ 2
    → l1e_unpack_signal r
        (put16 (update (update buf 48 (local_config q opt)) 49 (local_active q)) 2 50)
        50
      ≡ some (learnt q r)
unfolding put16 get16
read_plain port s q r opt buf off type length =
    peer_plain port s q r
      (put16 (update (update buf 48 (local_config q opt)) 49 (local_active q)) 2 50) type length
      (rw off (omega arith)) refl

signaling_start :
    (port : PortDs) (s : Sender)
    → (get16 (msg_pack_signaling_no_forwardable port s all_ports tlv_type_l1_sync 2).tx_ptp 44
        ≡ tlv_type_l1_sync)
      × (get16 (msg_pack_signaling_no_forwardable port s all_ports tlv_type_l1_sync 2).tx_ptp 46
          ≡ 2)
unfolding msg_pack_signaling_no_forwardable pack_signaling_by put16 get16
signaling_start port s = (refl, refl)

-- The L1Sync message of a port tells its peer what the port requires and what holds on it, unless the
-- optional parameters are enabled: then the message has the extended format, and the peer ignores it.
pub l1e_unpack_signal-pack :
    (port : PortDs) (s : Sender) (q r : SyncPort) (opt : OptParams)
    → l1e_unpack_signal r (l1sync_message port s q opt).0 (l1sync_message port s q opt).1
      ≡ (if opt.opt_params_enabled then none else some (learnt q r))
unfolding l1e_pack_signal
l1e_unpack_signal-pack port s q r opt =
    let buf = (msg_pack_signaling_no_forwardable port s all_ports tlv_type_l1_sync 2).tx_ptp in
    let read = λ (m : Buffer × ℕ). l1e_unpack_signal r m.0 m.1 in
    elim (Bool-cases opt.opt_params_enabled)
      as (λ c.
        read (pack_l1sync q opt buf)
        ≡ (if opt.opt_params_enabled then none else some (learnt q r))) [
          | inl on ↦
              ap read (extended_lem q opt buf on)
              ∙ ignored r (extended_octets q opt buf)
              ∙ ap (λ b. if b then none else some (learnt q r)) (sym on)
          | inr off ↦
              ap read (plain_octets q opt buf off)
              ∙ read_plain port s q r opt buf off (signaling_start port s).0
                  (signaling_start port s).1
              ∙ ap (λ b. if b then none else some (learnt q r)) (sym off)
        ]
