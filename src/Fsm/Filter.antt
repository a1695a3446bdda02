-- ===== src/Fsm/Filter.antt =====
-- Which frames reach the action of a state.
use Prim.Native.Nat.{bit_and}
use ppsi.Bmc.Compare.{bmc_idcmp}
use ppsi.Bmc.Order.{bmc_pidcmp_iff, memcmp_eq, memcmp_refl}
use ppsi.Ds.{Globals, State, ppm_announce}
use ppsi.Fsm.Change.{same_state_eq}
use ppsi.Fsm.Frame.{
  alternate_master_flag, fsm_unpack_verify_frame, ignores_messages, pp_packet_prefilter,
}
use ppsi.Fsm.Machine.{Calls, pp_state_machine, receive}
use ppsi.Msg.Bytes.{Buffer}
use ppsi.Prelude.{arith, none, pos, refl, some, true, ℕ, ◌<◌, ◌↔◌, ◌≡◌, ◌≢◌}

-- The rules of clauses 9.2.5, 9.5.1, 9.5.2.2 and 17.4.2 of the standard for the frame whose header
-- the instance holds.
abbrev pub IsAccepted : Globals → ℕ → Type 0
IsAccepted g ppi =
    ((g.inst ppi).received_ptp_header.domain_number ≡ g.default_ds.domain_number)
    × (bit_and (g.inst ppi).received_ptp_header.flag_field_0 alternate_master_flag ≡ 0)
    × ((g.inst ppi).received_ptp_header.source_port_identity ≢ (g.inst ppi).port_ds.port_identity)
    × ((g.inst ppi).received_ptp_header.source_port_identity.clock_identity
          ≡ (g.inst ppi).port_ds.port_identity.clock_identity
        → 1 < g.default_ds.number_ports
        → (g.inst ppi).received_ptp_header.message_type ≡ ppm_announce)
    × ((g.inst ppi).state ≢ State.initializing)
    × ((g.inst ppi).state ≢ State.disabled)
    × ((g.inst ppi).state ≢ State.faulty)

-- The filter accepts a frame just when it meets every rule.
pub pp_packet_prefilter_iff :
    (g : Globals) (ppi : ℕ) → (pp_packet_prefilter g ppi ≡ true) ↔ IsAccepted g ppi
unfolding pp_packet_prefilter ignores_messages bmc_idcmp
pp_packet_prefilter_iff g ppi = (
  λ h. ground (
    arith,
    bmc_pidcmp_iff (g.inst ppi).received_ptp_header.source_port_identity
        (g.inst ppi).port_ds.port_identity,
    memcmp_refl (g.inst ppi).port_ds.port_identity.clock_identity.id,
  ),
  λ h. ground (
    arith,
    bmc_pidcmp_iff (g.inst ppi).received_ptp_header.source_port_identity
        (g.inst ppi).port_ds.port_identity,
    same_state_eq (g.inst ppi).state State.initializing,
    same_state_eq (g.inst ppi).state State.disabled,
    same_state_eq (g.inst ppi).state State.faulty,
    memcmp_eq (g.inst ppi).received_ptp_header.source_port_identity.clock_identity.id
        (g.inst ppi).port_ds.port_identity.clock_identity.id,
  ),
)

receive-bad :
    (g : Globals) (ppi : ℕ) (buf : Buffer) (len : ℕ)
    → fsm_unpack_verify_frame (some buf) len ≡ none
    → receive g ppi (some buf) (pos len) ≡ receive g ppi none (pos 0)
unfolding receive fsm_unpack_verify_frame
receive-bad g ppi buf len h = ground arith

-- A frame that fails the checks on its length, type and version is as good as none.
pub pp_state_machine-bad_frame :
    (calls : Calls) (g : Globals) (ppi : ℕ) (buf : Buffer) (len : ℕ)
    → fsm_unpack_verify_frame (some buf) len ≡ none
    → pp_state_machine calls g ppi (some buf) (pos len) ≡ pp_state_machine calls g ppi none (pos 0)
unfolding pp_state_machine
pp_state_machine-bad_frame calls g ppi buf len h = rw (receive-bad g ppi buf len h) refl
