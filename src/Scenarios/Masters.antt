-- ===== src/Scenarios/Masters.antt =====
-- Foreign masters are compared, stored, aged and removed.
use ppsi.Bmc.Add.{bmc_add_frgn_master, find_known}
use ppsi.Bmc.Arrival.{bmc_add_frgn_master-IsTable}
use ppsi.Bmc.Compare.{
  are_qualified, bmc_dataset_cmp, bmc_gm_cmp, bmc_idcmp, by_field, gm_cmp_qualified, is_ebest,
  is_ebest_of, is_qualified, memcmp,
}
use ppsi.Bmc.Invariant.{Distinct, IsTable}
use ppsi.Bmc.Known.{IsForeign}
use ppsi.Bmc.Order.{bmc_dataset_cmp-neg, bmc_gm_cmp-key, gm_key}
use ppsi.Bmc.Qualify.{bmc_add_frgn_master-qualifies, next_frame}
use ppsi.Bmc.Remove.{InUse, bmc_remove_foreign_master-table}
use ppsi.Bmc.Table.{bmc_remove_foreign_master, bmc_store_frgn_master}
use ppsi.Ds.{FrgnMaster, MsgAnnounce, PortIdentity}
use ppsi.Prelude.{
  [], ap, arith, if◌then◌else◌, is_neg, is_pos, ltb, neg_ℤ, none, pos, refl, some, true, ℕ, ◌+◌,
  ◌<◌, ◌∷◌, ◌≡◌,
}
use ppsi.Scenarios.Device.{
  device_quality, other_identity, other_port, port_with_masters, sample, sample_master, sample_port,
  with_masters,
}

abbrev first_master : FrgnMaster
first_master = sample_master 100 1

abbrev second_master : FrgnMaster
second_master = sample_master 110 2

abbrev third_master : FrgnMaster
third_master = sample_master 120 3

bmc_dataset_cmp-neg_example :
    bmc_dataset_cmp sample second_master first_master
    ≡ neg_ℤ (bmc_dataset_cmp sample first_master second_master)
bmc_dataset_cmp-neg_example = bmc_dataset_cmp-neg sample first_master second_master

qualified : (m : FrgnMaster) → m.qualified ≡ true → is_qualified sample m ≡ true
unfolding is_qualified
qualified m h = rw h refl

better_by_gm :
    (is_neg (bmc_gm_cmp sample first_master second_master) ≡ true)
    × (is_neg (bmc_gm_cmp sample second_master third_master) ≡ true)
unfolding bmc_gm_cmp gm_cmp_qualified by_field are_qualified is_qualified bmc_idcmp memcmp is_ebest
    is_ebest_of
better_by_gm = (refl, refl)

bmc_gm_cmp-key_example :
    (is_neg (bmc_gm_cmp sample first_master second_master)
      ≡ is_neg (memcmp (gm_key first_master) (gm_key second_master)))
    × (is_pos (bmc_gm_cmp sample first_master second_master)
        ≡ is_pos (memcmp (gm_key first_master) (gm_key second_master)))
bmc_gm_cmp-key_example =
    bmc_gm_cmp-key sample first_master second_master (qualified first_master refl)
      (qualified second_master refl)

three-InUse : InUse 3 (some 1)
three-InUse i e = ground arith

-- The records have the port numbers 1, 2 and 3.
three-Distinct : Distinct 3 port_with_masters.frgn_master
three-Distinct i j hi hj e = let ports = ap (λ (q : PortIdentity). q.port_number) e in ground arith

pub three-IsTable : IsTable port_with_masters
three-IsTable = (omega arith, three-InUse, three-Distinct)

table_example :
    ((j : ℕ)
      → j + 1 < 3
      → (bmc_remove_foreign_master port_with_masters 0).frgn_master j
        ≡ port_with_masters.frgn_master (if ltb j 0 then j else j + 1))
    × ((bmc_remove_foreign_master port_with_masters 0).frgn_rec_num + 1 ≡ 3)
    × ((bmc_remove_foreign_master port_with_masters 0).frgn_rec_best ≡ some 0)
table_example =
    bmc_remove_foreign_master-table port_with_masters 0 (omega arith) (omega arith) three-InUse

abbrev announced : MsgAnnounce
announced = record {
  origin_timestamp = record { secs = pos 0; scaled_nsecs = pos 0 };
  current_utc_offset = pos 37;
  grandmaster_priority1 = 90;
  grandmaster_clock_quality = device_quality;
  grandmaster_priority2 = 128;
  grandmaster_identity = other_identity;
  steps_removed = 0;
  time_source = 0x20;
  ext_specific = 0 ∷ 0 ∷ 0 ∷ 0 ∷ [];
}

bmc_add_frgn_master-IsTable_example : IsTable (
    (bmc_add_frgn_master with_masters 0 (bmc_store_frgn_master port_with_masters announced)).inst 0)
bmc_add_frgn_master-IsTable_example =
    bmc_add_frgn_master-IsTable with_masters 0 announced three-IsTable

sample-IsForeign : IsForeign sample 0
sample-IsForeign = record { by_bmca = refl; of_other_clock = unfold bmc_idcmp memcmp in refl }

nobody_known : find_known 0 0 sample_port.frgn_master (other_port 1) ≡ none
unfolding find_known
nobody_known = refl

-- Two messages that are two seconds apart, with a window of eight.
qualifies_example :
    (((bmc_add_frgn_master
          (next_frame 2000
            (bmc_add_frgn_master sample 0 (bmc_store_frgn_master sample_port announced))
            0)
          0
          (bmc_store_frgn_master
            ((next_frame 2000
                (bmc_add_frgn_master sample 0 (bmc_store_frgn_master sample_port announced))
                0).inst
              0)
            announced)).inst
        0).frgn_master
      0).qualified
    ≡ true
qualifies_example =
    bmc_add_frgn_master-qualifies sample 0 2000 announced announced sample-IsForeign (omega arith)
      (omega arith) nobody_known (omega arith) (omega arith) (omega arith) (omega arith)
      (omega arith)
