-- ===== src/Bmc/Known.antt =====
-- bmc_add_frgn_master on a message from another clock: where the search finds a master that is in the
-- table, and whether its record is then qualified (9.3.2.5 of the standard).
use mathlib.Core.Path.{subst}
use ppsi.Bmc.Add.{
  add_by, add_new, add_or_refresh, bmc_add_frgn_master, find_known, put_record, refresh,
}
use ppsi.Bmc.Compare.{bmc_idcmp, bmc_pidcmp}
use ppsi.Bmc.Order.{bmc_pidcmp_iff}
use ppsi.Bmc.Table.{nr_foreign_records}
use ppsi.Ds.{FrgnMaster, Globals, Instance, PortIdentity}
use ppsi.Prelude.{
  Bool, Bool-cases, ap, arith, false, if◌then◌else◌, inl, inr, is_zero, leb, ltb, pos, refl, some,
  suc, sym, true, update, update_self, zero, ℕ, ◌%◌, ◌+◌, ◌<◌, ◌==◌, ◌^◌, ◌∙◌, ◌≡◌, ◌≢◌, ◌≤◌,
}
use ppsi.Timeout.Clock.{calc_timeout, time_after_eq, time_before_eq, ulong_mod}

known_here :
    (i k n : ℕ) (t : ℕ → FrgnMaster) (pid : PortIdentity)
    → (pid ≡ (t i).source_port_identity
        → is_zero (bmc_pidcmp pid (t i).source_port_identity) ≡ true)
    → (is_zero (bmc_pidcmp pid (t i).source_port_identity) ≡ true
        → pid ≡ (t i).source_port_identity)
    → (i < k → (t i).source_port_identity ≢ pid)
    → (i + 1 ≤ k → find_known n (i + 1) t pid ≡ some k)
    → (t k).source_port_identity ≡ pid
    → i ≤ k
    → find_known (suc n) i t pid ≡ some k
unfolding find_known
known_here i k n t pid equal zero_only differs rest here lo = elim (Bool-cases (i == k)) [
  | inl e ↦
      let where_it_is : i ≡ k = ground arith in
      rw (equal (sym (subst (λ j. (t j).source_port_identity ≡ pid) (sym where_it_is) here)))
        (ap some where_it_is)
  | inr e ↦
      let nonzero : is_zero (bmc_pidcmp pid (t i).source_port_identity) ≡ false = ground arith in
      rw nonzero (rest (ground arith))
]

pub find_known-at :
    (n i : ℕ) (t : ℕ → FrgnMaster) (pid : PortIdentity) (k : ℕ)
    → ((j : ℕ) → i ≤ j → j < k → (t j).source_port_identity ≢ pid)
    → (t k).source_port_identity ≡ pid
    → i ≤ k
    → k < i + n
    → find_known n i t pid ≡ some k
unfolding find_known
find_known-at zero i t pid k other here lo hi = absurd (omega arith)
find_known-at (suc n) i t pid k other here lo hi =
    let match = bmc_pidcmp_iff pid (t i).source_port_identity in
    let differs = other i (omega arith) in
    let rest = λ (le : i + 1 ≤ k).
      find_known-at n (i + 1) t pid k (λ j l h. other j (omega arith) h) here le (omega arith) in
    known_here i k n t pid match.1 match.0 differs rest here lo

-- The frame is from another clock, and the ports are not configured from outside.
pub record IsForeign (g : Globals) (ppi : ℕ) : Type 0 where
  pub by_bmca : g.default_ds.external_port_configuration_enabled ≡ false
  pub of_other_clock :
      is_zero (
        bmc_idcmp
          (g.inst ppi).received_ptp_header.source_port_identity.clock_identity
          g.default_ds.clock_identity)
      ≡ false

pub foreign-add :
    (g : Globals) (ppi : ℕ) (m : FrgnMaster)
    → IsForeign g ppi
    → m.steps_removed < 255
    → bmc_add_frgn_master g ppi m
      ≡ add_by g ppi m (
          find_known
            (g.inst ppi).frgn_rec_num
            0
            (g.inst ppi).frgn_master
            (g.inst ppi).received_ptp_header.source_port_identity)
unfolding bmc_add_frgn_master add_or_refresh
foreign-add g ppi m foreign h = rw foreign.by_bmca (
    rw foreign.of_other_clock
      (let few : leb 255 m.steps_removed ≡ false = ground arith in rw few refl))

pub new-add :
    (g : Globals) (ppi : ℕ) (m : FrgnMaster)
    → (g.inst ppi).frgn_rec_num < nr_foreign_records
    → add_new g ppi m
      ≡ put_record g ppi
          (g.inst ppi).frgn_rec_num
          ((g.inst ppi).frgn_rec_num + 1)
          (record m { qualified = false; last_announce_msg_ms = calc_timeout g (pos 0) })
unfolding add_new
new-add g ppi m h =
    let room : ltb (g.inst ppi).frgn_rec_num nr_foreign_records ≡ true = ground arith in
    rw room refl

-- The window runs over the wrap of the clock.
pub window-passed :
    (n d w : ℕ)
    → n < ulong_mod
    → d < 2 ^ 62
    → w < 2 ^ 31
    → time_before_eq (((n + d) % ulong_mod + 0) % ulong_mod) (((n + 0) % ulong_mod + w) % ulong_mod)
      ≡ leb d w
unfolding time_before_eq time_after_eq
window-passed n d w hn hd hw = ground arith

refresh-qualified :
    (g : Globals) (p : Instance) (old m : FrgnMaster)
    → (refresh g p old m).qualified ≡ (
        if p.received_ptp_header.sequence_id == old.sequence_id + 1
        then time_before_eq
            (calc_timeout g (pos 0))
            ((old.last_announce_msg_ms + p.frgn_master_time_window_ms) % ulong_mod)
        else old.qualified)
unfolding refresh
refresh-qualified g p old m = ground arith

-- Whether the next message in sequence has come in time from the master of record `k`, or else whether
-- that master was qualified before
abbrev pub in_time : Globals → ℕ → Instance → Bool
in_time g k p =
    if p.received_ptp_header.sequence_id == (p.frgn_master k).sequence_id + 1
    then time_before_eq (calc_timeout g (pos 0))
        (((p.frgn_master k).last_announce_msg_ms + p.frgn_master_time_window_ms) % ulong_mod)
    else (p.frgn_master k).qualified

-- A master that is known at index `k`.
pub known-qualified :
    (g : Globals) (ppi k : ℕ) (m : FrgnMaster)
    → IsForeign g ppi
    → m.steps_removed < 255
    → find_known
        (g.inst ppi).frgn_rec_num
        0
        (g.inst ppi).frgn_master
        (g.inst ppi).received_ptp_header.source_port_identity
      ≡ some k
    → (((bmc_add_frgn_master g ppi m).inst ppi).frgn_master k).qualified ≡ in_time g k (g.inst ppi)
unfolding add_by put_record
known-qualified g ppi k m foreign h known =
    let p = g.inst ppi in
    let stored = refresh g p (p.frgn_master k) m in
    ap (λ (g' : Globals). ((g'.inst ppi).frgn_master k).qualified)
      (foreign-add g ppi m foreign h ∙ ap (add_by g ppi m) known)
    ∙ ap (λ (q : Instance). (q.frgn_master k).qualified)
        (update_self g.inst ppi
          (record p { frgn_master = update p.frgn_master k stored; frgn_rec_num = p.frgn_rec_num }))
    ∙ ap (λ (r : FrgnMaster). r.qualified) (update_self p.frgn_master k stored)
    ∙ refresh-qualified g p (p.frgn_master k) m
