-- ===== src/Bmc/Compare.antt =====
-- The comparison of two foreign masters: identities, qualification, grandmasters and topology.
use ppsi.Ds.{ClockIdentity, FrgnMaster, Globals, PortIdentity}
use ppsi.Prelude.{
  Bool, List, Option, [], false, if◌then◌else◌, is_neg, is_pos, is_zero, ltb, ltb_ℤ, negsuc, none,
  not, pos, some, sub_ℕ, ℕ, ℤ, ◌&&◌, ◌==◌, ◌||◌, ◌∷◌,
}

-- memcmp on the octets of two identities. Both hold eight octets, so the clauses on lists of
-- different lengths are not used.
unfoldable pub memcmp : List ℕ → List ℕ → ℤ
memcmp [] [] = pos 0
memcmp [] (y ∷ ys) = negsuc 0
memcmp (x ∷ xs) [] = pos 1
memcmp (x ∷ xs) (y ∷ ys) =
    let rest = memcmp xs ys in if ltb x y then negsuc 0 else if ltb y x then pos 1 else rest

unfoldable pub bmc_idcmp : ClockIdentity → ClockIdentity → ℤ
bmc_idcmp a b = memcmp a.id b.id

unfoldable pub bmc_pidcmp : PortIdentity → PortIdentity → ℤ
bmc_pidcmp a b =
    let ret = bmc_idcmp a.clock_identity b.clock_identity in
    if is_zero ret then sub_ℕ a.port_number b.port_number else ret

-- Is the foreign master the Ebest? That both are the same record makes their identities equal, so
-- the comparison of pointers is not needed beside that of identities.
unfoldable pub is_ebest_of : Globals → FrgnMaster → Option ℕ → Bool
is_ebest_of g m none = false
is_ebest_of g m (some i) = elim (g.inst i).frgn_rec_best [
  | none ↦ false
  | some j ↦
      is_zero (bmc_pidcmp m.source_port_identity ((g.inst i).frgn_master j).source_port_identity)
]

unfoldable pub is_ebest : Globals → FrgnMaster → Bool
is_ebest g m = is_ebest_of g m g.ebest_idx

unfoldable pub is_qualified : Globals → FrgnMaster → Bool
is_qualified g m = m.qualified || is_ebest g m

-- The result that the caller returns, or none when both are qualified and it goes on.
unfoldable pub are_qualified : Globals → FrgnMaster → FrgnMaster → Option ℤ
are_qualified g a b =
    let qa = is_qualified g a in
    let qb = is_qualified g b in
    if qa && not qb
    then some (negsuc 0)
    else if qb && not qa
    then some (pos 1)
    else if not qa && not qb
    then some (pos 0)
    else none

-- `if (x != y) return x - y;` and what follows
unfoldable pub by_field : ℕ → ℕ → ℤ → ℤ
by_field x y rest = if not (x == y) then sub_ℕ x y else rest

-- The part of bmc_gm_cmp after the qualification: fig 27 of the standard.
unfoldable pub gm_cmp_qualified : FrgnMaster → FrgnMaster → ℤ
gm_cmp_qualified a b =
    let qa = a.grandmaster_clock_quality in
    let qb = b.grandmaster_clock_quality in
    by_field a.grandmaster_priority1 b.grandmaster_priority1 (
      by_field qa.clock_class qb.clock_class (
        by_field qa.clock_accuracy qb.clock_accuracy (
          by_field qa.offset_scaled_log_variance qb.offset_scaled_log_variance (
            by_field a.grandmaster_priority2 b.grandmaster_priority2
              (bmc_idcmp a.grandmaster_identity b.grandmaster_identity)))))

unfoldable pub bmc_gm_cmp : Globals → FrgnMaster → FrgnMaster → ℤ
bmc_gm_cmp g a b = elim (are_qualified g a b) [ some ret ↦ ret | none ↦ gm_cmp_qualified a b ]

-- The three tests on stepsRemoved: `a_err` and `b_err` say that a master's sender is its receiver, and
-- `rest` is what follows when the steps are equal.
unfoldable pub by_steps : ℕ → ℕ → Bool → Bool → ℤ → ℤ
by_steps steps_a steps_b a_err b_err rest =
    let diff = sub_ℕ steps_a steps_b in
    if ltb_ℤ (pos 1) diff || ltb_ℤ diff (negsuc 0)
    then diff
    else if is_pos diff
    then (if a_err then pos 0 else pos 1)
    else if is_neg diff
    then (if b_err then pos 0 else negsuc 0)
    else rest

-- `diff = …; if (diff) return diff;` and what follows
unfoldable pub unless_zero : ℤ → ℤ → ℤ
unless_zero diff rest = if not (is_zero diff) then diff else rest

-- The part of bmc_topology_cmp after the qualification: fig 28 of the standard.
unfoldable pub topology_cmp_qualified : FrgnMaster → FrgnMaster → ℤ
topology_cmp_qualified a b =
    by_steps a.steps_removed b.steps_removed
      (is_zero (bmc_pidcmp a.source_port_identity a.receive_port_identity))
      (is_zero (bmc_pidcmp b.source_port_identity b.receive_port_identity))
      (unless_zero (bmc_pidcmp a.source_port_identity b.source_port_identity)
        (bmc_pidcmp a.receive_port_identity b.receive_port_identity))

unfoldable pub bmc_topology_cmp : Globals → FrgnMaster → FrgnMaster → ℤ
bmc_topology_cmp g a b = elim (are_qualified g a b) [
  | some ret ↦ ret
  | none ↦ topology_cmp_qualified a b
]

-- Lower values win: a negative result means that A is the better one.
unfoldable pub bmc_dataset_cmp : Globals → FrgnMaster → FrgnMaster → ℤ
bmc_dataset_cmp g a b =
    if is_zero (bmc_idcmp a.grandmaster_identity b.grandmaster_identity)
    then bmc_topology_cmp g a b
    else bmc_gm_cmp g a b
