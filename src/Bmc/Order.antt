-- ===== src/Bmc/Order.antt =====
-- The comparisons are antisymmetric, and grandmasters are ordered by a key.
use mathlib.Core.Option
use ppsi.Bmc.Compare.{
  are_qualified, bmc_dataset_cmp, bmc_gm_cmp, bmc_idcmp, bmc_pidcmp, bmc_topology_cmp, by_field,
  by_steps, gm_cmp_qualified, is_qualified, memcmp, topology_cmp_qualified, unless_zero,
}
use ppsi.Ds.{FrgnMaster, Globals, PortIdentity}
use ppsi.Prelude.{
  Bool, List, [], arith, is_neg, is_pos, is_zero, neg_ℤ, none, pos, refl, sym, true, ℕ, ℤ, ◌↔◌, ◌∙◌,
  ◌∷◌, ◌≡◌,
}

-- memcmp swapped is memcmp negated.
pub memcmp-neg : (xs ys : List ℕ) → memcmp ys xs ≡ neg_ℤ (memcmp xs ys)
unfolding memcmp
memcmp-neg [] [] = refl
memcmp-neg [] (y ∷ ys) = refl
memcmp-neg (x ∷ xs) [] = refl
memcmp-neg (x ∷ xs) (y ∷ ys) = ground (arith, memcmp-neg xs ys)

pub memcmp_refl : (xs : List ℕ) → memcmp xs xs ≡ pos 0
unfolding memcmp
memcmp_refl [] = refl
memcmp_refl (x ∷ xs) = ground (arith, memcmp_refl xs)

pub memcmp_eq : (xs ys : List ℕ) → is_zero (memcmp xs ys) ≡ true → xs ≡ ys
unfolding memcmp
memcmp_eq [] [] h = refl
memcmp_eq [] (y ∷ ys) h = cc
memcmp_eq (x ∷ xs) [] h = cc
memcmp_eq (x ∷ xs) (y ∷ ys) h = ground (arith, memcmp_eq xs ys)

pub memcmp_trans :
    (xs ys zs : List ℕ)
    → is_neg (memcmp xs ys) ≡ true
    → is_neg (memcmp ys zs) ≡ true
    → is_neg (memcmp xs zs) ≡ true
unfolding memcmp
memcmp_trans [] [] zs h k = cc
memcmp_trans [] (y ∷ ys) [] h k = cc
memcmp_trans [] (y ∷ ys) (z ∷ zs) h k = refl
memcmp_trans (x ∷ xs) [] zs h k = cc
memcmp_trans (x ∷ xs) (y ∷ ys) [] h k = cc
memcmp_trans (x ∷ xs) (y ∷ ys) (z ∷ zs) h k = ground (arith, memcmp_trans xs ys zs)

pub bmc_pidcmp-neg : (a b : PortIdentity) → bmc_pidcmp b a ≡ neg_ℤ (bmc_pidcmp a b)
unfolding bmc_pidcmp bmc_idcmp
bmc_pidcmp-neg a b = ground (arith, memcmp-neg a.clock_identity.id b.clock_identity.id)

-- Two identities compare equal exactly when they are equal.
pub bmc_pidcmp_iff : (a b : PortIdentity) → (is_zero (bmc_pidcmp a b) ≡ true) ↔ (a ≡ b)
unfolding bmc_pidcmp bmc_idcmp
bmc_pidcmp_iff a b = (
  λ h. ground (arith, memcmp_eq a.clock_identity.id b.clock_identity.id),
  λ e. rw e (ground (arith, memcmp_refl b.clock_identity.id)),
)

are_qualified_swap :
    (g : Globals) (a b : FrgnMaster) → are_qualified g b a ≡ Option.map neg_ℤ (are_qualified g a b)
unfolding are_qualified
are_qualified_swap g a b = ground arith

by_field-neg : (x y : ℕ) (r : ℤ) → by_field y x (neg_ℤ r) ≡ neg_ℤ (by_field x y r)
unfolding by_field
by_field-neg x y r = ground arith

by_steps-neg :
    (x y : ℕ) (d e : Bool) (r : ℤ) → by_steps y x e d (neg_ℤ r) ≡ neg_ℤ (by_steps x y d e r)
unfolding by_steps
by_steps-neg x y d e r = ground arith

unless_zero-neg : (d r : ℤ) → unless_zero (neg_ℤ d) (neg_ℤ r) ≡ neg_ℤ (unless_zero d r)
unfolding unless_zero
unless_zero-neg d r = ground arith

gm_cmp_qualified-neg : (a b : FrgnMaster) → gm_cmp_qualified b a ≡ neg_ℤ (gm_cmp_qualified a b)
unfolding gm_cmp_qualified bmc_idcmp
gm_cmp_qualified-neg a b =
    rw (memcmp-neg a.grandmaster_identity.id b.grandmaster_identity.id) (simp by_field-neg)

topology_cmp_qualified-neg :
    (a b : FrgnMaster) → topology_cmp_qualified b a ≡ neg_ℤ (topology_cmp_qualified a b)
unfolding topology_cmp_qualified
topology_cmp_qualified-neg a b =
    rw
      (
        bmc_pidcmp-neg a.source_port_identity b.source_port_identity,
        bmc_pidcmp-neg a.receive_port_identity b.receive_port_identity,
      )
      (simp (unless_zero-neg, by_steps-neg))

bmc_gm_cmp-neg : (g : Globals) (a b : FrgnMaster) → bmc_gm_cmp g b a ≡ neg_ℤ (bmc_gm_cmp g a b)
unfolding bmc_gm_cmp
bmc_gm_cmp-neg g a b = ground (arith, are_qualified_swap g a b, gm_cmp_qualified-neg a b)

bmc_topology_cmp-neg :
    (g : Globals) (a b : FrgnMaster) → bmc_topology_cmp g b a ≡ neg_ℤ (bmc_topology_cmp g a b)
unfolding bmc_topology_cmp
bmc_topology_cmp-neg g a b =
    ground (arith, are_qualified_swap g a b, topology_cmp_qualified-neg a b)

-- Comparing two foreign masters the other way round gives the negated result, on every branch: by
-- grandmaster, by topology, and where one of them is not qualified.
pub bmc_dataset_cmp-neg :
    (g : Globals) (a b : FrgnMaster) → bmc_dataset_cmp g b a ≡ neg_ℤ (bmc_dataset_cmp g a b)
unfolding bmc_dataset_cmp bmc_idcmp
bmc_dataset_cmp-neg g a b = ground (
  arith,
  memcmp-neg a.grandmaster_identity.id b.grandmaster_identity.id,
  bmc_gm_cmp-neg g a b,
  bmc_topology_cmp-neg g a b,
)

-- What figure 27 of the standard compares, in its order.
abbrev pub gm_key : FrgnMaster → List ℕ
gm_key m =
    m.grandmaster_priority1 ∷ m.grandmaster_clock_quality.clock_class
    ∷ m.grandmaster_clock_quality.clock_accuracy
    ∷ m.grandmaster_clock_quality.offset_scaled_log_variance ∷ m.grandmaster_priority2
    ∷ m.grandmaster_identity.id

abbrev SameSign : ℤ → ℤ → Type 0
SameSign a b = (is_neg a ≡ is_neg b) × (is_pos a ≡ is_pos b)

by_field-memcmp :
    (x y : ℕ) (r : ℤ) (xs ys : List ℕ)
    → SameSign r (memcmp xs ys)
    → SameSign (by_field x y r) (memcmp (x ∷ xs) (y ∷ ys))
unfolding by_field memcmp
by_field-memcmp x y r xs ys h = ground arith

pub both_qualified :
    (g : Globals) (a b : FrgnMaster)
    → is_qualified g a ≡ true
    → is_qualified g b ≡ true
    → are_qualified g a b ≡ none
unfolding are_qualified
both_qualified g a b qa qb = ground arith

-- Two qualified masters compare by their grandmasters as their keys compare as texts.
pub bmc_gm_cmp-key :
    (g : Globals) (a b : FrgnMaster)
    → is_qualified g a ≡ true
    → is_qualified g b ≡ true
    → (is_neg (bmc_gm_cmp g a b) ≡ is_neg (memcmp (gm_key a) (gm_key b)))
      × (is_pos (bmc_gm_cmp g a b) ≡ is_pos (memcmp (gm_key a) (gm_key b)))
unfolding bmc_gm_cmp gm_cmp_qualified bmc_idcmp
bmc_gm_cmp-key g a b qa qb =
    rw (both_qualified g a b qa qb, bmc_gm_cmp)
      (by_field-memcmp _ _ _ _ _ (
        by_field-memcmp _ _ _ _ _ (
          by_field-memcmp _ _ _ _ _
            (by_field-memcmp _ _ _ _ _ (by_field-memcmp _ _ _ _ _ (refl, refl))))))

-- Among qualified masters "better by the grandmaster" is transitive.
pub bmc_gm_cmp_trans :
    (g : Globals) (a b c : FrgnMaster)
    → is_qualified g a ≡ true
    → is_qualified g b ≡ true
    → is_qualified g c ≡ true
    → is_neg (bmc_gm_cmp g a b) ≡ true
    → is_neg (bmc_gm_cmp g b c) ≡ true
    → is_neg (bmc_gm_cmp g a c) ≡ true
bmc_gm_cmp_trans g a b c qa qb qc h k =
    (bmc_gm_cmp-key g a c qa qc).0
    ∙ memcmp_trans (gm_key a) (gm_key b) (gm_key c) (sym (bmc_gm_cmp-key g a b qa qb).0 ∙ h)
        (sym (bmc_gm_cmp-key g b c qb qc).0 ∙ k)
