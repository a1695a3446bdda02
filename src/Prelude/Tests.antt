-- ===== src/Prelude/Tests.antt =====
-- Boolean tests on the native numbers, and the conditional.
use Prim.Native.Nat.{ℕ, zero, suc, ◌+◌, ◌<◌, ◌≤◌, compare, Ordering}
use mathlib.Core.Path.{◌≡◌, refl}
use mathlib.Core.Logic.{◌↔◌, ◌⊎◌, inl, inr}
use mathlib.Core.Bool.{Bool, true, false}
use mathlib.Core.Option.{Option, none, some}
use native.Mathlib.Omega.{arith}

abbrev pub ltb : ℕ → ℕ → Bool
ltb a b = elim (compare a b) [ Ordering.lt ↦ true | _ ↦ false ]

abbrev pub leb : ℕ → ℕ → Bool
leb a b = elim (compare a b) [ Ordering.gt ↦ false | _ ↦ true ]

infix 50 ◌==◌
abbrev pub ◌==◌ : ℕ → ℕ → Bool
a == b = elim (compare a b) [ Ordering.eq ↦ true | _ ↦ false ]

infix 1 if◌then◌else◌
abbrev pub if◌then◌else◌ {ℓ} : {A : Type ℓ} → Bool → A → A → A
if true then x else y = x
if false then x else y = y

pub ltb→lt : (a b : ℕ) → ltb a b ≡ true → a < b
ltb→lt a b h = ground arith

pub lt→ltb : (a b : ℕ) → a < b → ltb a b ≡ true
lt→ltb a b h = ground arith

pub ==_iff : (a b : ℕ) → ((a == b) ≡ true) ↔ (a ≡ b)
==_iff a b = ground arith

-- A C integer as a truth value
abbrev pub is_set : ℕ → Bool
is_set n = ltb 0 n

-- To split on a computed value and keep the equation.
pub Bool-cases : (b : Bool) → (b ≡ true) ⊎ (b ≡ false)
Bool-cases true = inl refl
Bool-cases false = inr refl

pub Option-cases {ℓ} : {A : Type ℓ} (o : Option A) → (o ≡ none) ⊎ ((a : A) × (o ≡ some a))
Option-cases none = inl refl
Option-cases (some a) = inr (a, refl)

-- What holds of both branches holds of the test's result.
pub if_either {ℓ ℓ'} :
    {A : Type ℓ} {x y : A} (b : Bool) (P : A → Type ℓ') → P x → P y → P (if b then x else y)
if_either true P px py = px
if_either false P px py = py

-- The same, with the test's result at hand.
pub if_case {ℓ ℓ'} :
    {A : Type ℓ} {x y : A} (b : Bool) (P : A → Type ℓ')
    → (b ≡ true → P x)
    → (b ≡ false → P y)
    → P (if b then x else y)
if_case true P px py = px refl
if_case false P px py = py refl

-- An index that the source keeps in an integer, with -1 for "none".
abbrev pub is_index : Option ℕ → ℕ → Bool
is_index none i = false
is_index (some j) i = elim (compare j i) [ Ordering.eq ↦ true | _ ↦ false ]

abbrev pub is_some {ℓ} : {A : Type ℓ} → Option A → Bool
is_some none = false
is_some (some a) = true

-- A finite table of cases: the test holds at `start`, `start + 1` and so on, `count` times.
unfoldable pub checked : (count start : ℕ) → (ℕ → Bool) → Bool
checked zero start test = true
checked (suc count) start test = if test start then checked count (start + 1) test else false

pub checked_at :
    (count start : ℕ) (test : ℕ → Bool)
    → checked count start test ≡ true
    → (k : ℕ) → start ≤ k
    → k < start + count
    → test k ≡ true
unfolding checked
checked_at zero start test all k low high = ground arith
checked_at (suc count) start test all k low high =
    let later = checked_at count (start + 1) test in
    elim (Bool-cases (start == k)) [
      | inl here ↦ ground arith
      | inr other ↦ later (ground arith) k (ground arith) (omega arith)
    ]
