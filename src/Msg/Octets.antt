-- ===== src/Msg/Octets.antt =====
-- Copying octets into a buffer and back.
use mathlib.Core.Path.{ap₂, subst}
use ppsi.Msg.Bytes.{Buffer, get_octets, put_octets}
use ppsi.Prelude.{
  List, [], arith, inl, length, refl, suc, update, zero, ℕ, ◌+◌, ◌<◌, ◌∙◌, ◌∷◌, ◌≡◌, ◌≤◌, ◌⊎◌,
}

pub put_octets_other :
    (xs : List ℕ) (buf : Buffer) (i j : ℕ)
    → (j < i) ⊎ (i + length xs ≤ j)
    → put_octets buf i xs j ≡ buf j
unfolding put_octets
put_octets_other [] buf i j h = refl
put_octets_other (x ∷ xs) buf i j h =
    put_octets_other xs (update buf i x) (i + 1) j (omega arith) ∙ ground arith

pub get_octets-put_octets :
    (xs : List ℕ) (buf : Buffer) (i : ℕ) → get_octets (put_octets buf i xs) i (length xs) ≡ xs
unfolding put_octets get_octets
get_octets-put_octets [] buf i = refl
get_octets-put_octets (x ∷ xs) buf i =
    rw (put_octets_other xs (update buf i x) (i + 1) i (inl (omega arith)))
      (rw (get_octets-put_octets xs (update buf i x) (i + 1)) (ground arith))

-- Buffers that agree on a range hold the same octets there.
pub get_octets_ext :
    (b c : Buffer) (i n : ℕ)
    → ((j : ℕ) → i ≤ j → j < i + n → b j ≡ c j)
    → get_octets b i n ≡ get_octets c i n
unfolding get_octets
get_octets_ext b c i zero h = refl
get_octets_ext b c i (suc n) h =
    ap₂ ◌∷◌ (h i (omega arith) (omega arith))
      (get_octets_ext b c (i + 1) n (λ j lo hi. h j (omega arith) (omega arith)))

pub get_octets_eight :
    (xs : List ℕ) (buf : Buffer) (i : ℕ) → length xs ≡ 8 → get_octets (put_octets buf i xs) i 8 ≡ xs
get_octets_eight xs buf i h =
    subst (λ (n : ℕ). get_octets (put_octets buf i xs) i n ≡ xs) h (get_octets-put_octets xs buf i)
