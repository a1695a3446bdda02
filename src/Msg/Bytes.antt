-- ===== src/Msg/Bytes.antt =====
-- Octets of a message buffer, and numbers in network order (lib/network_types.h and libc's htons).
use ppsi.Prelude.{
  List, [], arith, if◌then◌else◌, leb, ltb, suc, update, zero, ℕ, ◌%◌, ◌&&◌, ◌*◌, ◌+◌, ◌/◌, ◌<◌,
  ◌^◌, ◌∷◌, ◌≡◌, ◌⊎◌,
}

-- A buffer: the octet at each offset.
abbrev pub Buffer : Type 0
Buffer = ℕ → ℕ

-- ntohs(*(UInteger16 *)(buf + i))
unfoldable pub get16 : Buffer → ℕ → ℕ
get16 buf i = buf i * 256 + buf (i + 1)

-- *(UInteger16 *)(buf + i) = htons(v)
unfoldable pub put16 : Buffer → ℕ → ℕ → Buffer
put16 buf i v = update (update buf i (v / 256 % 256)) (i + 1) (v % 256)

-- ntohl(*(UInteger32 *)(buf + i))
unfoldable pub get32 : Buffer → ℕ → ℕ
get32 buf i = get16 buf i * 65536 + get16 buf (i + 2)

unfoldable pub put32 : Buffer → ℕ → ℕ → Buffer
put32 buf i v = put16 (put16 buf i (v / 65536)) (i + 2) v

-- ntohll(*(uint64_t *)(buf + i))
unfoldable pub get64 : Buffer → ℕ → ℕ
get64 buf i = get32 buf i * 2 ^ 32 + get32 buf (i + 4)

unfoldable pub put64 : Buffer → ℕ → ℕ → Buffer
put64 buf i v = put32 (put32 buf i (v / 2 ^ 32)) (i + 4) v

-- memset(buf + i, 0, n)
unfoldable pub clear : Buffer → ℕ → ℕ → Buffer
clear buf i n j = if leb i j && ltb j (i + n) then 0 else buf j

-- memcpy(buf + i, xs, length xs)
unfoldable pub put_octets : Buffer → ℕ → List ℕ → Buffer
put_octets buf i [] = buf
put_octets buf i (x ∷ xs) = put_octets (update buf i x) (i + 1) xs

-- The n octets from buf + i on.
unfoldable pub get_octets : Buffer → ℕ → ℕ → List ℕ
get_octets buf i zero = []
get_octets buf i (suc n) = buf i ∷ get_octets buf (i + 1) n

-- Reading back what was written.
pub get16-put16 : (buf : Buffer) (i v : ℕ) → v < 2 ^ 16 → get16 (put16 buf i v) i ≡ v
unfolding get16 put16
get16-put16 buf i v h = ground arith

pub put16_other : (buf : Buffer) (i v j : ℕ) → (j < i) ⊎ (i + 1 < j) → put16 buf i v j ≡ buf j
unfolding put16
put16_other buf i v j h = ground arith

pub get32-put32 : (buf : Buffer) (i v : ℕ) → v < 2 ^ 32 → get32 (put32 buf i v) i ≡ v
unfolding get32 put32 get16 put16
get32-put32 buf i v h = ground arith
