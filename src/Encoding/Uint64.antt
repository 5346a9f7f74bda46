-- ===== src/Encoding/Uint64.antt =====
-- db/encoding/uint64.go: an unsigned 64-bit integer as eight bytes, the lowest first.
use sporedb.Common.{
  ℕ, zero, suc, ◌+◌, ◌*◌, ◌/◌, ◌%◌, ◌^◌, ◌<◌, ◌≡◌, refl, [], ◌∷◌, ◌++◌, arith, ltb, length,
  if◌then◌else◌, Bytes, IsBytes, Bool-cases, inl, inr,
}
use native.Mathlib.Nat.{pow-suc}

-- `binary.LittleEndian.PutUint64`, for any number of bytes
le_bytes : ℕ → ℕ → Bytes
le_bytes zero u = []
le_bytes (suc k) u = u % 256 ∷ le_bytes k (u / 256)

-- `binary.LittleEndian.Uint64`, for any number of bytes, on the front of the slice
le_value : ℕ → Bytes → ℕ
le_value zero b = 0
le_value (suc k) [] = 0
le_value (suc k) (b ∷ bs) = b + 256 * le_value k bs

unfoldable pub uint64_to_bytes : ℕ → Bytes
unfolding le_bytes
uint64_to_bytes u = le_bytes 8 u

unfoldable pub bytes_to_uint64 : Bytes → ℕ
unfolding le_value
bytes_to_uint64 b = if ltb (length b) 8 then 0 else le_value 8 b

length-le_bytes : (k u : ℕ) → length (le_bytes k u) ≡ k
unfolding le_bytes
length-le_bytes zero u = refl
length-le_bytes (suc k) u = omega (arith, length-le_bytes k (u / 256))

pub length-uint64_to_bytes : (u : ℕ) → length (uint64_to_bytes u) ≡ 8
unfolding uint64_to_bytes
length-uint64_to_bytes u = length-le_bytes 8 u

le_bytes-IsBytes : (k u : ℕ) → IsBytes (le_bytes k u)
unfolding le_bytes
le_bytes-IsBytes zero u = tt
le_bytes-IsBytes (suc k) u = (omega arith, le_bytes-IsBytes k (u / 256))

pub uint64_to_bytes-IsBytes : (u : ℕ) → IsBytes (uint64_to_bytes u)
unfolding uint64_to_bytes
uint64_to_bytes-IsBytes u = le_bytes-IsBytes 8 u

-- The eight bytes of a 64-bit number read back as it, whatever follows them.
pub bytes_to_uint64-uint64_to_bytes :
    (u : ℕ) (rest : Bytes) → u < 2 ^ 64 → bytes_to_uint64 (uint64_to_bytes u ++ rest) ≡ u
unfolding uint64_to_bytes bytes_to_uint64
bytes_to_uint64-uint64_to_bytes u rest h = ground arith

le_value-lt : (k : ℕ) (b : Bytes) → IsBytes b → le_value k b < 256 ^ k
unfolding le_value
le_value-lt zero b h = omega arith
le_value-lt (suc k) [] h = rw pow-suc (omega (arith, le_value-lt k [] tt))
le_value-lt (suc k) (b ∷ bs) h = rw pow-suc (omega (arith, le_value-lt k bs h.1, h.0))

-- Eight bytes are a number below 2 ^ 64.
pub bytes_to_uint64-lt : (b : Bytes) → IsBytes b → bytes_to_uint64 b < 2 ^ 64
unfolding bytes_to_uint64
bytes_to_uint64-lt b h = elim (Bool-cases (ltb (length b) 8)) [
  | inl short ↦ rw short (omega arith)
  | inr long ↦ rw long (le_value-lt 8 b h)
]
