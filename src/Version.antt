-- ===== src/Version.antt =====
-- db/version/version.go: the version of a stored value is the SHA-512 hash of its bytes.
use sporedb.Common.{
  ℕ, zero, suc, [], ◌∷◌, Bytes, bytes_eq, Result, ok, err, nil_version, version_mismatch,
  if◌then◌else◌,
}

-- A `*V`: nil, the shared `NoVersion`, which the code tells from others by its address, or a
-- version of its own with its hash.
pub data Version : Type 0 where
  nil no_version : Version
  hashed : Bytes → Version

abbrev pub version_bytes : ℕ
version_bytes = 64

-- The field `Hash`; that of `NoVersion` is nil.
abbrev pub hash : Version → Bytes
hash nil = []
hash no_version = []
hash (hashed h) = h

-- `New`, over the hash function
unfoldable pub new : (Bytes → Bytes) → Bytes → Version
new sha512 b = hashed (sha512 b)

unfoldable pub matches : Version → Version → Result (Unit {0})
matches nil w = err nil_version
matches no_version nil = err nil_version
matches (hashed h) nil = err nil_version
matches v w = if bytes_eq (hash v) (hash w) then ok tt else err version_mismatch

abbrev pub zeros : ℕ → Bytes
zeros zero = []
zeros (suc n) = 0 ∷ zeros n

unfoldable pub marshal_binary : Version → Bytes
marshal_binary nil = zeros version_bytes
marshal_binary no_version = []
marshal_binary (hashed h) = h

-- `UnmarshalBinary` on a fresh version, which copies its input
unfoldable pub unmarshal_binary : Bytes → Version
unmarshal_binary b = hashed b
