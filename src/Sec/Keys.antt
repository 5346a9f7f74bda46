-- ===== src/Sec/Keys.antt =====
-- myc/sec/ed25519.go: the key ring, the private key and the public keys that it holds.
pub mod Named
pub mod Saved
pub mod Restored
use sporedb.Common.{
  ℕ, zero, suc, ◌==◌, ltb, Bool, true, false, not, ◌&&◌, ◌||◌, Option, none, some, List, [], ◌∷◌,
  ◌++◌, take, length, Bytes, bytes_eq, GoMap, lookup, insert, erase, codes, Result, ok, err, panic,
  stuck, ◌>>=◌, if◌then◌else◌, keyring_locked, invalid_identity, invalid_public_key,
  invalid_signature, unknown_identity, insufficient_trust, external,
}
use sporedb.Sec.Trust.{trust_none, trust_ultimate, trust_string, parse_trust}

-- `Signature`, of a key and the trust in it
pub record Signature : Type 0 where
  pub data' : Bytes
  pub trust : ℕ

-- `KeyEd25519`; a pointer to a key is the name under which the key ring has it.
pub record Key : Type 0 where
  pub public : Bytes
  pub signatures : GoMap Signature
  pub identity : Bytes
  pub signed_by : List Bytes
  pub trust : ℕ
  pub effective_trust : ℕ

-- A PEM block; the bytes of the block of a key are in JSON.
pub record Block : Type 0 where
  pub kind : Bytes
  pub headers : GoMap Bytes
  pub content : Bytes

-- `KeyRingEd25519`
pub record Ring : Type 0 where
  pub keys : GoMap Key
  pub secret : Option Bytes
  pub armored_secret : Option Block
  pub stale : Bool

-- What the package only calls: the signatures of x/crypto/ed25519, the encryption of PEM blocks of
-- crypto/x509, the locked memory of memguard, PEM itself, and the JSON of a key, which has its public key and its signatures.
pub record Crypto : Type 0 where
  pub sign : Bytes → Bytes → Result Bytes
  pub verify : Bytes → Bytes → Bytes → Result Bool
  -- `memguard.NewFromBytes`: the bytes in locked memory; an error comes with none.
  pub lock : Bytes → Result Bytes
  pub decrypt : Block → Bytes → Result Bytes
  pub encrypt : Bytes → Bytes → Result Block
  -- `pem.Decode`: the first block, and what follows it
  pub pem_decode : Bytes → Option Block × Bytes
  pub pem_encode : Block → Bytes
  pub marshal_key : Bytes × GoMap Signature → Result Bytes
  pub unmarshal_key : Bytes → Result (Bytes × GoMap Signature)

abbrev pub public_key_size : ℕ
public_key_size = 32

abbrev pub pem_public_type : Bytes
pem_public_type = codes "SPOREDB PUBLIC KEY"

abbrev pub pem_private_type : Bytes
pem_private_type = codes "SPOREDB PRIVATE KEY"

-- A method returns the key ring after it, and what it returns.
abbrev pub RingCall : Type 0 → Type 0
RingCall A = Ring × Result A

-- `&KeyEd25519{}`
abbrev pub blank_key : Key
blank_key = record {
  public = [];
  signatures = [];
  identity = [];
  signed_by = [];
  trust = trust_none;
  effective_trust = trust_none;
}

-- `NewKeyRingEd25519`
unfoldable pub new_ring : Ring
new_ring = record {
  keys = ([], record blank_key { trust = trust_ultimate; effective_trust = trust_ultimate }) ∷ [];
  secret = none;
  armored_secret = none;
  stale = false;
}

-- `Locked`
unfoldable pub is_locked : Ring → Bool
is_locked k = elim k.secret [ none ↦ true | some _ ↦ false ]

-- `LockPrivate`
unfoldable pub lock_private : Ring → Ring
lock_private k = record k { secret = none }

-- `Sign`
unfoldable pub sign : Crypto → Ring → Bytes → Result Bytes
sign c k cleartext = elim k.secret [
  | none ↦ err keyring_locked
  | some secret ↦ c.sign secret cleartext
]

-- `UnlockPrivate`. A missing block is a nil pointer.
unfoldable pub unlock_private : Crypto → Bytes → Ring → RingCall (Unit {0})
unfolding is_locked
unlock_private c password k = if not (is_locked k) then (k, ok tt) else elim k.armored_secret [
  | none ↦ (k, panic)
  | some block ↦ elim (c.decrypt block password) [
    | ok secret ↦ elim (c.lock secret) [
      | ok locked ↦ (record k { secret = some locked }, ok tt)
      | err e ↦ (record k { secret = none }, err e)
      | panic ↦ (k, panic)
      | stuck ↦ (k, stuck)
    ]
    | err e ↦ (k, err e)
    | panic ↦ (k, panic)
    | stuck ↦ (k, stuck)
  ]
]

-- `CreatePrivate`, given the pair of keys that was made
unfoldable pub create_private : Crypto → Bytes → Bytes → Bytes → Ring → RingCall (Unit {0})
create_private c public secret password k = elim (lookup [] k.keys) [
  | none ↦ (k, panic)
  | some own ↦
      let k1 = record k { keys = insert [] (record own { public = public }) k.keys } in
      elim (c.lock secret) [
        | ok locked ↦
            let k2 = record k1 { secret = some locked } in
            elim (c.encrypt locked password) [
              | ok block ↦ (record k2 { armored_secret = some block }, ok tt)
              | err e ↦ (record k2 { armored_secret = none }, err e)
              | panic ↦ (k2, panic)
              | stuck ↦ (k2, stuck)
            ]
        | err e ↦ (record k1 { secret = none }, err e)
        | panic ↦ (k1, panic)
        | stuck ↦ (k1, stuck)
      ]
]

-- A key with the bytes, which loses its signatures if it had others.
unfoldable pub with_public : Bytes → Key → Key
with_public b key =
    if bytes_eq key.public b then key else record key { public = b; signatures = [] }

-- `AddPublic`
unfoldable pub add_public : Bytes → ℕ → Bytes → Ring → RingCall (Unit {0})
unfolding with_public
add_public identity trust b k =
    if length identity == 0
    then (k, err invalid_identity)
    else if not (length b == public_key_size)
    then (k, err invalid_public_key)
    else let key : Key = elim (lookup identity k.keys) [ none ↦ blank_key | some key ↦ key ] in
      (
        record k {
          keys =
              insert identity (record (with_public b key) { identity = identity; trust = trust })
                k.keys;
          stale = true;
        },
        ok tt,
      )

-- `copy` into a key of zeros
unfoldable pub copy_into : ℕ → Bytes → Bytes
copy_into zero b = []
copy_into (suc n) [] = 0 ∷ copy_into n []
copy_into (suc n) (x ∷ b) = x ∷ copy_into n b

-- `GetPublic`
unfoldable pub get_public : Ring → Bytes → Result (Bytes × ℕ)
unfolding copy_into
get_public k identity = elim (lookup identity k.keys) [
  | none ↦ err unknown_identity
  | some key ↦ ok (copy_into public_key_size key.public, key.trust)
]

-- `RemovePublic`
unfoldable pub remove_public : Bytes → Ring → Ring
remove_public identity k =
    if length identity == 0 then k else record k { keys = erase identity k.keys; stale = true }

-- The block of a key: that of the ring's own has no headers.
unfoldable pub block_of : Key → Bytes → Block
block_of key content = record {
  kind = pem_public_type;
  headers =
      if length key.identity == 0
      then []
      else (codes "identity", key.identity) ∷ ((codes "trust", trust_string key.trust) ∷ []);
  content = content;
}

-- `exportUnsafe`, on a key that is there
unfoldable pub export_key : Crypto → Key → Result Bytes
unfolding block_of
export_key c key = c.marshal_key (key.public, key.signatures) >>= λ content.
    ok (c.pem_encode (block_of key content))

-- `Export`
unfoldable pub export : Crypto → Bytes → Ring → Result Bytes
unfolding export_key
export c identity k = elim (lookup identity k.keys) [
  | none ↦ err unknown_identity
  | some key ↦ export_key c key
]

-- The blocks of the keys in a row, for `MarshalBinary`
unfoldable pub export_all : Crypto → GoMap Key → Result Bytes
unfolding export_key
export_all c [] = ok []
export_all c ((_, key) ∷ keys) = do
  raw ← export_key c key
  rest ← export_all c keys
  ok (raw ++ rest)

-- `KeyRingEd25519.MarshalBinary`. A missing block of the private key is a nil pointer.
unfoldable pub marshal_binary : Crypto → Ring → Result Bytes
unfolding export_all
marshal_binary c k = elim k.armored_secret [
  | none ↦ panic
  | some b ↦ export_all c k.keys >>= λ rest. ok (c.pem_encode b ++ rest)
]

-- The value of a header, empty if it is missing
abbrev pub header : Bytes → Block → Bytes
header name b = elim (lookup name b.headers) [ none ↦ [] | some v ↦ v ]

-- The key of a public block, before the caller's identity and trust are put in
unfoldable pub read_key : Crypto → Block → Result Key
read_key c b =
    let id = header (codes "identity") b in
    let level = (parse_trust (header (codes "trust") b)).0 in
    elim (c.unmarshal_key b.content) [
      | ok (public, signatures) ↦ ok (record blank_key {
        public = public;
        signatures = signatures;
        identity = id;
        trust = if length id == 0 then trust_ultimate else level;
      })
      | err _ ↦ err invalid_signature
      | panic ↦ panic
      | stuck ↦ stuck
    ]

-- The caller's identity and trust, where an identity is given
unfoldable pub claim_key : Bytes → ℕ → Key → Result Key
claim_key identity trust key =
    if length identity == 0
    then ok key
    else if not (length key.identity == 0) && not (bytes_eq key.identity identity)
    then err invalid_identity
    else ok (record key { identity = identity; trust = trust })

-- `importUnsafe` on a block
unfoldable pub import_block : Crypto → Block → Bytes → ℕ → Ring → RingCall (Unit {0})
unfolding read_key claim_key
import_block c b identity trust k =
    if bytes_eq b.kind pem_private_type
    then if not (length identity == 0)
      then (k, err invalid_identity)
      else (record k { armored_secret = some b; stale = true }, ok tt)
    else if bytes_eq b.kind pem_public_type
    then elim (read_key c b >>= claim_key identity trust) [
      | ok key ↦ (record k { keys = insert key.identity key k.keys; stale = true }, ok tt)
      | err e ↦ (k, err e)
      | panic ↦ (k, panic)
      | stuck ↦ (k, stuck)
    ]
    else (record k { stale = true }, ok tt)

-- `Import`; no block is `io.EOF`.
unfoldable pub import : Crypto → Bytes → Bytes → ℕ → Ring → RingCall (Unit {0})
unfolding import_block
import c input identity trust k =
    if length identity == 0 then (k, err invalid_identity) else elim (c.pem_decode input).0 [
      | none ↦ (k, err (external 9))
      | some b ↦ import_block c b identity trust k
    ]

-- The loop of `UnmarshalBinary`, which ends at the first text without a block; an error of a block
-- is dropped.
unfoldable pub unmarshal_loop : Crypto → ℕ → Bytes → Ring → RingCall (Unit {0})
unfolding import_block
unmarshal_loop c zero buffer k = (k, stuck)
unmarshal_loop c (suc fuel) buffer k = elim (length buffer == 0) [
  | true ↦ (k, ok tt)
  | false ↦ elim (c.pem_decode buffer).0 [
    | none ↦ (k, ok tt)
    | some b ↦ unmarshal_loop c fuel (c.pem_decode buffer).1 (import_block c b [] trust_none k).0
  ]
]

-- `KeyRingEd25519.UnmarshalBinary`
unfoldable pub unmarshal_binary : Crypto → Bytes → Ring → RingCall (Unit {0})
unfolding unmarshal_loop
unmarshal_binary c b k = unmarshal_loop c (suc (length b)) b k
