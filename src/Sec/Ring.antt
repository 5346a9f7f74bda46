-- ===== src/Sec/Ring.antt =====
-- myc/sec/ed25519_trust.go: the signatures between keys, and what the key ring verifies with the
-- web of trust, which it builds when it is asked for and stale.
pub mod Fresh
pub mod Stale
pub mod Reach
pub mod Verify
pub mod Filled
use sporedb.Common.{
  ℕ, ltb, Bool, true, false, Option, none, some, List, [], ◌∷◌, ◌++◌, length, ◌==◌, Bytes, GoMap,
  lookup, insert, Result, ok, err, panic, stuck, ◌>>=◌, ◌>>◌, if◌then◌else◌, invalid_signature,
  unknown_identity, insufficient_trust,
}
use sporedb.Sec.Trust.{trust_threshold}
use sporedb.Sec.Keys.{Signature, Key, Ring, RingCall, Crypto, sign}
use sporedb.Sec.Web.{signatures_of, build_trust_web}

-- `waitForStaleCleared`: with the lock, one round clears it.
unfoldable pub clear_stale : Ring → Result Ring
clear_stale k = if k.stale then build_trust_web k else ok k

-- A method that reads the key ring after its web of trust is up to date
unfoldable pub with_web : {A : Type 0} → (Ring → Result A) → Ring → RingCall A
with_web body k = elim (clear_stale k) [
  | ok k1 ↦ (k1, body k1)
  | err e ↦ (k, err e)
  | panic ↦ (k, panic)
  | stuck ↦ (k, stuck)
]

-- `trustedUnsafe`
unfoldable pub trusted_unsafe : Key → Result (Unit {0})
trusted_unsafe key =
    if ltb key.effective_trust trust_threshold then err insufficient_trust else ok tt

unfoldable pub trusted_body : Bytes → Ring → Result (Unit {0})
unfolding trusted_unsafe
trusted_body identity k = elim (lookup identity k.keys) [
  | none ↦ err unknown_identity
  | some key ↦ trusted_unsafe key
]

-- `Trusted`
unfoldable pub trusted : Bytes → Ring → RingCall (Unit {0})
unfolding with_web trusted_body
trusted identity k = with_web (trusted_body identity) k

unfoldable pub verify_body : Crypto → Bytes → Bytes → Bytes → Ring → Result (Unit {0})
unfolding trusted_unsafe
verify_body c from cleartext signature k = elim (lookup from k.keys) [
  | none ↦ err unknown_identity
  | some key ↦ c.verify key.public cleartext signature >>= λ valid.
      if valid then trusted_unsafe key else err invalid_signature
]

-- `KeyRingEd25519.Verify`
unfoldable pub verify : Crypto → Bytes → Bytes → Bytes → Ring → RingCall (Unit {0})
unfolding with_web verify_body
verify c from cleartext signature k = with_web (verify_body c from cleartext signature) k

-- The copy of `GetSignatures`; a signature that the signer does not have is nil.
unfoldable pub signatures_from : Bytes → List Bytes → GoMap Key → GoMap (Option Signature)
signatures_from identity [] keys = []
signatures_from identity (signer ∷ signers) keys =
    insert signer (lookup identity (signatures_of signer keys))
      (signatures_from identity signers keys)

unfoldable pub signatures_body : Bytes → Ring → Result (GoMap (Option Signature))
unfolding signatures_from
signatures_body identity k = elim (lookup identity k.keys) [
  | none ↦ ok []
  | some key ↦ ok (signatures_from identity key.signed_by k.keys)
]

-- `GetSignatures`
unfoldable pub get_signatures : Bytes → Ring → RingCall (GoMap (Option Signature))
unfolding with_web signatures_body
get_signatures identity k = with_web (signatures_body identity) k

-- `verifySignature`
unfoldable pub verify_signature : Crypto → Key → Key → Signature → Result (Unit {0})
verify_signature c signer signee s =
    c.verify signer.public (signee.public ++ (s.trust ∷ [])) s.data' >>= λ valid.
    if valid then ok tt else err invalid_signature

-- The signature that `AddSignature` puts in: the ring's own, or the one given if it is valid
unfoldable pub made_signature : Crypto → Ring → Bytes → Key → Key → Signature → Result Signature
unfolding sign verify_signature
made_signature c k from signer key s =
    if length from == 0
    then sign c k (key.public ++ (key.trust ∷ []))
      >>= (λ b. ok (record { data' = b; trust = key.trust }))
    else verify_signature c signer key s >> ok s

-- `AddSignature`
unfoldable pub add_signature : Crypto → Bytes → Bytes → Signature → Ring → RingCall (Unit {0})
unfolding made_signature
add_signature c identity from s k = elim (lookup identity k.keys) [
  | none ↦ (k, err unknown_identity)
  | some key ↦ elim (lookup from k.keys) [
    | none ↦ (k, err unknown_identity)
    | some signer ↦ elim (made_signature c k from signer key s) [
      | ok made ↦ (
        record k {
          keys =
              insert from (record signer { signatures = insert identity made signer.signatures })
                k.keys;
          stale = true;
        },
        ok tt,
      )
      | err e ↦ (k, err e)
      | panic ↦ (k, panic)
      | stuck ↦ (k, stuck)
    ]
  ]
]
