-- ===== src/Sec/Keys/Restored.antt =====
-- The key ring written by `MarshalBinary` and read back by `UnmarshalBinary`.
use sporedb.Common.{
  suc, ◌<◌, ◌≡◌, ◌≢◌, inl, inr, refl, arith, true, none, some, Option-cases, [], ◌∷◌, ◌++◌, length,
  Bytes, bytes_eq, bytes_eq_iff, GoMap, lookup, insert, IsUnique, All, ok, >>=-eq-ok, ok-injective,
  ap, ◌∙◌, sym, subst, some-injective,
}
use mathlib.Core.Option
use sporedb.Sec.Trust.{trust_none, trust_ultimate}
use sporedb.Sec.Keys.{
  Key, Ring, RingCall, Crypto, Block, new_ring, pem_private_type, export_all, marshal_binary,
  import_block, unmarshal_loop, unmarshal_binary,
}
use sporedb.Sec.Keys.Named.{IsNamed, AreKeys, own_trust}
use sporedb.Sec.Keys.Saved.{
  saved, IsPlain, IsPortable, IsOwnTrusted, reload, longer_lem, encoded, unmarshal_loop-next,
  unmarshal_loop-export_all, lookup-reload,
}

-- The own key of a ring that the operations lead to is trusted the most.
AreKeys-own :
    (keys : GoMap Key)
    → IsUnique keys
    → All IsNamed keys
    → ((key : Key) → lookup [] keys ≡ some key → key.trust ≡ trust_ultimate)
    → All IsOwnTrusted keys
unfolding lookup
AreKeys-own [] u n h = tt
AreKeys-own ((name, key) ∷ keys) u n h = (
  λ e. h key (ground (arith, e, n.0, bytes_eq_iff name [])),
  AreKeys-own keys u.1 n.1
      (λ other known. h other (ground (arith, known, u.0, bytes_eq_iff name []))),
)

reload-armored :
    (keys : GoMap Key) (k : Ring)
    → ((reload keys k).armored_secret ≡ k.armored_secret)
      × (k.stale ≡ true → (reload keys k).stale ≡ true)
reload-armored [] k = (refl, λ s. s)
reload-armored ((name, key) ∷ keys) k =
    let r =
      reload-armored keys
        (record k { keys = insert key.identity (saved key) k.keys; stale = true }) in
    (r.0, λ _. r.1 refl)

-- A new key ring that has read the private key
abbrev with_private : Block → Ring
with_private b = record new_ring { armored_secret = some b; stale = true }

lookup-new_ring : (name : Bytes) → name ≢ [] → lookup name new_ring.keys ≡ none
unfolding new_ring lookup
lookup-new_ring name h = ground (arith, bytes_eq_iff [] name, h)

lookup-restored :
    (name : Bytes) (b : Block) (keys : GoMap Key)
    → AreKeys keys
    → lookup name (reload keys (with_private b)).keys ≡ Option.map saved (lookup name keys)
lookup-restored name b keys h = elim (Option-cases (lookup name keys)) [
  | inl x ↦
      rw (lookup-reload name keys (with_private b) h.unique h.named, x)
        (lookup-new_ring name (λ e. own_lem (ap (λ n. lookup n keys) (sym e) ∙ x)))
  | inr (key, x) ↦ rw (lookup-reload name keys (with_private b) h.unique h.named, x) refl
]
  where
    own_lem : lookup [] keys ≢ none
    own_lem e = let r = rw e at h.own in cc

abbrev pub reread : Crypto → Bytes → RingCall (Unit {0})
reread c raw = unmarshal_binary c raw new_ring

import_block-private :
    (c : Crypto) (b : Block)
    → bytes_eq b.kind pem_private_type ≡ true
    → import_block c b [] trust_none new_ring ≡ (with_private b, ok tt)
unfolding import_block
import_block-private c b t = rw (t, import_block) refl

restored_lem :
    (c : Crypto) (k : Ring) (b : Block) (raw : Bytes)
    → AreKeys k.keys
    → All (λ (x : Bytes × Key). IsPortable c x.1) k.keys
    → (c.pem_decode []).0 ≡ none
    → k.armored_secret ≡ some b
    → bytes_eq b.kind pem_private_type ≡ true
    → IsPlain c b
    → marshal_binary c k ≡ ok raw
    → (reload k.keys (with_private b), ok tt) ≡ reread c raw
unfolding marshal_binary unmarshal_binary
restored_lem c k b raw h p d s t plain e =
    let (rest, er, e2) = >>=-eq-ok (export_all c k.keys) _ raw (rw (s, marshal_binary) at e) in
    let shape : c.pem_encode b ++ rest ≡ raw = ok-injective e2 in
    let shorter : length rest < length raw =
      omega (arith, longer_lem (c.pem_encode b) rest (encoded c b d plain), ap length shape) in
    let own =
      AreKeys-own k.keys h.unique h.named
        (λ key known. some-injective (sym (ap own_trust known) ∙ h.own)) in
    subst
      (λ x.
        (reload k.keys (with_private b), ok tt) ≡ unmarshal_loop c (suc (length raw)) x new_ring)
      shape
      (sym (
        unmarshal_loop-next c (length raw) b rest new_ring d plain
        ∙ (ap (λ (r : RingCall (Unit {0})). unmarshal_loop c (length raw) rest r.0)
              (import_block-private c b t)
            ∙ unmarshal_loop-export_all c (length raw) k.keys rest (with_private b) d p own er
                shorter)))

-- What `MarshalBinary` writes of a key ring, `UnmarshalBinary` reads back into a new key ring: the
-- block of the private key, and under each name the key with its bytes, its signatures and its level, while
-- the web of trust is stale. The hypotheses are those of a ring that the operations lead to, with named
-- levels, and that PEM and JSON give back what they were given.
pub reread-marshal_binary :
    (c : Crypto) (k : Ring) (b : Block) (raw : Bytes)
    → AreKeys k.keys
    → All (λ (x : Bytes × Key). IsPortable c x.1) k.keys
    → (c.pem_decode []).0 ≡ none
    → k.armored_secret ≡ some b
    → bytes_eq b.kind pem_private_type ≡ true
    → IsPlain c b
    → marshal_binary c k ≡ ok raw
    → ((reread c raw).1 ≡ ok tt)
      × ((reread c raw).0.armored_secret ≡ some b)
      × ((reread c raw).0.stale ≡ true)
      × ((name : Bytes) → lookup name (reread c raw).0.keys ≡ Option.map saved (lookup name k.keys))
unfolding marshal_binary
reread-marshal_binary c k b raw h p d s t plain e =
    subst
      (λ (r : RingCall (Unit {0})).
        (r.1 ≡ ok tt)
        × (r.0.armored_secret ≡ some b)
        × (r.0.stale ≡ true)
        × ((name : Bytes) → lookup name r.0.keys ≡ Option.map saved (lookup name k.keys)))
      (restored_lem c k b raw h p d s t plain e)
      (
        refl,
        (reload-armored k.keys (with_private b)).0,
        (reload-armored k.keys (with_private b)).1 refl,
        λ name. lookup-restored name b k.keys h,
      )
