-- ===== src/Sec/Ring/Filled.antt =====
-- The key ring as the database uses it: it fills the interface `sec.KeyRing`.
use sporedb.Common.{
  true, ◌≡◌, ◌⊎◌, inl, inr, refl, Option-cases, none, some, Bytes, GoMap, lookup, is_some, ok,
  ◌>>=◌,
}
use sporedb.Spore.{Spore}
use sporedb.Policy.{pub_to_endorser}
use sporedb.World.{World, KeyRing}
use sporedb.Db.{Db, Trigger, Endorsement, hash_message, hash_spore}
use sporedb.Db.Collect.{key_name, add_endorsement_map}
use sporedb.Db.Collect.Admit.{add_endorsement_map-ok}
use sporedb.Sec.Keys.{Ring, Crypto, sign, get_public}
use sporedb.Sec.Web.Earned.{IsTrusted}
use sporedb.Sec.Ring.{verify}
use sporedb.Sec.Ring.Reach.{Reach}
use sporedb.Sec.Ring.Verify.{Checks, verify-IsTrusted}

-- `KeyRingEd25519` as a `KeyRing`. A verification also brings the web of trust up to date, which
-- changes no answer.
abbrev pub ring_keys : Crypto → KeyRing Ring
ring_keys c = record {
  sign = sign c;
  get_public = λ k identity. get_public k identity >>= λ (public, _). ok public;
  verify = λ k from cleartext signature. (verify c from cleartext signature k).1;
}

-- A world with this key ring
abbrev pub ring_world : Crypto → World → World
ring_world c w = record w { K = Ring; keys = ring_keys c }

-- What `HashSpore` answers: the cache has nothing under the identifier of the spore, and it is the
-- hash of the spore, or it is what the cache has, which can be the hash of another spore.
abbrev pub IsHashOf : {w : World} → Db w → Spore → Bytes → Type 0
IsHashOf {w} db s h =
    ((w.lru.get db.cache s.uuid ≡ none) × (h ≡ hash_message w s))
    ⊎ (w.lru.get db.cache s.uuid ≡ some h)

hash_spore-IsHashOf : {w : World} → (s : Spore) (db : Db w) → IsHashOf db s (hash_spore w s db).1
unfolding hash_spore
hash_spore-IsHashOf {w} s db = elim (Option-cases (w.lru.get db.cache s.uuid)) [
  | inl x ↦ rw (x, hash_spore) (inl (refl, refl))
  | inr (h, x) ↦ rw (x, hash_spore) (inr refl)
]

-- With a key ring that the operations lead to, an endorsement that is taken is of a known spore, and
-- the key that the ring has of its emitter is trusted by the web of trust and is that of an endorser
-- of the spore's policy. By that key it carries a signature of what `HashSpore` answers: of the hash
-- of the spore, if the cache has nothing under the spore's identifier, and otherwise of what the
-- cache has there.
pub add_endorsement_map-IsTrusted :
    (w : World) (c : Crypto) (e : Endorsement) (ma : GoMap Trigger) (db : Db (ring_world c w))
    (t' : Trigger)
    → Reach c db.keyring
    → (add_endorsement_map e ma db).1 ≡ ok t'
    → (t : Trigger) × (pub_key : Bytes) × (lookup e.uuid ma ≡ some t)
      × ((ring_keys c).get_public db.keyring (key_name e.emitter db) ≡ ok pub_key)
      × (is_some (pub_to_endorser (lookup t.spore.policy db.policies) pub_key) ≡ true)
      × (h : Bytes) × IsHashOf db t.spore h
      × Checks c (key_name e.emitter db) h e.signature db.keyring
      × IsTrusted db.keyring.keys (key_name e.emitter db)
add_endorsement_map-IsTrusted w c e ma db t' r h =
    let (t, p, known, taken, new, has, allowed, valid) = add_endorsement_map-ok e ma db t' h in
    let (checks, trusted) =
      (verify-IsTrusted c db.keyring (key_name e.emitter db)
          (hash_spore (ring_world c w) t.spore db).1 e.signature r).0
        valid in
    (
      t,
      p,
      known,
      has,
      allowed,
      (hash_spore (ring_world c w) t.spore db).1,
      hash_spore-IsHashOf t.spore db,
      checks,
      trusted,
    )
