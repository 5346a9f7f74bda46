-- ===== src/Db/Upkeep/Reuse.antt =====
-- `HashSpore` keeps the hashes under the identifiers of the spores.
use sporedb.Common.{
  ℕ, ◌≡◌, ◌==◌, sym, true, false, none, some, [], ◌∷◌, Bytes, lookup, lookup-insert, is_some,
  bytes_eq_refl, ok, arith,
}
use sporedb.Spore.{Spore}
use sporedb.Policy.{Policy, pub_to_endorser}
use sporedb.World.{World, Lru}
use sporedb.Db.{Db, Trigger, Endorsement, cache_task, hash_message, hash_spore}
use sporedb.Db.Endorse.{
  verify_spore_signature, can_endorse, own_public, stage, endorse, execute_endorsement,
}
use sporedb.Db.Collect.{key_name, check_endorsement, add_endorsement_map, with_endorsement}
use sporedb.Db.Upkeep.{received, run_task, handle}

-- What golang-lru documents: what was added last is found.
abbrev pub LruLaws : {C : Type 0} → Lru C → Type 0
LruLaws {C} l = (c : C) (key value : Bytes) → l.get (l.add c key value) key ≡ some value

module _ {w : World} where
  -- The node when the task has run that `HashSpore` has started for a spore
  abbrev pub with_hash : ℕ → Spore → Db w → Db w
  with_hash now s db = (run_task now (cache_task s.uuid (hash_message w s)) db).0

  received-stages :
      (now : ℕ) (s : Spore) (db : Db w) (policy : Policy)
      → verify_spore_signature s db ≡ ok tt
      → can_endorse now s db ≡ ok tt
      → lookup s.policy db.policies ≡ some policy
      → (policy.quorum == 0) ≡ false
      → pub_to_endorser (some policy) (own_public db) ≡ none
      → (handle now (received s) db).0 ≡ stage s [] db
  unfolding handle endorse sporedb.Db.Endorse.endorse_answer execute_endorsement
  received-stages now s db policy signed can known some_quorum no_endorser =
      ground (arith, signed, can, known, some_quorum, no_endorser)

  staged-taken :
      (e : Endorsement) (s : Spore) (h pub_key : Bytes) (db : Db w)
      → e.uuid ≡ s.uuid
      → w.lru.get db.cache s.uuid ≡ some h
      → w.keys.get_public db.keyring (key_name e.emitter db) ≡ ok pub_key
      → is_some (pub_to_endorser (lookup s.policy db.policies) pub_key) ≡ true
      → w.keys.verify db.keyring (key_name e.emitter db) h e.signature ≡ ok tt
      → (add_endorsement_map e (stage s [] db).staging (stage s [] db)).1
        ≡ ok (record { armed = true; endorsements = e ∷ []; spore = s })
  unfolding stage add_endorsement_map check_endorsement hash_spore with_endorsement key_name
      sporedb.Db.Collect.has_endorsed
  staged-taken e s h pub_key db same cached has allowed valid = ground (
    arith,
    same,
    lookup-insert s.uuid s.uuid (record { armed = true; endorsements = []; spore = s }) db.staging,
    bytes_eq_refl s.uuid,
    has,
    allowed,
    cached,
    valid,
  )

  -- A spore `b` with the identifier of another spore `a`, at a node that has just put the hash of
  -- `a` into its cache, which finds what was added last, and that is no endorser of the policy of
  -- `b`, whose quorum is not 0. When `b` comes with a valid signature and can be endorsed, it is
  -- staged, and an endorsement whose signature is that of the hash of `a`, by an endorser of the
  -- policy, is then taken and counted for `b`.
  pub received-reuses :
      (now : ℕ) (a b : Spore) (e : Endorsement) (policy : Policy) (pub_key : Bytes) (db : Db w)
      → LruLaws w.lru
      → a.uuid ≡ b.uuid
      → e.uuid ≡ b.uuid
      → verify_spore_signature b (with_hash now a db) ≡ ok tt
      → can_endorse now b (with_hash now a db) ≡ ok tt
      → lookup b.policy db.policies ≡ some policy
      → (policy.quorum == 0) ≡ false
      → pub_to_endorser (some policy) (own_public db) ≡ none
      → w.keys.get_public db.keyring (key_name e.emitter db) ≡ ok pub_key
      → is_some (pub_to_endorser (lookup b.policy db.policies) pub_key) ≡ true
      → w.keys.verify db.keyring (key_name e.emitter db) (hash_message w a) e.signature ≡ ok tt
      → (add_endorsement_map e
          (handle now (received b) (with_hash now a db)).0.staging
          (handle now (received b) (with_hash now a db)).0).1
        ≡ ok (record { armed = true; endorsements = e ∷ []; spore = b })
  unfolding run_task key_name
  received-reuses now a b e policy pub_key db laws same of_b signed can known some_quorum
        no_endorser has allowed valid =
      let cached : w.lru.get (with_hash now a db).cache b.uuid ≡ some (hash_message w a) =
        rw (sym same) (laws db.cache a.uuid (hash_message w a)) in
      rw
        (received-stages now b (with_hash now a db) policy signed can known some_quorum no_endorser)
        (staged-taken e b (hash_message w a) pub_key (with_hash now a db) of_b cached has allowed
          valid)
