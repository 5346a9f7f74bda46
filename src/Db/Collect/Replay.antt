-- ===== src/Db/Collect/Replay.antt =====
-- An endorsement without an emitter is held against the node's own key.
use sporedb.Common.{
  ◌≡◌, refl, true, false, some, [], Bytes, bytes_eq_iff, lookup, is_some, ok, err, arith,
  duplicated_endorsement,
}
use sporedb.Policy.{pub_to_endorser}
use sporedb.World.{World}
use sporedb.Db.{Db, Trigger, Endorsement, hash_spore}
use sporedb.Db.Collect.{
  has_endorsed, with_endorsement, key_name, check_endorsement, add_endorsement_map,
}

-- The same endorsement, without its emitter
abbrev pub anonymous : Endorsement → Endorsement
anonymous e = record e { emitter = [] }

module _ {w : World} where
  key_name-empty : (db : Db w) → key_name [] db ≡ []
  unfolding key_name
  key_name-empty db = ground arith

  key_name-own : (e : Bytes) (db : Db w) → e ≡ db.identity → key_name e db ≡ []
  unfolding key_name
  key_name-own e db own = ground (arith, bytes_eq_iff e db.identity)

  check_endorsement-duplicated :
      (e : Endorsement) (t : Trigger) (db : Db w)
      → has_endorsed e.emitter t.endorsements ≡ true
      → (check_endorsement e t db).1 ≡ err duplicated_endorsement
  unfolding check_endorsement
  check_endorsement-duplicated e t db h = rw (h, check_endorsement) refl

  check_endorsement-anonymous :
      (e : Endorsement) (t : Trigger) (db : Db w) (own : Bytes)
      → has_endorsed [] t.endorsements ≡ false
      → w.keys.get_public db.keyring [] ≡ ok own
      → is_some (pub_to_endorser (lookup t.spore.policy db.policies) own) ≡ true
      → w.keys.verify db.keyring [] (hash_spore w t.spore db).1 e.signature ≡ ok tt
      → (check_endorsement (anonymous e) t db).1 ≡ ok tt
  unfolding check_endorsement
  check_endorsement-anonymous e t db own new has allowed valid = ground (arith, key_name-empty db)

  -- A node that is an endorser of a staged spore and holds its own, valid endorsement of it, and
  -- none without an emitter: the same endorsement is a duplicate, but a copy without the emitter,
  -- which anyone can make, is taken and counted beside it, under the same key.
  pub anonymous-counted_twice :
      (e : Endorsement) (t : Trigger) (db : Db w) (own : Bytes)
      → lookup e.uuid db.staging ≡ some t
      → e.emitter ≡ db.identity
      → has_endorsed e.emitter t.endorsements ≡ true
      → has_endorsed [] t.endorsements ≡ false
      → w.keys.get_public db.keyring [] ≡ ok own
      → is_some (pub_to_endorser (lookup t.spore.policy db.policies) own) ≡ true
      → w.keys.verify db.keyring [] (hash_spore w t.spore db).1 e.signature ≡ ok tt
      → ((add_endorsement_map e db.staging db).1 ≡ err duplicated_endorsement)
        × ((add_endorsement_map (anonymous e) db.staging db).1
            ≡ ok (with_endorsement (anonymous e) t))
        × (key_name (anonymous e).emitter db ≡ key_name e.emitter db)
  unfolding add_endorsement_map
  anonymous-counted_twice e t db own staged mine counted none_anonymous has allowed valid = ground (
    arith,
    check_endorsement-duplicated e t db counted,
    check_endorsement-anonymous e t db own none_anonymous has allowed valid,
    key_name-empty db,
    key_name-own e.emitter db mine,
  )
