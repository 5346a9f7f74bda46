-- ===== src/Db/Collect/Admit.antt =====
-- Which endorsements `addEndorsementMap` takes.
use sporedb.Common.{
  ◌≡◌, refl, true, false, ◌||◌, some, List, [], ◌∷◌, ◌++◌, Bytes, GoMap, lookup, bytes_eq,
  bytes_eq_comm, ok, arith, is_some,
}
use sporedb.Policy.{pub_to_endorser}
use sporedb.World.{World}
use sporedb.Db.{Db, Trigger, Endorsement, hash_spore}
use sporedb.Db.Collect.{has_endorsed, with_endorsement, key_name, add_endorsement_map}

-- No two of the endorsements are of one emitter.
abbrev pub IsDistinctEmitters : List Endorsement → Type 0
IsDistinctEmitters [] = Unit {0}
IsDistinctEmitters (e ∷ es) = (has_endorsed e.emitter es ≡ false) × IsDistinctEmitters es

has_endorsed-append :
    (a : Bytes) (es : List Endorsement) (e : Endorsement)
    → has_endorsed a (es ++ (e ∷ [])) ≡ (has_endorsed a es || bytes_eq a e.emitter)
unfolding has_endorsed
has_endorsed-append a [] e = ground arith
has_endorsed-append a (x ∷ es) e = ground (arith, has_endorsed-append a es e)

pub with_endorsement-IsDistinctEmitters :
    (e : Endorsement) (es : List Endorsement)
    → IsDistinctEmitters es
    → has_endorsed e.emitter es ≡ false
    → IsDistinctEmitters (es ++ (e ∷ []))
with_endorsement-IsDistinctEmitters e [] d h = (unfold has_endorsed in refl, tt)
with_endorsement-IsDistinctEmitters e (x ∷ es) d h =
    (first e x es d.0 h, with_endorsement-IsDistinctEmitters e es d.1 (later e x es h))
  where
    later :
        (e x : Endorsement) (es : List Endorsement)
        → has_endorsed e.emitter (x ∷ es) ≡ false
        → has_endorsed e.emitter es ≡ false
    later e x es h = unfold has_endorsed in ground arith

    first :
        (e x : Endorsement) (es : List Endorsement)
        → has_endorsed x.emitter es ≡ false
        → has_endorsed e.emitter (x ∷ es) ≡ false
        → has_endorsed x.emitter (es ++ (e ∷ [])) ≡ false
    first e x es a h =
        unfold has_endorsed in
        ground (arith, has_endorsed-append x.emitter es e, bytes_eq_comm x.emitter e.emitter)

module _ {w : World} where
  -- An endorsement that `addEndorsementMap` takes is of a spore in the map, of an emitter that had
  -- not endorsed it, whose public key is known and is that of an endorser of the spore's policy,
  -- and its signature is valid for what `HashSpore` answers; it is put behind the others.
  pub add_endorsement_map-ok :
      (e : Endorsement) (ma : GoMap Trigger) (db : Db w) (t' : Trigger)
      → (add_endorsement_map e ma db).1 ≡ ok t'
      → (t : Trigger) × (pub_key : Bytes) × (lookup e.uuid ma ≡ some t)
        × (t' ≡ with_endorsement e t)
        × (has_endorsed e.emitter t.endorsements ≡ false)
        × (w.keys.get_public db.keyring (key_name e.emitter db) ≡ ok pub_key)
        × (is_some (pub_to_endorser (lookup t.spore.policy db.policies) pub_key) ≡ true)
        × (w.keys.verify db.keyring (key_name e.emitter db) (hash_spore w t.spore db).1 e.signature
            ≡ ok tt)
  unfolding add_endorsement_map
  add_endorsement_map-ok e ma db t' h = ground arith

  -- Whatever its answer, nothing but the tasks changes.
  pub add_endorsement_map-frame :
      (e : Endorsement) (ma : GoMap Trigger) (db : Db w)
      → (add_endorsement_map e ma db).0
        ≡ record db { tasks = (add_endorsement_map e ma db).0.tasks }
  unfolding add_endorsement_map
  add_endorsement_map-frame e ma db = ground arith
