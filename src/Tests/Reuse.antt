-- ===== src/Tests/Reuse.antt =====
-- Two spores of one identifier, at small inputs.
use sporedb.Common.{
  ◌≡◌, ◌++◌, ◌≢◌, refl, true, List, [], ◌∷◌, Bytes, codes, insert, lookup, bytes_eq, bytes_eq_refl,
  bytes_eq_iff, lookup-insert, arith, ok,
}
use sporedb.Operation.{Operation}
use sporedb.Spore.{Spore}
use sporedb.World.{World}
use sporedb.Db.{Db, Endorsement, hash_message}
use sporedb.Db.Collect.{add_endorsement_map}
use sporedb.Db.Upkeep.{received, handle}
use sporedb.Db.Upkeep.Reuse.{LruLaws, with_hash, received-reuses}
use sporedb.Tests.{demo, sum, endorsement, fill}
use sporedb.Tests.Quorums.{made, blank}

-- The first key of the operations
abbrev first_key : List Operation → Bytes
first_key [] = []
first_key (o ∷ _) = o.key

-- A world in which the hash of a spore depends on its operations
abbrev telling : World
telling = record demo { marshal_spore = λ s. s.uuid ++ first_key s.operations }

-- A node that is not an endorser of its policy
abbrev watcher : Db telling
watcher = record {
  store = [];
  identity = codes "me";
  keyring = tt;
  messages = [];
  policies = (codes "p", made) ∷ [];
  policies_reg = [];
  waiting = [];
  staging = [];
  applied = [];
  cache = [];
  tasks = [];
}

-- An endorsement of `sum`
abbrev of_sum : Endorsement
of_sum = record (endorsement (codes "x") (codes "s")) { signature = codes "sk" }

telling-LruLaws : LruLaws telling.lru
telling-LruLaws c key value = ground (arith, lookup-insert key key value c, bytes_eq_refl key)

-- The two spores have different hashes.
sum-blank : hash_message telling sum ≢ hash_message telling blank
unfolding hash_message fill
sum-blank same =
    ground (arith, bytes_eq_iff (hash_message telling sum) (hash_message telling blank), same)

received-reuses_example :
    (add_endorsement_map of_sum
      (handle 100 (received blank) (with_hash 100 sum watcher)).0.staging
      (handle 100 (received blank) (with_hash 100 sum watcher)).0).1
    ≡ ok (record { armed = true; endorsements = of_sum ∷ []; spore = blank })
unfolding sporedb.Db.Upkeep.run_task lookup insert bytes_eq fill
    sporedb.Db.Endorse.verify_spore_signature hash_message sporedb.Db.Endorse.can_endorse
    sporedb.Spore.check_deadline sporedb.Db.Usage.check_current_policy_usage
    sporedb.Operations.value_float sporedb.Operations.new_value
    sporedb.Encoding.Float.unmarshal_binary sporedb.BoltDb.get sporedb.Tests.bucket_get
    sporedb.Policy.pub_to_endorser sporedb.Db.Collect.key_name
received-reuses_example =
    received-reuses 100 sum blank of_sum made (codes "x") watcher telling-LruLaws refl refl refl
      refl refl refl refl refl refl refl
