-- ===== src/Tests/Nodes.antt =====
-- Calls and events of a node at small inputs.
use sporedb.Common.{
  ℕ, List, ◌≡◌, ◌++◌, refl, arith, true, [], ◌∷◌, codes, bytes_eq, bytes_eq_iff, lookup, insert, ok,
  some, version_mismatch,
}
use sporedb.Version.{Version, hashed, no_version}
use sporedb.Operation.{Operation, op_add}
use sporedb.Spore.{Spore, spores_conflict, check_deadline}
use sporedb.Policy.{pub_to_endorser}
use sporedb.Db.{Db, Trigger, Endorsement, Task, hash_spore}
use sporedb.Db.Apply.{apply}
use sporedb.Db.Endorse.{can_endorse, endorse}
use sporedb.Db.Endorse.Requirements.{can_endorse-behind}
use sporedb.Db.Endorse.Staging.{IsConflictFree, endorse-IsConflictFree}
use sporedb.Db.Collect.{with_endorsement, has_endorsed, key_name, add_endorsement_map}
use sporedb.Db.Collect.Settle.{Sends, add_endorsement-Sends}
use sporedb.Db.Endorse.{drop_error}
use sporedb.Db.Upkeep.Progress.{IsGood, receive_all, quorum-applies}
use sporedb.Db.Upkeep.{scheduled, handle, clean}
use sporedb.Db.Upkeep.Clean.{apply-clean-apply}
use sporedb.Db.Upkeep.Emitters.{IsEndorsedOnce}
use sporedb.Tests.{demo, two_of, spore, sum, node, op, endorsement, fill, bucket_get}

-- `sum` with one endorsement, staged.
abbrev half : Trigger
half = record { armed = true; endorsements = endorsement (codes "x") (codes "s") ∷ []; spore = sum }

abbrev holding : Db demo
holding = node (two_of ∷ []) ((codes "s", half) ∷ []) []

abbrev second : Endorsement
second = endorsement (codes "y") (codes "s")

second_taken :
    (add_endorsement_map second holding.staging holding).1 ≡ ok (with_endorsement second half)
unfolding add_endorsement_map lookup bytes_eq pub_to_endorser sporedb.Tests.fill
second_taken = refl

add_endorsement-Sends_example : Sends second holding
add_endorsement-Sends_example = add_endorsement-Sends second holding

second-IsGood : IsGood holding sum second
unfolding pub_to_endorser bytes_eq lookup fill key_name hash_spore
second-IsGood = record {
  names = refl;
  pub_key = codes "y";
  has_key = refl;
  allowed = refl;
  signed = refl;
}

quorum-applies_example :
    (i : ℕ) × (rest : List Task) × (handle 200 (scheduled i) (receive_all 100 (second ∷ []) holding)
      ≡ drop_error
          (apply 200 sum (record (receive_all 100 (second ∷ []) holding) { tasks = rest })))
unfolding lookup bytes_eq has_endorsed
quorum-applies_example =
    quorum-applies 100 200 (second ∷ []) half two_of holding refl refl (second-IsGood, tt)
      (refl, (refl, tt)) (omega arith) (omega arith)

-- A spore of another key.
abbrev other : Spore
other = spore (codes "t") (op op_add (codes "j") (9 ∷ []) ∷ [])

-- A store that has the key `k`, and a spore that requires an older version of it.
abbrev stored : Db demo
stored = record holding { store = (codes "k", fill 64 (5 ∷ []) ++ (5 ∷ [])) ∷ [] }

abbrev behind : Spore
behind = record other { requirements = (codes "k", hashed (4 ∷ [])) ∷ [] }

can_endorse-behind_example : can_endorse 100 behind stored ≡ ok tt
unfolding check_deadline lookup bytes_eq sporedb.Version.matches sporedb.BoltDb.get bucket_get fill
    sporedb.Version.unmarshal_binary
can_endorse-behind_example =
    can_endorse-behind 100 behind stored [] [] (codes "k") (hashed (4 ∷ [])) version_mismatch refl
      refl tt refl refl

holding-IsConflictFree : IsConflictFree holding.staging
unfolding lookup
holding-IsConflictFree k1 k2 t1 t2 e1 e2 ne =
    ground (arith, bytes_eq_iff (codes "s") k1, bytes_eq_iff (codes "s") k2)

endorse-IsConflictFree_example : IsConflictFree (endorse 100 other holding).0.staging
endorse-IsConflictFree_example = endorse-IsConflictFree 100 other holding tt holding-IsConflictFree

holding-IsEndorsedOnce : IsEndorsedOnce holding
unfolding has_endorsed
holding-IsEndorsedOnce = record { staged = ((refl, tt), tt); waits = tt }

-- A node that has applied two spores, one of which dies at 500.
abbrev done : Db demo
done = node (two_of ∷ []) [] ((codes "s", 500) ∷ ((codes "t", 0) ∷ []))

-- A spore that dies at 500.
abbrev dated : Spore
dated = record sum { deadline = some (record { seconds = 500; nanos = 0 }) }

abbrev fresh : Db demo
fresh = node (two_of ∷ []) [] []

apply-clean-apply_example : (apply 400 dated (clean 300 (apply 200 dated fresh).0)).1 ≡ ok tt
unfolding apply lookup bytes_eq sporedb.Spore.check_grace_period sporedb.Operation.exec
    sporedb.Operations.new_value sporedb.Encoding.Float.unmarshal_binary insert
    sporedb.Operations.sadd sporedb.Encoding.Set.unmarshal_binary sporedb.Encoding.Set.add
    sporedb.Db.Usage.update_policy_usage clean sporedb.Encoding.Set.marshal_binary
    sporedb.Encoding.Uint64.uint64_to_bytes sporedb.Encoding.Uint64.bytes_to_uint64
    sporedb.BoltDb.get bucket_get sporedb.BoltDb.set_batch sporedb.Version.marshal_binary
    sporedb.Tests.bucket_put sporedb.Version.new fill
apply-clean-apply_example =
    apply-clean-apply 200 300 400 dated fresh _ _ 500 tt refl refl refl refl refl refl refl
