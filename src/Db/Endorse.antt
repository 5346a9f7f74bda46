-- ===== src/Db/Endorse.antt =====
-- db/endorsement.go, the way of a spore: it is submitted, its signature is verified, it is checked
-- against the state and the staging list, and it is staged, put aside, applied or refused.
pub mod Requirements
pub mod Staging
use sporedb.Common.{
  ℕ, ◌++◌, ◌==◌, Bool, true, false, not, Option, none, some, List, [], ◌∷◌, Bytes, bytes_eq, GoMap,
  lookup, insert, Result, ok, err, panic, stuck, ◌>>=◌, ◌>>◌, length, add64, if◌then◌else◌, Error,
  deadline_expired, conflicting_with_staging,
}
use sporedb.Version
use sporedb.Version.{Version}
use sporedb.Operations.{Value, new_value}
use sporedb.Operation.{Operation, exec}
use sporedb.Spore.{Spore, check_deadline, spores_conflict}
use sporedb.Policy.{Policy, pub_to_endorser, Endorser}
use sporedb.World.{World, Reply}
use sporedb.Db.{
  Db, Call, Trigger, Endorsement, endorsement_message, spore_message, hash_message, hash_spore,
}
use sporedb.Db.Usage.{check, check_current_policy_usage}
use sporedb.Db.Apply.{Working, apply}

-- The loop of `checkConflictWithStaging`
unfoldable pub check_conflict_with : Spore → GoMap Trigger → Result (Unit {0})
check_conflict_with s [] = ok tt
check_conflict_with s ((_, t) ∷ staging) =
    let rest = check_conflict_with s staging in
    elim (spores_conflict s t.spore) [
      | ok _ ↦ rest
      | err _ ↦ err conflicting_with_staging
      | panic ↦ panic
      | stuck ↦ stuck
    ]

-- `err == ErrConflictingWithStaging`
abbrev pub is_staging_conflict : Error → Bool
is_staging_conflict conflicting_with_staging = true
is_staging_conflict _ = false

module _ {w : World} where
  -- The loop over the requirements: `none` if it runs to its end, otherwise what it returns. On a
  -- version that does not match it returns `err`, which is nil there.
  unfoldable pub check_requirements : GoMap Version → Db w → Option (Result (Unit {0}))
  check_requirements [] db = none
  check_requirements ((k, v) ∷ rs) db =
      let r = w.store.get db.store k in
      elim r.failed [
        | some e ↦ some (err e)
        | none ↦ elim (Version.matches r.version v) [
          | ok _ ↦ check_requirements rs db
          | err _ ↦ some (ok tt)
          | panic ↦ some panic
          | stuck ↦ some stuck
        ]
      ]

  -- `v, ok := values[op.Key]`; here a failure to read is not looked at.
  unfoldable pub load_unchecked : Bytes → Working w → Db w → Working w × Value w.F
  load_unchecked key (old_size, values) db = elim (lookup key values) [
    | some v ↦ ((old_size, values), v)
    | none ↦
        let d = (w.store.get db.store key).value in
        ((add64 old_size (length d), insert key (new_value d) values), new_value d)
  ]

  -- The loop over the operations, which runs each and holds it against the policy.
  unfoldable pub simulate : Bytes → List Operation → Working w → Db w → Result (Working w)
  unfolding load_unchecked
  simulate policy [] work db = ok work
  simulate policy (op ∷ ops) work db = do
    let ((old_size, values), v) = load_unchecked op.key work db
    v' ← exec w.floats op v
    check policy op v' db
    simulate policy ops (old_size, insert op.key v' values) db

  -- `CanEndorse` after the requirements
  unfoldable pub check_operations : Spore → Db w → Result (Unit {0})
  unfolding simulate check_conflict_with
  check_operations s db = do
    (old_size, values) ← simulate s.policy s.operations (0, []) db
    check_current_policy_usage old_size s.policy values db
    check_conflict_with s db.staging

  -- `CanEndorse`; `now` is the second of the call.
  unfoldable pub can_endorse : ℕ → Spore → Db w → Result (Unit {0})
  unfolding check_requirements check_operations
  can_endorse now s db =
      if not (check_deadline now s)
      then err deadline_expired
      else elim (check_requirements s.requirements db) [ some r ↦ r | none ↦ check_operations s db ]

  -- `VerifySporeSignature`: the spore's own emitter is known to the key ring by the empty name.
  unfoldable pub verify_spore_signature : Spore → Db w → Result (Unit {0})
  unfolding hash_message
  verify_spore_signature s db =
      w.keys.verify db.keyring (if bytes_eq s.emitter db.identity then [] else s.emitter)
        (hash_message w (record s { signature = [] })) s.signature

  -- The spore goes to the staging list, with the endorsements that it begins with.
  unfoldable pub stage : Spore → List Endorsement → Db w → Db w
  stage s endorsements db = record db {
    staging =
        insert s.uuid (record { armed = true; endorsements = endorsements; spore = s }) db.staging;
  }

  -- What `executeEndorsement` does for a node that is an endorser. `Apply`'s error is dropped; a
  -- panic is not.
  unfoldable pub endorse_own : ℕ → Spore → Policy → Db w → Call w (Unit {0})
  unfolding hash_spore stage
  endorse_own now s policy db =
      let (db1, h) = hash_spore w s db in
      elim (w.keys.sign db1.keyring h) [
        | ok signature ↦
            let e : Endorsement = record {
              emitter = db1.identity;
              uuid = s.uuid;
              signature = signature;
            } in
            let db2 = record db1 { messages = db1.messages ++ (endorsement_message e ∷ []) } in
            if policy.quorum == 1 then apply now s db2 else (stage s (e ∷ []) db2, ok tt)
        | err _ ↦ (db1, ok tt)
        | panic ↦ (db1, panic)
        | stuck ↦ (db1, stuck)
      ]

  -- An error of a call whose result is dropped.
  abbrev pub drop_error : Call w (Unit {0}) → Call w (Unit {0})
  drop_error (db, ok u) = (db, ok u)
  drop_error (db, err e) = (db, ok tt)
  drop_error (db, panic) = (db, panic)
  drop_error (db, stuck) = (db, stuck)

  -- `pub, _, _ := db.KeyRing.GetPublic("")`
  abbrev pub own_public : Db w → Bytes
  own_public db = elim (w.keys.get_public db.keyring []) [
    | ok p ↦ p
    | err _ ↦ []
    | panic ↦ []
    | stuck ↦ []
  ]

  -- `executeEndorsement`; a missing policy is a nil pointer.
  unfoldable pub execute_endorsement : ℕ → Spore → Db w → Call w (Unit {0})
  unfolding endorse_own
  execute_endorsement now s db = elim (lookup s.policy db.policies) [
    | none ↦ (db, panic)
    | some policy ↦
        if policy.quorum == 0
        then drop_error (apply now s db)
        else elim (pub_to_endorser (some policy) (own_public db)) [
          | none ↦ (stage s [] db, ok tt)
          | some _ ↦ drop_error (endorse_own now s policy db)
        ]
  ]

  -- The spore goes to the waiting list.
  unfoldable pub put_aside : Spore → Db w → Db w
  put_aside s db = record db {
    waiting = insert s.uuid (record { armed = false; endorsements = []; spore = s }) db.waiting;
  }

  -- What `Endorse` does with the answer of `CanEndorse`.
  unfoldable pub endorse_answer : ℕ → Spore → Result (Unit {0}) → Db w → Call w (Unit {0})
  unfolding put_aside
  endorse_answer now s (ok _) db = execute_endorsement now s db
  endorse_answer now s (err e) db =
      if is_staging_conflict e then (put_aside s db, ok tt) else (db, err e)
  endorse_answer now s panic db = (db, panic)
  endorse_answer now s stuck db = (db, stuck)

  -- `Endorse`
  unfoldable pub endorse : ℕ → Spore → Db w → Call w (Unit {0})
  unfolding endorse_answer
  endorse now s db = elim (verify_spore_signature s db) [
    | ok _ ↦ endorse_answer now s (can_endorse now s db) db
    | err e ↦ (db, err e)
    | panic ↦ (db, panic)
    | stuck ↦ (db, stuck)
  ]

  -- `Submit`: the spore that is sent and endorsed is signed by this node.
  unfoldable pub submit : ℕ → Spore → Db w → Call w (Unit {0})
  submit now s db =
      let s1 = record s { emitter = db.identity; signature = [] } in
      elim (w.keys.sign db.keyring (hash_message w s1)) [
        | ok signature ↦
            let s2 = record s1 { signature = signature } in
            endorse now s2 (record db { messages = db.messages ++ (spore_message s2 ∷ []) })
        | err e ↦ (db, err e)
        | panic ↦ (db, panic)
        | stuck ↦ (db, stuck)
      ]
