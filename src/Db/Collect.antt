-- ===== src/Db/Collect.antt =====
-- db/endorsement.go, the way of an endorsement: it is held against the spore that it names, in the
-- staging list or in the waiting list, and a spore with enough of them is sent to be applied.
pub mod Admit
pub mod Replay
pub mod Settle
use sporedb.Common.{
  ℕ, ◌++◌, Bool, true, false, not, Option, none, some, List, [], ◌∷◌, Bytes, bytes_eq, GoMap,
  lookup, insert, erase, Result, ok, err, panic, stuck, length, leb, any, is_some, if◌then◌else◌,
  Error, no_related_spore, duplicated_endorsement, unallowed_endorser,
}
use sporedb.Spore.{Spore}
use sporedb.Policy.{Policy, pub_to_endorser}
use sporedb.World.{World}
use sporedb.Db.{Db, Call, Trigger, Endorsement, Task, apply_task, hash_spore}

-- Has the emitter endorsed the spore before?
unfoldable pub has_endorsed : Bytes → List Endorsement → Bool
has_endorsed emitter es = any (λ e2. bytes_eq emitter e2.emitter) es

-- `trigger.endorsements = append(trigger.endorsements, e)`
unfoldable pub with_endorsement : Endorsement → Trigger → Trigger
with_endorsement e t = record t { endorsements = t.endorsements ++ (e ∷ []) }

-- `err == ErrNoRelatedSpore`
abbrev pub is_no_related_spore : Error → Bool
is_no_related_spore no_related_spore = true
is_no_related_spore _ = false

module _ {w : World} where
  -- The name by which the key ring knows the emitter.
  unfoldable pub key_name : Bytes → Db w → Bytes
  key_name emitter db = if bytes_eq emitter db.identity then [] else emitter

  -- The checks of `addEndorsementMap` on a spore that is known, the last of which may start a task.
  unfoldable pub check_endorsement : Endorsement → Trigger → Db w → Call w (Unit {0})
  unfolding has_endorsed key_name hash_spore
  check_endorsement e t db =
      if has_endorsed e.emitter t.endorsements
      then (db, err duplicated_endorsement)
      else elim (w.keys.get_public db.keyring (key_name e.emitter db)) [
        | ok pub_key ↦
            if is_some (pub_to_endorser (lookup t.spore.policy db.policies) pub_key)
            then (let (db1, h) = hash_spore w t.spore db in
                (db1, w.keys.verify db1.keyring (key_name e.emitter db1) h e.signature))
            else (db, err unallowed_endorser)
        | err x ↦ (db, err x)
        | panic ↦ (db, panic)
        | stuck ↦ (db, stuck)
      ]

  -- `addEndorsementMap`: the trigger with the endorsement. The caller puts it into the map.
  unfoldable pub add_endorsement_map : Endorsement → GoMap Trigger → Db w → Call w Trigger
  unfolding check_endorsement with_endorsement
  add_endorsement_map e ma db = elim (lookup e.uuid ma) [
    | none ↦ (db, err no_related_spore)
    | some t ↦
        let (db1, r) = check_endorsement e t db in
        elim r [
          | ok _ ↦ (db1, ok (with_endorsement e t))
          | err x ↦ (db1, err x)
          | panic ↦ (db1, panic)
          | stuck ↦ (db1, stuck)
        ]
  ]

  -- A spore that the staging list keeps or gives up: with a quorum of endorsements its timer is
  -- stopped, it is taken off, and `Apply` is started.
  unfoldable pub settle : Bytes → Trigger → Db w → Call w (Unit {0})
  settle uuid t db = elim (lookup t.spore.policy db.policies) [
    | none ↦ (db, panic)
    | some policy ↦
        if leb policy.quorum (length t.endorsements)
        then (
          record db {
            staging = erase t.spore.uuid (insert uuid (record t { armed = false }) db.staging);
            tasks = db.tasks ++ (apply_task t.spore ∷ []);
          },
          ok tt,
        )
        else (record db { staging = insert uuid t db.staging }, ok tt)
  ]

  -- The second try of `AddEndorsement`, on the waiting list.
  unfoldable pub add_waiting : Endorsement → Db w → Call w (Unit {0})
  add_waiting e db =
      let (db1, r) = add_endorsement_map e db.waiting db in
      elim r [
        | ok t ↦ (record db1 { waiting = insert e.uuid t db1.waiting }, ok tt)
        | err x ↦ (db1, err x)
        | panic ↦ (db1, panic)
        | stuck ↦ (db1, stuck)
      ]

  -- `AddEndorsement`
  unfoldable pub add_endorsement : Endorsement → Db w → Call w (Unit {0})
  add_endorsement e db =
      let (db1, r) = add_endorsement_map e db.staging db in
      elim r [
        | ok t ↦ settle e.uuid t db1
        | err x ↦ if is_no_related_spore x then add_waiting e db1 else (db1, err x)
        | panic ↦ (db1, panic)
        | stuck ↦ (db1, stuck)
      ]
