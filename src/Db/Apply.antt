-- ===== src/Db/Apply.antt =====
-- `Apply` of db/db.go: the operations of a spore are run on the stored values, and what they leave
-- is written in one batch.
pub mod Atomic
pub mod Refine
use sporedb.Common.{
  ℕ, ◌&&◌, Bool, true, false, not, Option, none, some, List, [], ◌∷◌, Bytes, GoMap, lookup, insert,
  Result, ok, err, panic, stuck, ◌>>=◌, length, add64, if◌then◌else◌, grace_period_expired,
  duplicated_application, is_some, Error,
}
use sporedb.Version
use sporedb.Version.{Version, nil, no_version, hashed}
use sporedb.Operations.{Value, new_value}
use sporedb.Operation.{Operation, exec}
use sporedb.Spore.{Spore, check_grace_period}
use sporedb.Policy.{Policy}
use sporedb.World.{World, Reply, Write}
use sporedb.Db.{Db, Call}
use sporedb.Db.Usage.{update_policy_usage, size_of}

-- `v != version.NoVersion`
abbrev pub is_no_version : Version → Bool
is_no_version nil = false
is_no_version no_version = true
is_no_version (hashed h) = false

-- What the loops over a spore's operations carry: the size of the values read, and the values.
abbrev pub Working : World → Type 0
Working w = ℕ × GoMap (Value w.F)

-- The value that is read anew, if the reply is no failure.
unfoldable pub read_value :
    {F : Type 0} → Bytes → ℕ → GoMap (Value F) → Reply → Result ((ℕ × GoMap (Value F)) × Value F)
read_value key old_size values r =
    if is_some r.failed && not (is_no_version r.version)
    then elim r.failed [ none ↦ panic | some e ↦ err e ]
    else ok (
      (add64 old_size (length r.value), insert key (new_value r.value) values),
      new_value r.value,
    )

-- The batch of the values, over the hash that makes their versions.
unfoldable pub value_writes : {F : Type 0} → (Bytes → Bytes) → GoMap (Value F) → List Write
value_writes sha512 [] = []
value_writes sha512 ((k, v) ∷ values) =
    record { key = k; value = v.raw; version = Version.new sha512 v.raw }
    ∷ value_writes sha512 values

module _ {w : World} where
  -- `value, ok := values[op.Key]`, with the read on a missing key
  unfoldable pub load_value : Bytes → Working w → Db w → Result (Working w × Value w.F)
  unfolding read_value
  load_value key (old_size, values) db = elim (lookup key values) [
    | some v ↦ ok ((old_size, values), v)
    | none ↦ read_value key old_size values (w.store.get db.store key)
  ]

  -- The loop over the operations. A value is shared with the map, so what an operation makes of
  -- it stands there.
  unfoldable pub run_operations : List Operation → Working w → Db w → Result (Working w)
  unfolding load_value
  run_operations [] work db = ok work
  run_operations (op ∷ ops) work db = do
    ((old_size, values), v) ← load_value op.key work db
    v' ← exec w.floats op v
    run_operations ops (old_size, insert op.key v' values) db

  -- The batch is written, and the spore's death is noted.
  unfoldable pub commit : Spore → ℕ → List Write → Db w → Call w (Unit {0})
  commit s death writes db = elim (w.store.set_batch db.store writes) [
    | ok store' ↦ (record db { store = store'; applied = insert s.uuid death db.applied }, ok tt)
    | err e ↦ (db, err e)
    | panic ↦ (db, panic)
    | stuck ↦ (db, stuck)
  ]

  -- What is written for a spore that may be applied: the policy's usage, which has no version, and
  -- the values.
  unfoldable pub batch_of : Spore → Db w → Result (List Write)
  unfolding run_operations value_writes
  batch_of s db = do
    (old_size, values) ← run_operations s.operations (0, []) db
    (key, value) ← update_policy_usage old_size (size_of values) s.policy db
    ok (record { key = key; value = value; version = nil } ∷ value_writes w.sha512 values)

  -- `Apply`; `now` is the second of the call. A missing policy is a nil pointer.
  unfoldable pub apply : ℕ → Spore → Db w → Call w (Unit {0})
  unfolding batch_of commit
  apply now s db = elim (lookup s.policy db.policies) [
    | none ↦ (db, panic)
    | some policy ↦
        let (alive, death) = check_grace_period now policy.grace_period s in
        if not alive
        then (db, err grace_period_expired)
        else if is_some (lookup s.uuid db.applied)
        then (db, err duplicated_application)
        else elim (batch_of s db) [
          | ok writes ↦ commit s death writes db
          | err e ↦ (db, err e)
          | panic ↦ (db, panic)
          | stuck ↦ (db, stuck)
        ]
  ]
