-- ===== src/Db.antt =====
-- db/db.go: the state of a node's database, and the functions that the parts of it share.
pub mod Server
pub mod Client
pub mod Usage
pub mod Apply
pub mod Endorse
pub mod Collect
pub mod Upkeep
use sporedb.Common.{
  ℕ, Bool, true, false, Option, none, some, List, [], ◌∷◌, ◌++◌, Bytes, GoMap, lookup, insert,
  Result, ok, err, panic, stuck, length, ◌==◌,
}
use sporedb.Spore.{Spore}
use sporedb.Policy.{Policy, compile_regexes}
use sporedb.World.{World, Reply}

-- db/endorsement.proto
pub record Endorsement : Type 0 where
  pub emitter : Bytes
  pub uuid : Bytes
  pub signature : Bytes

-- `dbTrigger`: a spore that waits, the endorsements that it has, and whether its timer runs.
pub record Trigger : Type 0 where
  pub armed : Bool
  pub endorsements : List Endorsement
  pub spore : Spore

-- What the database puts on its channel `Messages`.
pub data Message : Type 0 where
  spore_message : Spore → Message
  endorsement_message : Endorsement → Message

-- What a `go` statement has started and not run yet.
pub data Task : Type 0 where
  apply_task : Spore → Task
  cache_task : Bytes → Bytes → Task

-- `DB`, with the messages sent and the tasks started, oldest first. `applied` has the second of
-- each spore's death.
pub record Db (w : World) : Type 0 where
  pub store : w.S
  pub identity : Bytes
  pub keyring : w.K
  pub messages : List Message
  pub policies : GoMap Policy
  pub policies_reg : GoMap (List w.R)
  pub waiting : GoMap Trigger
  pub staging : GoMap Trigger
  pub applied : GoMap ℕ
  pub cache : w.C
  pub tasks : List Task

-- A method returns the database after it, and what it returns.
abbrev pub Call : World → Type 0 → Type 0
Call w A = Db w × Result A

module _ (w : World) where
  -- `NewDB`
  unfoldable pub new_db : w.S → Bytes → w.K → Db w
  new_db s identity keyring = record {
    store = s;
    identity = identity;
    keyring = keyring;
    messages = [];
    policies = [];
    policies_reg = [];
    waiting = [];
    staging = [];
    applied = [];
    cache = w.lru.new;
    tasks = [];
  }

  -- `AddPolicy`
  unfoldable pub add_policy : Policy → Db w → Call w (Unit {0})
  add_policy p db = elim (compile_regexes w.regexp p.specs) [
    | ok rs ↦ (
      record db {
        policies = insert p.uuid p db.policies;
        policies_reg = insert p.uuid rs db.policies_reg;
      },
      ok tt,
    )
    | err e ↦ (db, err e)
    | panic ↦ (db, panic)
    | stuck ↦ (db, stuck)
  ]

  -- `DB.Get`
  unfoldable pub get : Bytes → Db w → Reply
  get key db = w.store.get db.store key

  -- `hashMessage`, on a spore
  unfoldable pub hash_message : Spore → Bytes
  hash_message s = w.sha512 (w.marshal_spore s)

  -- `HashSpore`: the cached hash of a spore with this identifier, or the hash of this one, which a
  -- task will put into the cache.
  unfoldable pub hash_spore : Spore → Db w → Db w × Bytes
  unfolding hash_message
  hash_spore s db = elim (w.lru.get db.cache s.uuid) [
    | some h ↦ (db, h)
    | none ↦ (
      record db { tasks = db.tasks ++ (cache_task s.uuid (hash_message s) ∷ []) },
      hash_message s,
    )
  ]
