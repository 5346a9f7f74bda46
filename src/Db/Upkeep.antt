-- ===== src/Db/Upkeep.antt =====
-- db/db.go, what `Start` runs beside the calls: the collector of expired spores, the cleaning of
-- the list of applied spores, and the tasks that the calls have started; and all of them together
-- as the events of a node.
pub mod Clean
pub mod Emitters
pub mod Endorsers
pub mod Progress
pub mod Reuse
pub mod Triggers
use sporedb.Common.{
  ℕ, zero, suc, ◌++◌, ◌&&◌, Bool, true, false, Option, none, some, List, [], ◌∷◌, Bytes, GoMap,
  erase, int_ltb, Result, ok, err, panic, stuck, if◌then◌else◌, Error, deadline_expired, ◌≡◌,
}
use sporedb.Spore.{Spore}
use sporedb.World.{World, Write}
use sporedb.Db.{Db, Call, Trigger, Endorsement, Task, apply_task, cache_task}
use sporedb.Db.Apply.{apply}
use sporedb.Db.Endorse.{can_endorse, execute_endorsement, endorse, submit, drop_error}
use sporedb.Db.Collect.{add_endorsement}

-- The test of `Clean` on the second of a spore's death; `now` is a second, and a death that is
-- later than a time within that second is later than the second.
unfoldable pub is_cleaned : ℕ → ℕ → Bool
is_cleaned now death = int_ltb 0 death && int_ltb now death

unfoldable pub clean_map : ℕ → GoMap ℕ → GoMap ℕ
unfolding is_cleaned
clean_map now [] = []
clean_map now ((uuid, death) ∷ m) =
    let rest = clean_map now m in if is_cleaned now death then rest else (uuid, death) ∷ rest

-- `err == ErrDeadlineExpired`
abbrev pub is_deadline_expired : Error → Bool
is_deadline_expired deadline_expired = true
is_deadline_expired _ = false

module _ {w : World} where
  -- `Clean`
  unfoldable pub clean : ℕ → Db w → Db w
  unfolding clean_map
  clean now db = record db { applied = clean_map now db.applied }

  unfoldable pub drop_waiting : Bytes → Db w → Db w
  drop_waiting k db = record db { waiting = erase k db.waiting }

  -- One round over a waiting spore: it is promoted, dropped or kept.
  unfoldable pub retry : ℕ → Bytes → Spore → Db w → Call w (Unit {0})
  unfolding drop_waiting
  retry now k s db = elim (can_endorse now s db) [
    | ok _ ↦
        let (db1, r) = execute_endorsement now s db in
        elim r [
          | ok _ ↦ (drop_waiting k db1, ok tt)
          | err e ↦ (drop_waiting k db1, ok tt)
          | panic ↦ (db1, panic)
          | stuck ↦ (db1, stuck)
        ]
    | err e ↦ if is_deadline_expired e then (drop_waiting k db, ok tt) else (db, ok tt)
    | panic ↦ (db, panic)
    | stuck ↦ (db, stuck)
  ]

  -- The loop over the waiting list, as it was when the loop began: only the entry at hand is taken
  -- off in a round.
  unfoldable pub retry_all : ℕ → GoMap Trigger → Db w → Call w (Unit {0})
  unfolding retry
  retry_all now [] db = (db, ok tt)
  retry_all now ((k, t) ∷ m) db =
      let (db1, r) = retry now k t.spore db in
      elim r [
        | ok _ ↦ retry_all now m db1
        | err e ↦ (db1, err e)
        | panic ↦ (db1, panic)
        | stuck ↦ (db1, stuck)
      ]

  -- A spore that its timer has sent to `gc`.
  unfoldable pub collect : ℕ → Spore → Db w → Call w (Unit {0})
  unfolding retry_all
  collect now s db =
      let db1 = record db { staging = erase s.uuid db.staging } in retry_all now db1.waiting db1

  unfoldable pub run_task : ℕ → Task → Db w → Call w (Unit {0})
  run_task now (apply_task s) db = drop_error (apply now s db)
  run_task now (cache_task uuid h) db = (record db { cache = w.lru.add db.cache uuid h }, ok tt)

-- The tasks without the one at an index, and that one.
unfoldable pub take_task : ℕ → List Task → Option (Task × List Task)
take_task i [] = none
take_task zero (t ∷ ts) = some (t, ts)
take_task (suc i) (t ∷ ts) = elim (take_task i ts) [ none ↦ none | some (u, us) ↦ some (u, t ∷ us) ]

-- What can happen to a node, each at a second of the clock: a call from outside, a timer, the
-- ticker, or the run of a task.
pub data Event : Type 0 where
  submitted received : Spore → Event
  endorsed : Endorsement → Event
  expired : Spore → Event
  ticked : Event
  scheduled : ℕ → Event
  -- a value that `handleRaw` has taken from the peers
  recovered : Write → Event

module _ {w : World} where
  unfoldable pub run_scheduled : ℕ → Option (Task × List Task) → Db w → Call w (Unit {0})
  unfolding run_task
  run_scheduled now none db = (db, ok tt)
  run_scheduled now (some (t, ts)) db = run_task now t (record db { tasks = ts })

  unfoldable pub handle : ℕ → Event → Db w → Call w (Unit {0})
  unfolding collect clean take_task run_scheduled
  handle now (submitted s) db = submit now s db
  handle now (received s) db = endorse now s db
  handle now (endorsed e) db = add_endorsement e db
  handle now (expired s) db = collect now s db
  handle now ticked db = (clean now db, ok tt)
  handle now (scheduled i) db = run_scheduled now (take_task i db.tasks) db
  handle now (recovered x) db = elim (w.store.set db.store x) [
    | ok s ↦ (record db { store = s }, ok tt)
    | err _ ↦ (db, ok tt)
    | panic ↦ (db, panic)
    | stuck ↦ (db, stuck)
  ]

  -- The states that a node can come to, whatever the order of the events.
  pub data Reach (start : Db w) : Db w → Type 0 where
    here : Reach start start
    next : {db : Db w} (now : ℕ) (e : Event) → Reach start db → Reach start (handle now e db).0
