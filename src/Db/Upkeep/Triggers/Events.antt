-- ===== src/Db/Upkeep/Triggers/Events.antt =====
-- Such a property in every state that a node can come to.
use sporedb.Common.{
  erase-All, ℕ, ◌≡◌, refl, Option, none, some, List, [], ◌∷◌, Bytes, GoMap, arith, sym, subst, ◌⊎◌,
  inl, inr, Result-cases,
}
use sporedb.Spore.{Spore}
use sporedb.World.{World, Write}
use sporedb.Db.{Db, Trigger, Task, apply_task, cache_task}
use sporedb.Db.Endorse.{execute_endorsement}
use sporedb.Db.Upkeep.{
  Event, submitted, received, endorsed, expired, ticked, scheduled, recovered, handle, Reach, here,
  next, retry, retry_all, collect, run_task, clean, take_task, run_scheduled, drop_waiting,
}
use sporedb.Db.Upkeep.Triggers.{
  SameSetup, Keeps, IsKept, same_lists, apply_lists, execute_endorsement-Keeps, endorse-Keeps,
  add_endorsement-Keeps, submit-Keeps,
}

module _ {w : World} where
  retry_outcomes :
      (now : ℕ) (k : Bytes) (s : Spore) (db : Db w)
      → ((retry now k s db).0 ≡ db)
        ⊎ ((retry now k s db).0 ≡ drop_waiting k db)
        ⊎ ((retry now k s db).0 ≡ (execute_endorsement now s db).0)
        ⊎ ((retry now k s db).0 ≡ drop_waiting k (execute_endorsement now s db).0)
  unfolding retry
  retry_outcomes now k s db = ground arith

  recovered_lists :
      (now : ℕ) (x : Write) (db : Db w)
      → ((handle now (recovered x) db).0.keyring ≡ db.keyring)
        × ((handle now (recovered x) db).0.identity ≡ db.identity)
        × ((handle now (recovered x) db).0.policies ≡ db.policies)
        × ((handle now (recovered x) db).0.staging ≡ db.staging)
        × ((handle now (recovered x) db).0.waiting ≡ db.waiting)
  unfolding handle
  recovered_lists now x db = ground arith

  task_lists :
      (now : ℕ) (t : Task) (db : Db w)
      → ((run_task now t db).0.staging ≡ db.staging)
        × ((run_task now t db).0.waiting ≡ db.waiting)
        × SameSetup db (run_task now t db).0
  unfolding run_task
  task_lists now (apply_task s) db = ground (arith, apply_lists now s db)
  task_lists now (cache_task uuid h) db = ground arith

module _ {w : World} (P : Bytes × Trigger → Type 0) (start : Db w) (kept : IsKept P start) where
  drop-Keeps : (k : Bytes) (db : Db w) → Keeps P start db → Keeps P start (drop_waiting k db)
  unfolding drop_waiting
  drop-Keeps k db h = record {
    setup = record {
      keyring = h.setup.keyring;
      identity = h.setup.identity;
      policies = h.setup.policies;
    };
    staged = h.staged;
    waits = erase-All P k db.waiting h.waits;
  }

  retry-Keeps :
      (now : ℕ) (k : Bytes) (s : Spore) (db : Db w)
      → Keeps P start db
      → Keeps P start (retry now k s db).0
  retry-Keeps now k s db h =
      let run = execute_endorsement-Keeps P start kept now s db h in
      elim (retry_outcomes now k s db) [
        | inl same ↦ subst (Keeps P start) (sym same) h
        | inr (inl gone) ↦ subst (Keeps P start) (sym gone) (drop-Keeps k db h)
        | inr (inr (inl ran)) ↦ subst (Keeps P start) (sym ran) run
        | inr (inr (inr both)) ↦ subst (Keeps P start) (sym both) (drop-Keeps k _ run)
      ]

  retry_all-Keeps :
      (now : ℕ) (m : GoMap Trigger) (db : Db w)
      → Keeps P start db
      → Keeps P start (retry_all now m db).0
  unfolding retry_all
  retry_all-Keeps now [] db h = h
  retry_all-Keeps now ((k, t) ∷ m) db h =
      let h1 = retry-Keeps now k t.spore db h in
      elim (Result-cases (retry now k t.spore db).1) [
        | inl (u, fine) ↦ rw (fine, retry_all) (retry_all-Keeps now m _ h1)
        | inr (inl (x, refused)) ↦ rw (refused, retry_all) h1
        | inr (inr (inl p)) ↦ rw (p, retry_all) h1
        | inr (inr (inr p)) ↦ rw (p, retry_all) h1
      ]

  scheduled-Keeps :
      (now : ℕ) (o : Option (Task × List Task)) (db : Db w)
      → Keeps P start db
      → Keeps P start (run_scheduled now o db).0
  unfolding run_scheduled
  scheduled-Keeps now none db h = h
  scheduled-Keeps now (some (t, ts)) db h =
      let (staging, waiting, setup) = task_lists now t (record db { tasks = ts }) in
      same_lists P start kept db _
        (record { keyring = setup.keyring; identity = setup.identity; policies = setup.policies })
        staging waiting h

  pub handle-Keeps :
      (now : ℕ) (e : Event) (db : Db w) → Keeps P start db → Keeps P start (handle now e db).0
  unfolding handle collect clean
  handle-Keeps now (submitted s) db h = submit-Keeps P start kept now s db h
  handle-Keeps now (received s) db h = endorse-Keeps P start kept now s db h
  handle-Keeps now (endorsed e) db h = add_endorsement-Keeps P start kept e db h
  handle-Keeps now (expired s) db h = retry_all-Keeps now db.waiting _ (record {
    setup = record {
      keyring = h.setup.keyring;
      identity = h.setup.identity;
      policies = h.setup.policies;
    };
    staged = erase-All P s.uuid db.staging h.staged;
    waits = h.waits;
  })
  handle-Keeps now ticked db h =
      same_lists P start kept db _ (record { keyring = refl; identity = refl; policies = refl })
        refl refl h
  handle-Keeps now (scheduled i) db h = scheduled-Keeps now (take_task i db.tasks) db h
  handle-Keeps now (recovered x) db h =
      let (keyring, identity, policies, staging, waiting) = recovered_lists now x db in
      same_lists P start kept db _
        (record { keyring = keyring; identity = identity; policies = policies }) staging waiting h

  pub Reach-Keeps : (db : Db w) → Keeps P start start → Reach start db → Keeps P start db
  Reach-Keeps db h here = h
  Reach-Keeps db h (next {db = before} now e r) = handle-Keeps now e before (Reach-Keeps before h r)
