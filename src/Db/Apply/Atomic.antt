-- ===== src/Db/Apply/Atomic.antt =====
-- `Apply` either does all of its work or none.
use sporedb.Common.{
  ℕ, ◌≡◌, ◌≢◌, true, none, some, List, lookup, insert, lookup-insert, bytes_eq_refl, ok, is_some,
  arith,
}
use sporedb.Spore.{Spore, check_grace_period}
use sporedb.Policy.{Policy}
use sporedb.World.{World, Write}
use sporedb.Db.{Db}
use sporedb.Db.Apply.{apply, commit, batch_of}

module _ {w : World} where
  commit_atomic :
      (s : Spore) (death : ℕ) (writes : List Write) (db : Db w)
      → (commit s death writes db).1 ≢ ok tt
      → (commit s death writes db).0 ≡ db
  unfolding commit
  commit_atomic s death writes db h = ground arith

  -- A call of `Apply` that does not succeed leaves the database as it was.
  pub apply_atomic :
      (now : ℕ) (s : Spore) (db : Db w) → (apply now s db).1 ≢ ok tt → (apply now s db).0 ≡ db
  unfolding apply
  apply_atomic now s db h = ground arith

  -- Where `Apply` succeeds the policy is known, the spore is alive and was not applied before, the
  -- store has taken the whole batch, and the spore is noted with its death; all else is as before.
  pub apply_ok :
      (now : ℕ) (s : Spore) (db : Db w)
      → (apply now s db).1 ≡ ok tt
      → (policy : Policy) × (writes : List Write) × (store' : w.S) × (lookup s.policy db.policies
          ≡ some policy)
        × ((check_grace_period now policy.grace_period s).0 ≡ true)
        × (lookup s.uuid db.applied ≡ none)
        × (batch_of s db ≡ ok writes)
        × (w.store.set_batch db.store writes ≡ ok store')
        × ((apply now s db).0 ≡ record db {
          store = store';
          applied = insert s.uuid (check_grace_period now policy.grace_period s).1 db.applied;
        })
  unfolding apply
  apply_ok now s db h = ground arith

  -- A spore that is noted as applied is not applied again, by however many calls.
  pub apply_applied :
      (now : ℕ) (s : Spore) (db : Db w)
      → is_some (lookup s.uuid db.applied) ≡ true
      → (apply now s db).1 ≢ ok tt
  unfolding apply
  apply_applied now s db h = ground arith

  -- Right after an `Apply` that has succeeded for a spore, a call for a spore of its identifier, at
  -- whatever second, fails and changes nothing.
  pub apply_once :
      (now later : ℕ) (s s2 : Spore) (db : Db w)
      → (apply now s db).1 ≡ ok tt
      → s2.uuid ≡ s.uuid
      → ((apply later s2 (apply now s db).0).1 ≢ ok tt)
        × ((apply later s2 (apply now s db).0).0 ≡ (apply now s db).0)
  apply_once now later s s2 db h same =
      let (policy, writes, store', found, alive, fresh, run, wrote, done) = apply_ok now s db h in
      let noted : is_some (lookup s2.uuid (apply now s db).0.applied) ≡ true =
        rw (done, same, lookup-insert, bytes_eq_refl) in
      let refused = apply_applied later s2 (apply now s db).0 noted in
      (refused, apply_atomic later s2 (apply now s db).0 refused)

  -- The converse of `apply_ok`: what is enough for `Apply` to succeed.
  pub apply_runs :
      (now : ℕ) (s : Spore) (db : Db w) (policy : Policy) (writes : List Write) (store' : w.S)
      → lookup s.policy db.policies ≡ some policy
      → (check_grace_period now policy.grace_period s).0 ≡ true
      → lookup s.uuid db.applied ≡ none
      → batch_of s db ≡ ok writes
      → w.store.set_batch db.store writes ≡ ok store'
      → (apply now s db).1 ≡ ok tt
  unfolding apply
  apply_runs now s db policy writes store' found alive fresh batch wrote = ground arith
