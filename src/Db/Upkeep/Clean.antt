-- ===== src/Db/Upkeep/Clean.antt =====
-- What `Clean` takes off the list of applied spores.
use sporedb.Common.{
  ℕ, ◌≡◌, refl, true, false, ◌&&◌, Option, none, some, [], ◌∷◌, List, Bytes, GoMap, lookup, insert,
  lookup-insert, bytes_eq_refl, bytes_eq_iff, IsUnique, insert-IsUnique, int_ltb, ok, arith,
  if◌then◌else◌, ap, sym, subst, some-injective, ◌∙◌,
}
use sporedb.Spore.{Spore, check_grace_period}
use sporedb.World.{World, Write}
use sporedb.Db.{Db}
use sporedb.Db.Apply.{apply, batch_of}
use sporedb.Db.Apply.Atomic.{apply_ok, apply_runs}
use sporedb.Db.Upkeep.{is_cleaned, clean_map, clean}

abbrev kept : ℕ → Option ℕ → Option ℕ
kept now none = none
kept now (some death) = if is_cleaned now death then none else some death

lookup-clean_map :
    (now : ℕ) (uuid : Bytes) (m : GoMap ℕ)
    → IsUnique m
    → lookup uuid (clean_map now m) ≡ kept now (lookup uuid m)
unfolding lookup clean_map
lookup-clean_map now uuid [] u = refl
lookup-clean_map now uuid ((k, d) ∷ m) u =
    ground (arith, lookup-clean_map now uuid m u.1, bytes_eq_iff k uuid, u.0)

noted_insert : (k : Bytes) (d : ℕ) (m : GoMap ℕ) → lookup k (insert k d m) ≡ some d
noted_insert k d m = rw (lookup-insert, bytes_eq_refl)

-- The death of a spore does not depend on when it is asked for, and before it the spore is alive.
grace_later :
    (now later : ℕ) (grace : Option ℕ) (s : Spore)
    → int_ltb (check_grace_period now grace s).1 later ≡ false
    → (check_grace_period later grace s).0 ≡ true
unfolding check_grace_period
grace_later now later grace s h = ground arith

module _ {w : World} where
  -- Where no identifier is noted twice, `Clean` takes off exactly the spores whose death is
  -- positive and still to come, and keeps those whose grace period is over.
  pub clean_lem :
      (now : ℕ) (db : Db w) (uuid : Bytes)
      → IsUnique db.applied
      → lookup uuid (clean now db).applied ≡ elim (lookup uuid db.applied) [
        | none ↦ none
        | some death ↦ if int_ltb 0 death && int_ltb now death then none else some death
      ]
  unfolding clean is_cleaned
  clean_lem now db uuid u = ground (arith, lookup-clean_map now uuid db.applied u)

  -- A spore that has been applied, whose death is positive and still to come when `Clean` runs, and
  -- not past at a later second, is applied a second time then, if its operations run and the store
  -- takes the batch.
  pub apply-clean-apply :
      (now t later : ℕ) (s : Spore) (db : Db w) (writes : List Write) (store' : w.S) (death : ℕ)
      → IsUnique db.applied
      → (apply now s db).1 ≡ ok tt
      → lookup s.uuid (apply now s db).0.applied ≡ some death
      → int_ltb 0 death ≡ true
      → int_ltb t death ≡ true
      → int_ltb death later ≡ false
      → batch_of s (clean t (apply now s db).0) ≡ ok writes
      → w.store.set_batch (apply now s db).0.store writes ≡ ok store'
      → (apply later s (clean t (apply now s db).0)).1 ≡ ok tt
  apply-clean-apply now t later s db writes store' death u h noted pos early alive batch wrote =
      let (policy, writes1, store1, found, alive1, fresh, batch1, wrote1, done) =
        apply_ok now s db h in
      let death1 = (check_grace_period now policy.grace_period s).1 in
      let same : death1 ≡ death = some-injective (
        sym (ap (λ d. lookup s.uuid d.applied) done ∙ noted_insert s.uuid death1 db.applied)
        ∙ noted) in
      let unique : IsUnique (apply now s db).0.applied =
        subst (λ d. IsUnique d.applied) (sym done) (insert-IsUnique s.uuid death1 db.applied u) in
      apply_runs later s (clean t (apply now s db).0) policy writes store'
        (unfold clean in ap (λ d. lookup s.policy d.policies) done ∙ found)
        (grace_later now later policy.grace_period s (ap (λ d. int_ltb d later) same ∙ alive))
        (clean_lem t (apply now s db).0 s.uuid unique ∙ rw (noted, pos, early)) batch
        (unfold clean in wrote)
