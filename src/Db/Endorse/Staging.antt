-- ===== src/Db/Endorse/Staging.antt =====
-- What a call of `Endorse` does to the staging list, and that spores in it do not conflict.
use sporedb.Common.{
  ℕ, ◌≡◌, ◌≢◌, refl, true, some, [], ◌∷◌, Bytes, GoMap, lookup, insert, lookup-insert, All,
  bytes_eq_iff, ok, err, panic, stuck, arith, >>=-eq-ok, ap, subst, ◌∙◌, sym, Bool-cases,
  Option-cases, ◌⊎◌, inl, inr, length, ◌≤◌,
}
use sporedb.Spore.{Spore, check_deadline, spores_conflict}
use sporedb.Spore.Conflict.{spores_conflict_symm}
use sporedb.World.{World}
use sporedb.Policy.{Policy}
use sporedb.Db.{Db, hash_spore, Trigger, Endorsement}
use sporedb.Db.Apply.{apply}
use sporedb.Db.Usage.{check_current_policy_usage}
use sporedb.Db.Endorse.Requirements.{IsMet, can_endorse-met}
use sporedb.Db.Endorse.{
  simulate, check_conflict_with, check_operations, can_endorse, stage, endorse_own,
  execute_endorsement, endorse,
}

-- No two spores of the list, under different identifiers, conflict.
abbrev pub IsConflictFree : GoMap Trigger → Type 0
IsConflictFree m =
    (k1 k2 : Bytes)
    → (t1 t2 : Trigger) → lookup k1 m ≡ some t1
    → lookup k2 m ≡ some t2
    → k1 ≢ k2
    → spores_conflict t1.spore t2.spore ≡ ok tt

-- A spore that passes `checkConflictWithStaging` conflicts with none of the list.
check_conflict_with-lookup :
    (s : Spore) (m : GoMap Trigger) (k : Bytes) (t : Trigger)
    → check_conflict_with s m ≡ ok tt
    → lookup k m ≡ some t
    → spores_conflict s t.spore ≡ ok tt
unfolding check_conflict_with lookup
check_conflict_with-lookup s [] k t h e = cc
check_conflict_with-lookup s ((j, u) ∷ m) k t h e =
    ground (arith, check_conflict_with-lookup s m k t)

-- A list stays free of conflicts when a spore that has been checked against it is put in.
insert-IsConflictFree :
    (t : Trigger) (m : GoMap Trigger)
    → IsConflictFree m
    → check_conflict_with t.spore m ≡ ok tt
    → IsConflictFree (insert t.spore.uuid t m)
insert-IsConflictFree t m free h k1 k2 t1 t2 e1 e2 ne = ground (
  arith,
  lookup-insert t.spore.uuid k1 t m,
  lookup-insert t.spore.uuid k2 t m,
  bytes_eq_iff t.spore.uuid k1,
  bytes_eq_iff t.spore.uuid k2,
  check_conflict_with-lookup t.spore m k1 t1 h,
  check_conflict_with-lookup t.spore m k2 t2 h,
  spores_conflict_symm t.spore t1.spore,
  free k1 k2 t1 t2,
)

-- The list is as it was, or has the spore put in, with one endorsement at most.
abbrev pub StagesOnly : Spore → GoMap Trigger → GoMap Trigger → Type 0
StagesOnly s m m' =
    (m' ≡ m)
    ⊎ ((t : Trigger) × (m' ≡ insert s.uuid t m) × (t.spore ≡ s) × (length t.endorsements ≤ 1))

staged-IsConflictFree :
    (s : Spore) (m m' : GoMap Trigger)
    → IsConflictFree m
    → check_conflict_with s m ≡ ok tt
    → StagesOnly s m m'
    → IsConflictFree m'
staged-IsConflictFree s m m' free clear (inl same) = subst IsConflictFree (sym same) free
staged-IsConflictFree s m m' free clear (inr (t, put, of_s, few)) =
    subst IsConflictFree (ap (λ u. insert u.uuid t m) of_s ∙ sym put)
      (insert-IsConflictFree t m free (ap (λ u. check_conflict_with u m) of_s ∙ clear))

module _ {w : World} where
  apply_staging : (now : ℕ) (s : Spore) (db : Db w) → (apply now s db).0.staging ≡ db.staging
  unfolding apply
  apply_staging now s db = ground arith

  -- The endorsement that the node makes of a spore, if it can sign.
  abbrev pub own_endorsement : Spore → Db w → Endorsement
  own_endorsement s db = record {
    emitter = db.identity;
    uuid = s.uuid;
    signature = elim (w.keys.sign db.keyring (hash_spore w s db).1) [
      | ok x ↦ x
      | err _ ↦ []
      | panic ↦ []
      | stuck ↦ []
    ];
  }

  pub endorse_own_staging :
      (now : ℕ) (s : Spore) (policy : Policy) (db : Db w)
      → ((endorse_own now s policy db).0.staging ≡ db.staging)
        ⊎ ((endorse_own now s policy db).0.staging
            ≡ insert s.uuid
                (record { armed = true; endorsements = own_endorsement s db ∷ []; spore = s })
                db.staging)
  unfolding endorse_own apply
  endorse_own_staging now s policy db = ground arith

  execute_endorsement_staging :
      (now : ℕ) (s : Spore) (db : Db w)
      → ((execute_endorsement now s db).0.staging ≡ db.staging)
        ⊎ ((execute_endorsement now s db).0.staging
            ≡ insert s.uuid (record { armed = true; endorsements = []; spore = s }) db.staging)
        ⊎ ((execute_endorsement now s db).0.staging
            ≡ insert s.uuid
                (record { armed = true; endorsements = own_endorsement s db ∷ []; spore = s })
                db.staging)
  unfolding execute_endorsement stage
  execute_endorsement_staging now s db = elim (Option-cases (lookup s.policy db.policies)) [
    | inl unknown ↦ ground arith
    | inr (policy, known) ↦
        ground (arith, endorse_own_staging now s policy db, apply_staging now s db)
  ]

  pub execute_endorsement-StagesOnly :
      (now : ℕ) (s : Spore) (db : Db w)
      → StagesOnly s db.staging (execute_endorsement now s db).0.staging
  execute_endorsement-StagesOnly now s db = elim (execute_endorsement_staging now s db) [
    | inl same ↦ inl same
    | inr (inl e) ↦
        inr (record { armed = true; endorsements = []; spore = s }, e, refl, omega arith)
    | inr (inr e) ↦ inr (
      record { armed = true; endorsements = own_endorsement s db ∷ []; spore = s },
      e,
      refl,
      omega arith,
    )
  ]

  -- `Endorse` leaves the staging list alone, or `CanEndorse` has passed the spore.
  endorse_cases :
      (now : ℕ) (s : Spore) (db : Db w)
      → ((endorse now s db).0.staging ≡ db.staging)
        ⊎ ((can_endorse now s db ≡ ok tt)
            × ((endorse now s db).0 ≡ (execute_endorsement now s db).0))
  unfolding endorse
  endorse_cases now s db = ground arith

  check_operations-conflict :
      (s : Spore) (db : Db w)
      → check_operations s db ≡ ok tt
      → check_conflict_with s db.staging ≡ ok tt
  unfolding check_operations
  check_operations-conflict s db h =
      let (work, run, rest) = >>=-eq-ok (simulate s.policy s.operations (0, []) db) _ tt h in
      let (u, quota, last) =
        >>=-eq-ok (check_current_policy_usage work.0 s.policy work.1 db) _ tt rest in
      last

  -- A spore that `CanEndorse` passes, and whose requirements are met, conflicts with none that is
  -- staged.
  can_endorse-conflict :
      (now : ℕ) (s : Spore) (db : Db w)
      → All (IsMet db) s.requirements
      → can_endorse now s db ≡ ok tt
      → check_conflict_with s db.staging ≡ ok tt
  can_endorse-conflict now s db met passed = elim (Bool-cases (check_deadline now s)) [
    | inl alive ↦ check_operations-conflict s db (sym (can_endorse-met now s db alive met) ∙ passed)
    | inr late ↦ unfold can_endorse in ground arith
  ]

  -- If no two staged spores conflict, that stays so when a spore is endorsed whose requirements are
  -- met, however the call ends.
  pub endorse-IsConflictFree :
      (now : ℕ) (s : Spore) (db : Db w)
      → All (IsMet db) s.requirements
      → IsConflictFree db.staging
      → IsConflictFree (endorse now s db).0.staging
  endorse-IsConflictFree now s db met free = elim (endorse_cases now s db) [
    | inl same ↦ subst IsConflictFree (sym same) free
    | inr (passed, run) ↦
        subst (λ d. IsConflictFree d.staging) (sym run)
          (staged-IsConflictFree s db.staging _ free (can_endorse-conflict now s db met passed)
            (execute_endorsement-StagesOnly now s db))
  ]
