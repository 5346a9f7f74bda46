-- ===== src/Db/Upkeep/Triggers.antt =====
-- What holds of every spore that a node holds, in the staging list and in the waiting list: a
-- property of an entry that is there when a spore is put in, and that an endorsement leaves.
pub mod Events
use sporedb.Common.{
  lookup-All, insert-All, erase-All, ℕ, ◌≡◌, refl, true, false, Bool, Option, none, some, List, [],
  ◌∷◌, ◌++◌, Bytes, GoMap, lookup, insert, erase, ok, arith, All, ap, is_some, sym, subst, ◌⊎◌, inl,
  inr, ◌∙◌, Result-cases, Option-cases, Bool-cases,
}
use sporedb.Spore.{Spore}
use sporedb.Policy.{Policy, pub_to_endorser}
use sporedb.World.{World}
use sporedb.Db.{Db, spore_message, hash_message, Trigger, Endorsement}
use sporedb.Db.Apply.{apply}
use sporedb.Db.Endorse.{
  own_public, stage, put_aside, execute_endorsement, endorse_own, endorse, submit,
}
use sporedb.Db.Endorse.Staging.{own_endorsement, endorse_own_staging}
use sporedb.Db.Collect.{
  is_no_related_spore, with_endorsement, add_endorsement_map, settle, add_waiting, add_endorsement,
}
use sporedb.Db.Collect.Admit.{add_endorsement_map-frame}

-- The entry that a spore is put in with
abbrev pub entry_of : Bool → List Endorsement → Spore → Trigger
entry_of armed es s = record { armed = armed; endorsements = es; spore = s }

module _ {w : World} where
  -- What no event of a node changes
  pub record SameSetup (start db : Db w) : Type 0 where
    pub keyring : db.keyring ≡ start.keyring
    pub identity : db.identity ≡ start.identity
    pub policies : db.policies ≡ start.policies

  -- The endorsements that a spore begins with: none, or that of the node, if it is an endorser.
  abbrev pub Begins : Db w → Spore → List Endorsement → Type 0
  Begins start s es =
      (es ≡ [])
      ⊎ ((e : Endorsement) × (es ≡ e ∷ [])
          × (e.emitter ≡ start.identity)
          × (is_some (pub_to_endorser (lookup s.policy start.policies) (own_public start)) ≡ true))

  Begins_key : (start db : Db w) → SameSetup start db → own_public db ≡ own_public start
  Begins_key start db same = rw (same.keyring)

  Begins-setup :
      (start db : Db w) (s : Spore) (es : List Endorsement)
      → SameSetup start db
      → Begins db s es
      → Begins start s es
  Begins-setup start db s es same (inl fresh) = inl fresh
  Begins-setup start db s es same (inr (e, one, own, allowed)) = inr (
    e,
    one,
    own ∙ same.identity,
    subst (λ k. is_some (pub_to_endorser (lookup s.policy start.policies) k) ≡ true)
        (Begins_key start db same)
        (subst (λ ps. is_some (pub_to_endorser (lookup s.policy ps) (own_public db)) ≡ true)
          same.policies allowed),
  )

  pub apply_lists :
      (now : ℕ) (s : Spore) (db : Db w)
      → ((apply now s db).0.staging ≡ db.staging)
        × ((apply now s db).0.waiting ≡ db.waiting)
        × SameSetup db (apply now s db).0
  unfolding apply
  apply_lists now s db = ground arith

  -- What `executeEndorsement` does to the lists
  abbrev StagesFrom : Spore → Db w → Db w → Type 0
  StagesFrom s db after =
      (after.waiting ≡ db.waiting)
      × SameSetup db after
      × ((after.staging ≡ db.staging)
          ⊎ ((es : List Endorsement) × (after.staging
                ≡ insert s.uuid (entry_of true es s) db.staging)
              × Begins db s es))

  endorse_own_frame :
      (now : ℕ) (s : Spore) (policy : Policy) (db : Db w)
      → ((endorse_own now s policy db).0.waiting ≡ db.waiting)
        × SameSetup db (endorse_own now s policy db).0
  unfolding endorse_own apply
  endorse_own_frame now s policy db = ground arith

  execute_endorsement_frame :
      (now : ℕ) (s : Spore) (db : Db w)
      → ((execute_endorsement now s db).0.waiting ≡ db.waiting)
        × SameSetup db (execute_endorsement now s db).0
  unfolding execute_endorsement stage
  execute_endorsement_frame now s db = elim (Option-cases (lookup s.policy db.policies)) [
    | inl unknown ↦ ground arith
    | inr (policy, known) ↦ ground (arith, endorse_own_frame now s policy db, apply_lists now s db)
  ]

  execute_endorsement_staged :
      (now : ℕ) (s : Spore) (db : Db w)
      → ((execute_endorsement now s db).0.staging ≡ db.staging)
        ⊎ ((execute_endorsement now s db).0.staging ≡ insert s.uuid (entry_of true [] s) db.staging)
        ⊎ (((execute_endorsement now s db).0.staging
              ≡ insert s.uuid (entry_of true (own_endorsement s db ∷ []) s) db.staging)
            × (is_some (pub_to_endorser (lookup s.policy db.policies) (own_public db)) ≡ true))
  unfolding execute_endorsement stage
  execute_endorsement_staged now s db = elim (Option-cases (lookup s.policy db.policies)) [
    | inl unknown ↦ ground arith
    | inr (policy, known) ↦
        ground (arith, endorse_own_staging now s policy db, apply_lists now s db)
  ]

  execute_endorsement-StagesFrom :
      (now : ℕ) (s : Spore) (db : Db w) → StagesFrom s db (execute_endorsement now s db).0
  execute_endorsement-StagesFrom now s db =
      let (waiting, setup) = execute_endorsement_frame now s db in
      (
        waiting,
        setup,
        elim (execute_endorsement_staged now s db) [
          | inl same ↦ inl same
          | inr (inl fresh) ↦ inr ([], fresh, inl refl)
          | inr (inr (own, allowed)) ↦
              inr (own_endorsement s db ∷ [], own, inr (own_endorsement s db, refl, refl, allowed))
        ],
      )

  same_trans : (a b c : Db w) → SameSetup a b → SameSetup b c → SameSetup a c
  same_trans a b c f g = record {
    keyring = g.keyring ∙ f.keyring;
    identity = g.identity ∙ f.identity;
    policies = g.policies ∙ f.policies;
  }

  -- The state has the setup of `start`, and every entry of the two lists has the property.
  pub record Keeps (P : Bytes × Trigger → Type 0) (start db : Db w) : Type 0 where
    pub setup : SameSetup start db
    pub staged : All P db.staging
    pub waits : All P db.waiting

  -- A property of entries that calls keep
  pub record IsKept (P : Bytes × Trigger → Type 0) (start : Db w) : Type 0 where
    pub begins :
        (armed : Bool) (s : Spore) (es : List Endorsement)
        → Begins start s es
        → P (s.uuid, entry_of armed es s)
    pub grows :
        (e : Endorsement) (ma : GoMap Trigger) (db : Db w) (t : Trigger)
        → SameSetup start db
        → All P ma
        → (add_endorsement_map e ma db).1 ≡ ok t
        → P (e.uuid, t)
    pub disarms : (k : Bytes) (t : Trigger) → P (k, t) → P (k, record t { armed = false })

module _ {w : World} (P : Bytes × Trigger → Type 0) (start : Db w) (kept : IsKept P start) where
  pub same_lists :
      (db db' : Db w)
      → SameSetup db db'
      → db'.staging ≡ db.staging
      → db'.waiting ≡ db.waiting
      → Keeps P start db
      → Keeps P start db'
  same_lists db db' setup staging waiting h = record {
    setup = same_trans start db db' h.setup setup;
    staged = subst (All P) (sym staging) h.staged;
    waits = subst (All P) (sym waiting) h.waits;
  }

  pub execute_endorsement-Keeps :
      (now : ℕ) (s : Spore) (db : Db w)
      → Keeps P start db
      → Keeps P start (execute_endorsement now s db).0
  execute_endorsement-Keeps now s db h =
      let (waiting, setup, staging) = execute_endorsement-StagesFrom now s db in
      record {
        setup = same_trans start db _ h.setup setup;
        staged = elim staging [
          | inl same ↦ subst (All P) (sym same) h.staged
          | inr (es, put, b) ↦ subst (All P) (sym put) (
              insert-All P s.uuid (entry_of true es s) db.staging h.staged
                (kept.begins true s es (Begins-setup start db s es h.setup b)))
        ];
        waits = subst (All P) (sym waiting) h.waits;
      }

  put_aside-Keeps : (s : Spore) (db : Db w) → Keeps P start db → Keeps P start (put_aside s db)
  unfolding put_aside
  put_aside-Keeps s db h = record {
    setup = record {
      keyring = h.setup.keyring;
      identity = h.setup.identity;
      policies = h.setup.policies;
    };
    staged = h.staged;
    waits =
        insert-All P s.uuid (entry_of false [] s) db.waiting h.waits
          (kept.begins false s [] (inl refl));
  }

  endorse_outcomes :
      (now : ℕ) (s : Spore) (db : Db w)
      → ((endorse now s db).0 ≡ db)
        ⊎ ((endorse now s db).0 ≡ put_aside s db)
        ⊎ ((endorse now s db).0 ≡ (execute_endorsement now s db).0)
  unfolding endorse
  endorse_outcomes now s db = ground arith

  pub endorse-Keeps :
      (now : ℕ) (s : Spore) (db : Db w) → Keeps P start db → Keeps P start (endorse now s db).0
  endorse-Keeps now s db h = elim (endorse_outcomes now s db) [
    | inl same ↦ subst (Keeps P start) (sym same) h
    | inr (inl aside) ↦ subst (Keeps P start) (sym aside) (put_aside-Keeps s db h)
    | inr (inr run) ↦ subst (Keeps P start) (sym run) (execute_endorsement-Keeps now s db h)
  ]

  settle_frame :
      (uuid : Bytes) (t : Trigger) (db : Db w)
      → ((settle uuid t db).0.waiting ≡ db.waiting) × SameSetup db (settle uuid t db).0
  unfolding settle
  settle_frame uuid t db = ground arith

  settle_staging :
      (uuid : Bytes) (t : Trigger) (db : Db w)
      → ((settle uuid t db).0.staging ≡ db.staging)
        ⊎ ((settle uuid t db).0.staging
            ≡ erase t.spore.uuid (insert uuid (record t { armed = false }) db.staging))
        ⊎ ((settle uuid t db).0.staging ≡ insert uuid t db.staging)
  unfolding settle
  settle_staging uuid t db = ground arith

  settle-Keeps :
      (uuid : Bytes) (t : Trigger) (db : Db w)
      → Keeps P start db
      → P (uuid, t)
      → Keeps P start (settle uuid t db).0
  settle-Keeps uuid t db h p =
      let (waiting, setup) = settle_frame uuid t db in
      record {
        setup = same_trans start db _ h.setup setup;
        staged = elim (settle_staging uuid t db) [
          | inl same ↦ subst (All P) (sym same) h.staged
          | inr (inl gone) ↦ subst (All P) (sym gone) (
              erase-All P t.spore.uuid _ (
                insert-All P uuid (record t { armed = false }) db.staging h.staged
                  (kept.disarms uuid t p)))
          | inr (inr grown) ↦ subst (All P) (sym grown) (insert-All P uuid t db.staging h.staged p)
        ];
        waits = subst (All P) (sym waiting) h.waits;
      }

  map_setup :
      (e : Endorsement) (ma : GoMap Trigger) (db : Db w)
      → SameSetup db (add_endorsement_map e ma db).0
        × ((add_endorsement_map e ma db).0.staging ≡ db.staging)
        × ((add_endorsement_map e ma db).0.waiting ≡ db.waiting)
  map_setup e ma db = ground (arith, add_endorsement_map-frame e ma db)

  map-Keeps :
      (e : Endorsement) (ma : GoMap Trigger) (db : Db w)
      → Keeps P start db
      → Keeps P start (add_endorsement_map e ma db).0
  map-Keeps e ma db h =
      let (setup, staging, waiting) = map_setup e ma db in same_lists db _ setup staging waiting h

  add_waiting-Keeps :
      (e : Endorsement) (db : Db w) → Keeps P start db → Keeps P start (add_waiting e db).0
  unfolding add_waiting
  add_waiting-Keeps e db h =
      let h1 = map-Keeps e db.waiting db h in
      elim (Result-cases (add_endorsement_map e db.waiting db).1) [
        | inl (t, taken) ↦
            rw (taken, add_waiting)
              (record {
                setup = record {
                  keyring = h1.setup.keyring;
                  identity = h1.setup.identity;
                  policies = h1.setup.policies;
                };
                staged = h1.staged;
                waits =
                    insert-All P e.uuid t _ h1.waits
                      (kept.grows e db.waiting db t h.setup h.waits taken);
              })
        | inr (inl (x, refused)) ↦ rw (refused, add_waiting) h1
        | inr (inr (inl p)) ↦ rw (p, add_waiting) h1
        | inr (inr (inr p)) ↦ rw (p, add_waiting) h1
      ]

  pub add_endorsement-Keeps :
      (e : Endorsement) (db : Db w) → Keeps P start db → Keeps P start (add_endorsement e db).0
  unfolding add_endorsement
  add_endorsement-Keeps e db h =
      let h1 = map-Keeps e db.staging db h in
      elim (Result-cases (add_endorsement_map e db.staging db).1) [
        | inl (t, taken) ↦
            rw (taken, add_endorsement)
              (settle-Keeps e.uuid t _ h1 (kept.grows e db.staging db t h.setup h.staged taken))
        | inr (inl (x, refused)) ↦
            rw (refused, add_endorsement)
              (elim (Bool-cases (is_no_related_spore x)) [
                | inl missing ↦ rw missing (add_waiting-Keeps e _ h1)
                | inr other ↦ rw other h1
              ])
        | inr (inr (inl p)) ↦ rw (p, add_endorsement) h1
        | inr (inr (inr p)) ↦ rw (p, add_endorsement) h1
      ]

  pub submit-Keeps :
      (now : ℕ) (s : Spore) (db : Db w) → Keeps P start db → Keeps P start (submit now s db).0
  unfolding submit
  submit-Keeps now s db h =
      let s1 = record s { emitter = db.identity; signature = [] } in
      elim (Result-cases (w.keys.sign db.keyring (hash_message w s1))) [
        | inl (signature, signed) ↦
            let s2 = record s1 { signature = signature } in
            rw (signed, submit)
              (endorse-Keeps now s2 _ (
                same_lists db (record db { messages = db.messages ++ (spore_message s2 ∷ []) })
                  (record { keyring = refl; identity = refl; policies = refl }) refl refl h))
        | inr (inl (x, refused)) ↦ rw (refused, submit) h
        | inr (inr (inl p)) ↦ rw (p, submit) h
        | inr (inr (inr p)) ↦ rw (p, submit) h
      ]
