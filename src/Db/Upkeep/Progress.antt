-- ===== src/Db/Upkeep/Progress.antt =====
-- A quorum of good endorsements leads to the application of a spore.
use sporedb.Common.{
  ℕ, zero, suc, ◌+◌, ◌≤◌, ◌<◌, ◌≡◌, refl, true, false, some, List, [], ◌∷◌, ◌++◌, append_assoc,
  Bytes, GoMap, lookup, bytes_eq_refl, bytes_eq_comm, ◌||◌, ok, arith, length, length-append, leb,
  if◌then◌else◌, ap, ◌∙◌, sym, subst, inl, inr, Option-cases, Bool-cases, is_some, All,
}
use sporedb.Spore.{Spore}
use sporedb.Policy.{Policy, pub_to_endorser}
use sporedb.World.{World}
use sporedb.Db.{Db, Trigger, Endorsement, Task, apply_task, cache_task, hash_spore}
use sporedb.Db.Apply.{apply}
use sporedb.Db.Endorse.{drop_error}
use sporedb.Db.Collect.{
  has_endorsed, with_endorsement, key_name, add_endorsement_map, check_endorsement, settle,
  add_waiting, add_endorsement,
}
use sporedb.Db.Collect.Admit.{IsDistinctEmitters, add_endorsement_map-frame}
use sporedb.Db.Collect.Settle.{to_apply, add_endorsement_staged, add_endorsement-Sends}
use sporedb.Db.Upkeep.{take_task, handle, endorsed, scheduled, run_scheduled, run_task}

-- A spore among those that are to be applied
abbrev pub Holds : Spore → List Spore → Type 0
Holds s l = (a : List Spore) × (b : List Spore) × (l ≡ a ++ (s ∷ b))

module _ {w : World} where
  -- An endorsement that `AddEndorsement` has no reason to refuse, of an emitter that has not
  -- endorsed the spore
  pub record IsGood (db : Db w) (s : Spore) (e : Endorsement) : Type 0 where
    pub names : e.uuid ≡ s.uuid
    pub pub_key : Bytes
    pub has_key : w.keys.get_public db.keyring (key_name e.emitter db) ≡ ok pub_key
    pub allowed : is_some (pub_to_endorser (lookup s.policy db.policies) pub_key) ≡ true
    pub signed :
        w.keys.verify db.keyring (key_name e.emitter db) (hash_spore w s db).1 e.signature ≡ ok tt

  good_lem :
      (e : Endorsement) (t : Trigger) (db : Db w)
      → lookup e.uuid db.staging ≡ some t
      → has_endorsed e.emitter t.endorsements ≡ false
      → IsGood db t.spore e
      → (add_endorsement_map e db.staging db).1 ≡ ok (with_endorsement e t)
  unfolding add_endorsement_map check_endorsement
  good_lem e t db found new good =
      ground (arith, found, new, good.has_key, good.allowed, good.signed)

  -- What an endorsement reads of a node is not what endorsements change.
  hash_spore-frame :
      (s : Spore) (db : Db w) (tasks : List Task) (staging waiting : GoMap Trigger)
      → (hash_spore w s (record db { tasks = tasks; staging = staging; waiting = waiting })).1
        ≡ (hash_spore w s db).1
  unfolding hash_spore
  hash_spore-frame s db tasks staging waiting = elim (Option-cases (w.lru.get db.cache s.uuid)) [
    | inl x ↦ rw (x, hash_spore) refl
    | inr (h, x) ↦ rw (x, hash_spore) refl
  ]

  IsGood-frame :
      (s : Spore) (e : Endorsement) (db : Db w) (tasks : List Task)
      (staging waiting : GoMap Trigger)
      → IsGood db s e
      → IsGood (record db { tasks = tasks; staging = staging; waiting = waiting }) s e
  unfolding key_name
  IsGood-frame s e db tasks staging waiting h = record {
    names = h.names;
    pub_key = h.pub_key;
    has_key = h.has_key;
    allowed = h.allowed;
    signed =
        subst (λ x. w.keys.verify db.keyring (key_name e.emitter db) x e.signature ≡ ok tt)
          (sym (hash_spore-frame s db tasks staging waiting)) h.signed;
  }

  -- The endorsements one after the other
  abbrev pub receive_all : ℕ → List Endorsement → Db w → Db w
  receive_all now [] db = db
  receive_all now (e ∷ es) db = receive_all now es (handle now (endorsed e) db).0

  add_endorsement-frame :
      (e : Endorsement) (db : Db w)
      → (add_endorsement e db).0 ≡ record db {
        tasks = (add_endorsement e db).0.tasks;
        staging = (add_endorsement e db).0.staging;
        waiting = (add_endorsement e db).0.waiting;
      }
  unfolding add_endorsement settle add_waiting
  add_endorsement-frame e db = ground (
    arith,
    add_endorsement_map-frame e db.staging db,
    add_endorsement_map-frame e db.waiting (add_endorsement_map e db.staging db).0,
  )

  Holds-add_endorsement :
      (s : Spore) (e : Endorsement) (db : Db w)
      → Holds s (to_apply db.tasks)
      → Holds s (to_apply (add_endorsement e db).0.tasks)
  Holds-add_endorsement s e db (a, b, h) = elim (add_endorsement-Sends e db) [
    | inl same ↦ (a, b, same ∙ h)
    | inr (t, policy, found, took, known, full, sent) ↦ (
      a,
      b ++ (t.spore ∷ []),
      sent ∙ (ap (λ l. l ++ (t.spore ∷ [])) h ∙ append_assoc a (s ∷ b) (t.spore ∷ [])),
    )
  ]

  Holds-receive_all :
      (now : ℕ) (s : Spore) (es : List Endorsement) (db : Db w)
      → Holds s (to_apply db.tasks)
      → Holds s (to_apply (receive_all now es db).tasks)
  unfolding handle
  Holds-receive_all now s [] db h = h
  Holds-receive_all now s (e ∷ es) db h =
      Holds-receive_all now s es (add_endorsement e db).0 (Holds-add_endorsement s e db h)

-- A spore that is to be applied has a task.
take_task-Holds :
    (s : Spore) (ts : List Task)
    → Holds s (to_apply ts)
    → (i : ℕ) × (rest : List Task) × (take_task i ts ≡ some (apply_task s, rest))
unfolding take_task
take_task-Holds s [] ([], b, h) = cc
take_task-Holds s [] (x ∷ a, b, h) = cc
take_task-Holds s (apply_task s2 ∷ ts) ([], b, h) =
    (zero, ts, ap (λ x. some (apply_task x, ts)) (first h))
  where
    first : s2 ∷ to_apply ts ≡ s ∷ b → s2 ≡ s
    first e = cc
take_task-Holds s (apply_task s2 ∷ ts) (x ∷ a, b, h) =
    let (i, rest, e) = take_task-Holds s ts (a, b, later h) in
    (suc i, apply_task s2 ∷ rest, rw (e, take_task) refl)
  where
    later : s2 ∷ to_apply ts ≡ x ∷ (a ++ (s ∷ b)) → to_apply ts ≡ a ++ (s ∷ b)
    later e = cc
take_task-Holds s (cache_task uuid c ∷ ts) h =
    let (i, rest, e) = take_task-Holds s ts h in
    (suc i, cache_task uuid c ∷ rest, rw (e, take_task) refl)

has_endorsed-append :
    (a : Bytes) (ts es : List Endorsement)
    → has_endorsed a (ts ++ es) ≡ (has_endorsed a ts || has_endorsed a es)
unfolding has_endorsed
has_endorsed-append a [] es = refl
has_endorsed-append a (x ∷ ts) es = ground (arith, has_endorsed-append a ts es)

-- Of distinct emitters one in the middle is not among those before it.
has_endorsed-middle :
    (ts : List Endorsement) (e : Endorsement) (es : List Endorsement)
    → IsDistinctEmitters (ts ++ (e ∷ es))
    → has_endorsed e.emitter ts ≡ false
unfolding has_endorsed
has_endorsed-middle [] e es h = refl
has_endorsed-middle (x ∷ ts) e es h = ground (
  arith,
  has_endorsed-middle ts e es h.1,
  has_endorsed-append x.emitter ts (e ∷ es),
  bytes_eq_comm x.emitter e.emitter,
  h.0,
)

module _ {w : World} where
  IsGood-add_endorsement :
      (s : Spore) (e : Endorsement) (db : Db w) (es : List Endorsement)
      → All (IsGood db s) es
      → All (IsGood (add_endorsement e db).0 s) es
  IsGood-add_endorsement s e db [] h = tt
  IsGood-add_endorsement s e db (x ∷ es) h = (
    subst (λ d. IsGood d s x) (sym (add_endorsement-frame e db)) (IsGood-frame s x db _ _ _ h.0),
    IsGood-add_endorsement s e db es h.1,
  )

  quorum-Holds :
      (now : ℕ) (es : List Endorsement) (t : Trigger) (policy : Policy) (db : Db w)
      → lookup t.spore.uuid db.staging ≡ some t
      → lookup t.spore.policy db.policies ≡ some policy
      → All (IsGood db t.spore) es
      → IsDistinctEmitters (t.endorsements ++ es)
      → length t.endorsements < policy.quorum
      → policy.quorum ≤ length t.endorsements + length es
      → Holds t.spore (to_apply (receive_all now es db).tasks)
  unfolding handle with_endorsement
  quorum-Holds now [] t policy db found known good distinct few enough = absurd (omega arith)
  quorum-Holds now (e ∷ es) t policy db found known good distinct few enough =
      let new = has_endorsed-middle t.endorsements e es distinct in
      let taken = good_lem e t db (rw good.0.names found) new good.0 in
      let (staged, sent) =
        add_endorsement_staged e t policy db e.uuid taken (sym good.0.names) known in
      elim (Bool-cases (leb policy.quorum (length (t.endorsements ++ (e ∷ []))))) [
        | inl full ↦ Holds-receive_all now t.spore es (add_endorsement e db).0 (
          to_apply db.tasks,
          [],
          sent
              ∙ ap (λ b. if b then to_apply db.tasks ++ (t.spore ∷ []) else to_apply db.tasks) full,
        )
        | inr short ↦
            quorum-Holds now es (with_endorsement e t) policy (add_endorsement e db).0
              (ap (λ u. lookup u (add_endorsement e db).0.staging) (sym good.0.names)
                ∙ (staged ∙ ground (arith, short, bytes_eq_refl e.uuid)))
              (ap (λ d. lookup t.spore.policy d.policies) (add_endorsement-frame e db) ∙ known)
              (IsGood-add_endorsement t.spore e db es good.1)
              (subst IsDistinctEmitters (sym (append_assoc t.endorsements (e ∷ []) es)) distinct)
              (ground (arith, short)) (omega (arith, length-append t.endorsements (e ∷ []), enough))
      ]

  -- A staged spore of a known policy gets endorsements, one after the other, that `AddEndorsement` has no
  -- reason to refuse, of emitters that are distinct and new, and with them it has the quorum that it did
  -- not have before. Then there is a task that, whenever it is run, calls `Apply` on the spore.
  pub quorum-applies :
      (now later : ℕ) (es : List Endorsement) (t : Trigger) (policy : Policy) (db : Db w)
      → lookup t.spore.uuid db.staging ≡ some t
      → lookup t.spore.policy db.policies ≡ some policy
      → All (IsGood db t.spore) es
      → IsDistinctEmitters (t.endorsements ++ es)
      → length t.endorsements < policy.quorum
      → policy.quorum ≤ length t.endorsements + length es
      → let after = receive_all now es db in
        (i : ℕ) × (rest : List Task) × (handle later (scheduled i) after
          ≡ drop_error (apply later t.spore (record after { tasks = rest })))
  unfolding handle run_scheduled run_task
  quorum-applies now later es t policy db found known good distinct few enough =
      let (i, rest, e) =
        take_task-Holds t.spore (receive_all now es db).tasks
          (quorum-Holds now es t policy db found known good distinct few enough) in
      (i, rest, rw (e, handle) refl)
