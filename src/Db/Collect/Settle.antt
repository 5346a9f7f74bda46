-- ===== src/Db/Collect/Settle.antt =====
-- When an endorsement sends a spore to be applied.
use sporedb.Common.{
  ◌≤◌, ◌≡◌, refl, false, none, some, List, [], ◌∷◌, ◌++◌, append-nil, Bytes, GoMap, lookup, insert,
  lookup-insert, lookup-erase, bytes_eq, ok, arith, length, leb, if◌then◌else◌, ap, ◌∙◌, sym, ◌⊎◌,
  inl, inr, Result-cases, Option-cases, Bool-cases,
}
use sporedb.Spore.{Spore}
use sporedb.Policy.{Policy}
use sporedb.World.{World}
use sporedb.Db.{Db, hash_message, Trigger, Endorsement, Task, apply_task, cache_task}
use sporedb.Db.Collect.{with_endorsement, add_endorsement_map, settle, add_waiting, add_endorsement}
use sporedb.Db.Collect.Admit.{add_endorsement_map-ok, add_endorsement_map-frame}

-- The spores that the tasks will apply.
abbrev pub to_apply : List Task → List Spore
to_apply [] = []
to_apply (apply_task s ∷ ts) = s ∷ to_apply ts
to_apply (cache_task uuid h ∷ ts) = to_apply ts

to_apply-append : (ts us : List Task) → to_apply (ts ++ us) ≡ to_apply ts ++ to_apply us
to_apply-append [] us = refl
to_apply-append (apply_task s ∷ ts) us = ap (λ l. s ∷ l) (to_apply-append ts us)
to_apply-append (cache_task uuid h ∷ ts) us = to_apply-append ts us

to_apply-cache :
    (ts : List Task) (uuid h : Bytes) → to_apply (ts ++ (cache_task uuid h ∷ [])) ≡ to_apply ts
to_apply-cache ts uuid h = to_apply-append ts (cache_task uuid h ∷ []) ∙ append-nil (to_apply ts)

module _ {w : World} where
  to_apply-add_endorsement_map :
      (e : Endorsement) (ma : GoMap Trigger) (db : Db w)
      → to_apply (add_endorsement_map e ma db).0.tasks ≡ to_apply db.tasks
  unfolding add_endorsement_map
  to_apply-add_endorsement_map e ma db = elim (Option-cases (lookup e.uuid ma)) [
    | inl unknown ↦ ground arith
    | inr (t, known) ↦ ground (arith, to_apply-cache db.tasks t.spore.uuid (hash_message w t.spore))
  ]

  -- `settle` at every key of the staging list, and the spores to apply.
  settle_lem :
      (uuid : Bytes) (t : Trigger) (policy : Policy) (db : Db w) (j : Bytes)
      → t.spore.uuid ≡ uuid
      → lookup t.spore.policy db.policies ≡ some policy
      → let full = leb policy.quorum (length t.endorsements) in
        let after = (settle uuid t db).0 in
        (lookup j after.staging
          ≡ (if bytes_eq uuid j then if full then none else some t else lookup j db.staging))
        × (to_apply after.tasks
            ≡ (if full then to_apply db.tasks ++ (t.spore ∷ []) else to_apply db.tasks))
  unfolding settle
  settle_lem uuid t policy db j named known =
      let stopped = record t { armed = false } in
      let put = insert uuid stopped db.staging in
      (
        ground (
          arith,
          lookup-erase t.spore.uuid j put,
          lookup-insert uuid j stopped db.staging,
          lookup-insert uuid j t db.staging,
        ),
        ground (arith, to_apply-append db.tasks (apply_task t.spore ∷ [])),
      )

  add_endorsement-settle :
      (e : Endorsement) (t : Trigger) (db : Db w)
      → (add_endorsement_map e db.staging db).1 ≡ ok t
      → add_endorsement e db ≡ settle e.uuid t (add_endorsement_map e db.staging db).0
  unfolding add_endorsement
  add_endorsement-settle e t db taken = rw (taken, add_endorsement)

  -- An endorsement that is taken for a staged spore of a known policy, which stands in the list
  -- under its identifier: the spore stays staged, with the endorsement, or, if these make a quorum,
  -- leaves the list and is sent to be applied; the other staged spores stay as they are.
  pub add_endorsement_staged :
      (e : Endorsement) (t : Trigger) (policy : Policy) (db : Db w) (j : Bytes)
      → (add_endorsement_map e db.staging db).1 ≡ ok (with_endorsement e t)
      → t.spore.uuid ≡ e.uuid
      → lookup t.spore.policy db.policies ≡ some policy
      → let full = leb policy.quorum (length (t.endorsements ++ (e ∷ []))) in
        let after = (add_endorsement e db).0 in
        (lookup j after.staging ≡ (
          if bytes_eq e.uuid j
          then if full then none else some (with_endorsement e t)
          else lookup j db.staging))
        × (to_apply after.tasks
            ≡ (if full then to_apply db.tasks ++ (t.spore ∷ []) else to_apply db.tasks))
  unfolding with_endorsement
  add_endorsement_staged e t policy db j taken named known =
      let db1 = (add_endorsement_map e db.staging db).0 in
      let frame = add_endorsement_map-frame e db.staging db in
      let run = add_endorsement-settle e (with_endorsement e t) db taken in
      let full = leb policy.quorum (length (t.endorsements ++ (e ∷ []))) in
      let (staged, sent) =
        settle_lem e.uuid (with_endorsement e t) policy db1 j named
          (ap (λ d. lookup t.spore.policy d.policies) frame ∙ known) in
      (
        ap (λ c. lookup j c.0.staging) run
            ∙ staged
            ∙ ap
                (λ d.
                  if bytes_eq e.uuid j
                  then if full then none else some (with_endorsement e t)
                  else lookup j d.staging)
                frame,
        ap (λ c. to_apply c.0.tasks) run
            ∙ sent
            ∙ ap (λ l. if full then l ++ (t.spore ∷ []) else l)
                (to_apply-add_endorsement_map e db.staging db),
      )

  settle_sends :
      (uuid : Bytes) (t : Trigger) (db : Db w)
      → (to_apply (settle uuid t db).0.tasks ≡ to_apply db.tasks)
        ⊎ ((policy : Policy) × (lookup t.spore.policy db.policies ≡ some policy)
            × (policy.quorum ≤ length t.endorsements)
            × (to_apply (settle uuid t db).0.tasks ≡ to_apply db.tasks ++ (t.spore ∷ [])))
  unfolding settle
  settle_sends uuid t db = elim (Option-cases (lookup t.spore.policy db.policies)) [
    | inl unknown ↦ inl (ground arith)
    | inr (policy, known) ↦ elim (Bool-cases (leb policy.quorum (length t.endorsements))) [
      | inl full ↦ inr (
        policy,
        known,
        ground arith,
        ground (arith, to_apply-append db.tasks (apply_task t.spore ∷ [])),
      )
      | inr short ↦ inl (ground arith)
    ]
  ]

  to_apply-add_waiting :
      (e : Endorsement) (db : Db w) → to_apply (add_waiting e db).0.tasks ≡ to_apply db.tasks
  unfolding add_waiting
  to_apply-add_waiting e db = ground (arith, to_apply-add_endorsement_map e db.waiting db)

  -- The endorsement sends no spore to be applied, or the one staged spore that it names.
  abbrev pub Sends : Endorsement → Db w → Type 0
  Sends e db =
      (to_apply (add_endorsement e db).0.tasks ≡ to_apply db.tasks)
      ⊎ ((t : Trigger) × (policy : Policy) × (lookup e.uuid db.staging ≡ some t)
          × ((add_endorsement_map e db.staging db).1 ≡ ok (with_endorsement e t))
          × (lookup t.spore.policy db.policies ≡ some policy)
          × (policy.quorum ≤ length (t.endorsements ++ (e ∷ [])))
          × (to_apply (add_endorsement e db).0.tasks ≡ to_apply db.tasks ++ (t.spore ∷ [])))

  Sends-taken :
      (e : Endorsement) (t' : Trigger) (db : Db w)
      → (add_endorsement_map e db.staging db).1 ≡ ok t'
      → Sends e db
  unfolding with_endorsement
  Sends-taken e t' db taken =
      let db1 = (add_endorsement_map e db.staging db).0 in
      let frame = add_endorsement_map-frame e db.staging db in
      let (t, pub_key, found, grown, fresh, key, allowed, verified) =
        add_endorsement_map-ok e db.staging db t' taken in
      let took : (add_endorsement_map e db.staging db).1 ≡ ok (with_endorsement e t) =
        taken ∙ ap ok grown in
      let run = add_endorsement-settle e (with_endorsement e t) db took in
      let same = to_apply-add_endorsement_map e db.staging db in
      elim (settle_sends e.uuid (with_endorsement e t) db1) [
        | inl kept ↦ inl (ap (λ c. to_apply c.0.tasks) run ∙ kept ∙ same)
        | inr (policy, known, full, sent) ↦ inr (
          t,
          policy,
          found,
          took,
          sym (ap (λ d. lookup t.spore.policy d.policies) frame) ∙ known,
          full,
          ap (λ c. to_apply c.0.tasks) run ∙ sent ∙ ap (λ l. l ++ (t.spore ∷ [])) same,
        )
      ]

  -- An endorsement sends no spore to be applied, or the one staged spore that it names: then it was
  -- taken for that spore, and with it the spore has a quorum of its policy.
  pub add_endorsement-Sends : (e : Endorsement) (db : Db w) → Sends e db
  add_endorsement-Sends e db = elim (Result-cases (add_endorsement_map e db.staging db).1) [
    | inl (t', taken) ↦ Sends-taken e t' db taken
    | inr (inl (x, refused)) ↦ inl (
        unfold add_endorsement in
        ground (
          arith,
          to_apply-add_endorsement_map e db.staging db,
          to_apply-add_waiting e (add_endorsement_map e db.staging db).0,
        ))
    | inr (inr (inl p)) ↦
        inl (unfold add_endorsement in ground (arith, to_apply-add_endorsement_map e db.staging db))
    | inr (inr (inr p)) ↦
        inl (unfold add_endorsement in ground (arith, to_apply-add_endorsement_map e db.staging db))
  ]
