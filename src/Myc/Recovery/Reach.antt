-- ===== src/Myc/Recovery/Reach.antt =====
-- The answers that a node holds, in every state that it can come to.
use sporedb.Common.{
  ℕ, ◌≡◌, arith, [], ◌∷◌, Bytes, GoMap, lookup, All, lookup-All, insert-All, erase-All,
  Option-cases, Result-cases, inl, inr, ◌⊎◌, sym, subst,
}
use sporedb.Version
use sporedb.Version.{Version}
use sporedb.World.{World}
use sporedb.Myc.Recovery.{
  Raw, Recovery, Peer, Texts, Mycelium, start_recovery, stop_recovery, store_result, add_answer,
  handle_raw, compare_catalog, handle_catalog,
}
use sporedb.Myc.Recovery.Sound.{
  SoundAt, IsSound, answered, noted, answered-SoundAt, handle_raw_outcomes, handle_raw_closed,
  store_result_outcomes, add_answer_outcomes,
}

-- What can happen to the recoveries of a node, each at a time: an answer or a catalog of a peer, or
-- a start or a stop by the node itself.
pub data RecoveryEvent : Type 0 where
  answer : Peer → Raw → RecoveryEvent
  catalog : Peer → GoMap Version → RecoveryEvent
  started : Bytes → ℕ → RecoveryEvent
  stopped : Bytes → RecoveryEvent

module _ {w : World} where
  abbrev pub after_event : Texts → ℕ → RecoveryEvent → Mycelium w → Mycelium w
  after_event t now (answer peer raw) m = (handle_raw t now peer raw m).0
  after_event t now (catalog peer keys) m = (handle_catalog now peer keys m).0
  after_event t now (started key quorum) m = start_recovery now key quorum m
  after_event t now (stopped key) m = stop_recovery key m

  -- The states that a node can come to.
  pub data ReachMyc (t : Texts) (start : Mycelium w) : Mycelium w → Type 0 where
    here : ReachMyc t start start
    next :
        {m : Mycelium w} (now : ℕ) (e : RecoveryEvent)
        → ReachMyc t start m
        → ReachMyc t start (after_event t now e m)

  start_recovery-IsSound :
      (now : ℕ) (key : Bytes) (quorum : ℕ) (m : Mycelium w)
      → IsSound m
      → IsSound (start_recovery now key quorum m)
  unfolding start_recovery
  start_recovery-IsSound now key quorum m h = elim (Option-cases (lookup key m.recoveries)) [
    | inl fresh ↦
        rw (fresh, start_recovery) (insert-All (SoundAt w.sha512) key _ m.recoveries h (tt, tt))
    | inr (r, open_now) ↦ rw (open_now, start_recovery) h
  ]

  stop_recovery-IsSound : (key : Bytes) (m : Mycelium w) → IsSound m → IsSound (stop_recovery key m)
  unfolding stop_recovery
  stop_recovery-IsSound key m h = erase-All (SoundAt w.sha512) key m.recoveries h

  store_result-IsSound :
      (key : Bytes) (x : Raw) (m : Mycelium w) → IsSound m → IsSound (store_result key x m).0
  store_result-IsSound key x m h = elim (store_result_outcomes key x m).1 [
    | inl same ↦ subst (All (SoundAt w.sha512)) (sym same) h
    | inr gone ↦
        subst (All (SoundAt w.sha512)) (sym gone) (erase-All (SoundAt w.sha512) key m.recoveries h)
  ]

  add_answer-IsSound :
      (t : Texts) (peer : Peer) (raw : Raw) (r : Recovery) (m : Mycelium w)
      → IsSound (noted peer raw r m)
      → IsSound (add_answer t peer raw r m).0
  add_answer-IsSound t peer raw r m h = elim (add_answer_outcomes t peer raw r m) [
    | inl waits ↦ subst IsSound (sym waits) h
    | inr (x, agreed, stores) ↦
        subst (λ c. IsSound c.0) (sym stores)
          (store_result-IsSound raw.key x (noted peer raw r m) h)
  ]

  handle_raw-IsSound :
      (t : Texts) (now : ℕ) (peer : Peer) (raw : Raw) (m : Mycelium w)
      → IsSound m
      → IsSound (handle_raw t now peer raw m).0
  handle_raw-IsSound t now peer raw m h = elim (Option-cases (lookup raw.key m.recoveries)) [
    | inl closed ↦ subst IsSound (sym (handle_raw_closed t now peer raw m closed)) h
    | inr (r, found) ↦ elim (handle_raw_outcomes t now peer raw m r found) [
      | inl same ↦ subst IsSound (sym same) h
      | inr (inl gone) ↦ subst IsSound (sym gone) (stop_recovery-IsSound raw.key m h)
      | inr (inr (trusted, fits, signed, run)) ↦
          let at_key =
            answered-SoundAt w.sha512 peer raw r
              (lookup-All (SoundAt w.sha512) raw.key r m.recoveries h found) fits in
          subst (λ c. IsSound c.0) (sym run)
            (add_answer-IsSound t peer raw r m
              (insert-All (SoundAt w.sha512) raw.key (answered peer raw r) m.recoveries h at_key))
    ]
  ]

  compare_catalog-IsSound :
      (now : ℕ) (keys : GoMap Version) (m : Mycelium w)
      → IsSound m
      → IsSound (compare_catalog now keys m).0
  unfolding compare_catalog
  compare_catalog-IsSound now [] m h = h
  compare_catalog-IsSound now ((k, v) ∷ keys) m h =
      elim (Result-cases (Version.matches v (w.store.get m.db.store k).version)) [
        | inl (u, same) ↦ rw (same, compare_catalog) (compare_catalog-IsSound now keys m h)
        | inr (inl (e, differs)) ↦
            rw (differs, compare_catalog)
              (compare_catalog-IsSound now keys _
                (start_recovery-IsSound now k m.recovery_quorum m h))
        | inr (inr (inl p)) ↦ rw (p, compare_catalog) h
        | inr (inr (inr p)) ↦ rw (p, compare_catalog) h
      ]

  handle_catalog_outcomes :
      (now : ℕ) (peer : Peer) (keys : GoMap Version) (m : Mycelium w)
      → ((handle_catalog now peer keys m).0 ≡ m)
        ⊎ (handle_catalog now peer keys m
            ≡ compare_catalog now keys (record m { full_sync_peer = [] }))
  unfolding handle_catalog
  handle_catalog_outcomes now peer keys m = ground arith

  pub after_event-IsSound :
      (t : Texts) (now : ℕ) (e : RecoveryEvent) (m : Mycelium w)
      → IsSound m
      → IsSound (after_event t now e m)
  after_event-IsSound t now (answer peer raw) m h = handle_raw-IsSound t now peer raw m h
  after_event-IsSound t now (catalog peer keys) m h =
      elim (handle_catalog_outcomes now peer keys m) [
        | inl same ↦ subst IsSound (sym same) h
        | inr run ↦ subst (λ c. IsSound c.0) (sym run) (compare_catalog-IsSound now keys _ h)
      ]
  after_event-IsSound t now (started key quorum) m h = start_recovery-IsSound now key quorum m h
  after_event-IsSound t now (stopped key) m h = stop_recovery-IsSound key m h

  -- From a node whose recoveries are sound, such as one without any, whatever answers and catalogs
  -- come and whatever recoveries are started and stopped: every answer that is held for a key is for
  -- that key, has the version of its data unless the key is one of the system, and no peer has two.
  pub ReachMyc-IsSound :
      (t : Texts) (start m : Mycelium w) → IsSound start → ReachMyc t start m → IsSound m
  ReachMyc-IsSound t start m h here = h
  ReachMyc-IsSound t start m h (next {m = before} now e r) =
      after_event-IsSound t now e before (ReachMyc-IsSound t start before h r)
