-- ===== src/Myc/Router/Spores.antt =====
-- What the handlers of calls do to the spores of the database.
use sporedb.Common.{
  ℕ, ◌≡◌, ◌⊎◌, inl, inr, sym, subst, refl, arith, Option, some, Option-cases, Bool-cases, List, [],
  ◌∷◌, Bytes, GoMap, lookup, insert, leb, length, ◌++◌, Result, none, ◌∙◌,
}
use sporedb.Version.{Version}
use sporedb.Spore.{Spore}
use sporedb.World.{World, Write}
use sporedb.Db.Upkeep.{handle, recovered}
use sporedb.Db.{Db, Endorsement}
use sporedb.Db.Endorse.{endorse}
use sporedb.Db.Collect.{add_endorsement}
use sporedb.Myc.Requests.{RequestCache}
use sporedb.Myc.Relay.{
  Body, announcement, spore_body, endorsement_body, gossip_body, recover_body, nodes_body, Relay,
  keep, broadcast, note_spore, handle_spore, try_endorsement,
}
use sporedb.Myc.Recovery.{
  Raw, Recovery, Peer, Texts, Mycelium, handle_raw, add_answer, check_quorum, store_result,
  stop_recovery, start_recovery, compare_catalog, handle_catalog,
}
use sporedb.Myc.Recovery.Answer.{start_full_sync}
use sporedb.Myc.Router.{
  reply, catalog_call, From, Whole, mycelium_of, Setting, Moment, request_keys, dispatch,
}

-- The database is as it was, or has taken a value from the peers.
abbrev pub Takes : {w : World} → Db w → Db w → Type 0
Takes a b = (b ≡ a) ⊎ ((x : Write) × (b ≡ (handle 0 (recovered x) a).0))

module _ {w : World} {C : Type 0} (cache : RequestCache C) (pack : Body → Result Bytes) where
  pub broadcast-db :
      (order : List ℕ) (from : Option ℕ) (body : Body) (m : Relay w C)
      → (broadcast cache pack order from body m).db ≡ m.db
  unfolding broadcast keep
  broadcast-db order from (spore_body s) m = ground arith
  broadcast-db order from (endorsement_body e) m = ground arith
  broadcast-db order from (gossip_body q) m = ground arith
  broadcast-db order from (recover_body k) m = ground arith
  broadcast-db order from (nodes_body l) m = ground arith

  note_spore-db : (s : Spore) (m : Relay w C) → (note_spore cache pack s m).db ≡ m.db
  unfolding note_spore
  note_spore-db s m = ground arith

  pub handle_spore-db :
      (now : ℕ) (order : List ℕ) (p : ℕ) (s : Spore) (m : Relay w C)
      → (handle_spore cache pack now order p s m).0.db ≡ (endorse now s m.db).0
  unfolding handle_spore note_spore
  handle_spore-db now order p s m =
      let m1 = record m { db = (endorse now s m.db).0 } in
      ground (
        arith,
        note_spore-db s m1,
        broadcast-db order (some p) (announcement s) (note_spore cache pack s m1),
      )

  pub try_endorsement-db :
      (order : List ℕ) (p : ℕ) (e : Endorsement) (m : Relay w C)
      → (try_endorsement cache pack (λ n r. r) 1 order p e m).0.db ≡ (add_endorsement e m.db).0
  unfolding try_endorsement
  try_endorsement-db order p e m = ground (
    arith,
    broadcast-db order (some p) (endorsement_body e) (record m { db = (add_endorsement e m.db).0 }),
  )

pub reply-db :
    {w : World} {C : Type 0} (place : ℕ) (l : List Bytes) (r : Relay w C)
    → (reply place l r).db ≡ r.db
reply-db place [] r = refl
reply-db place (packed ∷ l) r = reply-db place l _

module _ {w : World} where
  store_result-Takes :
      (key : Bytes) (raw : Raw) (m : Mycelium w) → Takes m.db (store_result key raw m).0.db
  unfolding store_result stop_recovery handle
  store_result-Takes key raw m =
      inr (record { key = raw.key; value = raw.data'; version = raw.version }, ground arith)

  add_answer-Takes :
      (t : Texts) (peer : Peer) (raw : Raw) (r : Recovery) (m : Mycelium w)
      → Takes m.db (add_answer t peer raw r m).0.db
  unfolding add_answer
  add_answer-Takes t peer raw r m =
      let r1 = record r { answers = insert peer.identity raw r.answers } in
      elim (Bool-cases (leb r1.quorum (length r1.answers))) [
        | inl x ↦ elim (Option-cases (check_quorum t r1)) [
          | inl y ↦ rw (x, y, add_answer) (inl refl)
          | inr (result, y) ↦
              rw (x, y, add_answer)
                (store_result-Takes raw.key result
                  (record m { recoveries = insert raw.key r1 m.recoveries }))
        ]
        | inr x ↦ rw (x, add_answer) (inl refl)
      ]

  handle_raw_outcomes :
      (t : Texts) (now : ℕ) (peer : Peer) (raw : Raw) (r : Recovery) (m : Mycelium w)
      → lookup raw.key m.recoveries ≡ some r
      → ((handle_raw t now peer raw m).0.db ≡ m.db)
        ⊎ ((handle_raw t now peer raw m).0.db ≡ (add_answer t peer raw r m).0.db)
  unfolding handle_raw stop_recovery
  handle_raw_outcomes t now peer raw r m x = ground (arith, x)

  pub handle_raw-Takes :
      (t : Texts) (now : ℕ) (peer : Peer) (raw : Raw) (m : Mycelium w)
      → Takes m.db (handle_raw t now peer raw m).0.db
  unfolding handle_raw stop_recovery
  handle_raw-Takes t now peer raw m = elim (Option-cases (lookup raw.key m.recoveries)) [
    | inl x ↦ inl (ground arith)
    | inr (r, x) ↦ elim (handle_raw_outcomes t now peer raw r m x) [
      | inl same ↦ inl same
      | inr taken ↦ subst (Takes m.db) (sym taken) (add_answer-Takes t peer raw r m)
    ]
  ]

  pub start_recovery-same :
      (now : ℕ) (key : Bytes) (quorum : ℕ) (m : Mycelium w)
      → (start_recovery now key quorum m).db ≡ m.db
  unfolding start_recovery
  start_recovery-same now key quorum m = ground arith

  compare_catalog-same :
      (now : ℕ) (keys : GoMap Version) (m : Mycelium w) → (compare_catalog now keys m).0.db ≡ m.db
  unfolding compare_catalog
  compare_catalog-same now [] m = refl
  compare_catalog-same now ((k, v) ∷ keys) m =
      let m1 = start_recovery now k m.recovery_quorum m in
      ground (
        arith,
        compare_catalog-same now keys m,
        compare_catalog-same now keys (record m1 { requested = m1.requested ++ (k ∷ []) }),
        start_recovery-same now k m.recovery_quorum m,
      )

  handle_catalog-same :
      (now : ℕ) (peer : Peer) (keys : GoMap Version) (m : Mycelium w)
      → (handle_catalog now peer keys m).0.db ≡ m.db
  unfolding handle_catalog
  handle_catalog-same now peer keys m =
      ground (arith, compare_catalog-same now keys (record m { full_sync_peer = [] }))

  pub start_full_sync-same :
      (identity : Bytes) (peers : List Peer) (m : Mycelium w)
      → (start_full_sync identity peers m).0.db ≡ m.db
  unfolding start_full_sync
  start_full_sync-same identity peers m = ground arith

module _ {w : World} {C : Type 0} (g : Setting w C) where
  request_keys-db :
      (orders : List (List ℕ)) (keys : List Bytes) (r : Relay w C)
      → (request_keys g orders keys r).db ≡ r.db
  unfolding request_keys
  request_keys-db [] [] r = refl
  request_keys-db (order ∷ orders) [] r = refl
  request_keys-db [] (k ∷ keys) r =
      request_keys-db [] keys _ ∙ broadcast-db g.cache g.pack [] none (recover_body k) r
  request_keys-db (order ∷ orders) (k ∷ keys) r =
      request_keys-db orders keys _ ∙ broadcast-db g.cache g.pack order none (recover_body k) r

  pub catalog-db :
      (t : Moment) (p : From) (keys : GoMap Version) (m : Whole w C)
      → (dispatch g t p (catalog_call keys) m).0.relay.db ≡ m.relay.db
  unfolding dispatch
  catalog-db t p keys m =
      request_keys-db t.orders _ _
      ∙ handle_catalog-same t.nanoseconds p.peer keys (record (mycelium_of m) { requested = [] })
