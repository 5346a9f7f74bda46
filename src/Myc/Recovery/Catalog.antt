-- ===== src/Myc/Recovery/Catalog.antt =====
-- A full synchronisation in myc/recovery.go: `StartFullSync`, and `handleCatalog` on the answer.
use sporedb.Common.{
  ℕ, ◌+◌, ◌≡◌, ◌⊎◌, refl, arith, true, false, List, [], ◌∷◌, ◌++◌, Bytes, bytes_eq_iff, GoMap,
  lookup, is_some, bytes_eq_refl, ap, lookup-insert, All, ok, err, panic, stuck, Error, inl, inr,
  sym, ◌∙◌, append_assoc, append-nil,
}
use sporedb.Version
use sporedb.Version.{Version, nil, no_version, hashed}
use sporedb.World.{World}
use sporedb.Myc.Recovery.{
  Recovery, Peer, Mycelium, recovery_time, start_recovery, compare_catalog, handle_catalog,
}
use sporedb.Myc.Recovery.Answer.{start_full_sync}

matches_total :
    (v w : Version) → (Version.matches v w ≡ ok tt) ⊎ ((e : Error) × (Version.matches v w ≡ err e))
unfolding Version.matches
matches_total v w = ground arith

-- The keys of a catalog of which the store has another version, in the order of the catalog
unfoldable pub behind : (w : World) → w.S → GoMap Version → List Bytes
behind w s [] = []
behind w s ((k, v) ∷ keys) =
    let rest = behind w s keys in
    elim (Version.matches v (w.store.get s k).version) [
      | ok _ ↦ rest
      | err _ ↦ k ∷ rest
      | panic ↦ rest
      | stuck ↦ rest
    ]

-- What `start_recovery` enters
abbrev fresh : ℕ → ℕ → Recovery
fresh now q = record { deadline = now + recovery_time; answers = []; quorum = q; stale = false }

module _ {w : World} where
  -- The node waits for answers on a key.
  abbrev pub Recovers : Bytes → Mycelium w → Type 0
  Recovers k m = is_some (lookup k m.recoveries) ≡ true

  start_recovery_frame :
      (now : ℕ) (k : Bytes) (q : ℕ) (m : Mycelium w)
      → ((start_recovery now k q m).db ≡ m.db)
        × ((start_recovery now k q m).requested ≡ m.requested)
        × ((start_recovery now k q m).full_sync_peer ≡ m.full_sync_peer)
        × ((start_recovery now k q m).recovery_quorum ≡ m.recovery_quorum)
  unfolding start_recovery
  start_recovery_frame now k q m = ground arith

  start_recovery-Recovers :
      (now : ℕ) (k : Bytes) (q : ℕ) (m : Mycelium w) → Recovers k (start_recovery now k q m)
  unfolding start_recovery
  start_recovery-Recovers now k q m =
      ground (arith, lookup-insert k k (fresh now q) m.recoveries, bytes_eq_refl k)

  start_recovery_keeps :
      (now : ℕ) (k : Bytes) (q : ℕ) (j : Bytes) (m : Mycelium w)
      → Recovers j m
      → Recovers j (start_recovery now k q m)
  unfolding start_recovery
  start_recovery_keeps now k q j m there =
      ground (arith, lookup-insert k j (fresh now q) m.recoveries, bytes_eq_iff k j)

  -- What the comparison of a catalog does to the rest of the state
  compare_catalog-behind :
      (s : w.S) (now : ℕ) (keys : GoMap Version) (m : Mycelium w)
      → m.db.store ≡ s
      → ((compare_catalog now keys m).1 ≡ ok tt)
        × ((compare_catalog now keys m).0.requested ≡ m.requested ++ behind w s keys)
        × ((compare_catalog now keys m).0.db ≡ m.db)
        × ((compare_catalog now keys m).0.full_sync_peer ≡ m.full_sync_peer)
  unfolding compare_catalog behind
  compare_catalog-behind s now [] m h = (refl, sym (append-nil m.requested), refl, refl)
  compare_catalog-behind s now ((k, v) ∷ keys) m h =
      let at : w.store.get m.db.store k ≡ w.store.get s k = ap (λ b. w.store.get b k) h in
      elim (matches_total v (w.store.get s k).version) [
        | inl same ↦ rw (at, same, compare_catalog, behind) (compare_catalog-behind s now keys m h)
        | inr (e, differs) ↦
            let m1 = start_recovery now k m.recovery_quorum m in
            let frame = start_recovery_frame now k m.recovery_quorum m in
            let rest =
              compare_catalog-behind s now keys (record m1 { requested = m1.requested ++ (k ∷ []) })
                (ap (λ d. d.store) frame.0 ∙ h) in
            rw (at, differs, compare_catalog, behind)
              (ground (arith, rest, frame, append_assoc m1.requested (k ∷ []) (behind w s keys)))
      ]

  compare_catalog_keeps :
      (now : ℕ) (keys : GoMap Version) (j : Bytes) (m : Mycelium w)
      → Recovers j m
      → Recovers j (compare_catalog now keys m).0
  unfolding compare_catalog
  compare_catalog_keeps now [] j m h = h
  compare_catalog_keeps now ((k, v) ∷ keys) j m h =
      elim (matches_total v (w.store.get m.db.store k).version) [
        | inl same ↦ rw (same, compare_catalog) (compare_catalog_keeps now keys j m h)
        | inr (e, differs) ↦
            rw (differs, compare_catalog)
              (compare_catalog_keeps now keys j _
                (start_recovery_keeps now k m.recovery_quorum j m h))
      ]

  compare_catalog-Recovers :
      (s : w.S) (now : ℕ) (keys : GoMap Version) (m : Mycelium w)
      → m.db.store ≡ s
      → All (λ k. Recovers k (compare_catalog now keys m).0) (behind w s keys)
  unfolding compare_catalog behind
  compare_catalog-Recovers s now [] m h = tt
  compare_catalog-Recovers s now ((k, v) ∷ keys) m h =
      let at : w.store.get m.db.store k ≡ w.store.get s k = ap (λ b. w.store.get b k) h in
      elim (matches_total v (w.store.get s k).version) [
        | inl same ↦
            rw (at, same, compare_catalog, behind) (compare_catalog-Recovers s now keys m h)
        | inr (e, differs) ↦
            let m1 = start_recovery now k m.recovery_quorum m in
            let frame = start_recovery_frame now k m.recovery_quorum m in
            let m2 = record m1 { requested = m1.requested ++ (k ∷ []) } in
            rw (at, differs, compare_catalog, behind)
              (
                compare_catalog_keeps now keys k m2
                    (start_recovery-Recovers now k m.recovery_quorum m),
                compare_catalog-Recovers s now keys m2 (ap (λ d. d.store) frame.0 ∙ h),
              )
      ]

  start_full_sync_lem :
      (identity : Bytes) (peers : List Peer) (m : Mycelium w)
      → (start_full_sync identity peers m).1 ≡ true
      → (start_full_sync identity peers m).0 ≡ record m { full_sync_peer = identity }
  unfolding start_full_sync
  start_full_sync_lem identity peers m sent = ground arith

  -- A full synchronisation whose request was sent, and then a catalog from that peer, its session
  -- still trusted: no error; the keys of the catalog of which the store has another version, and
  -- no others, are requested, in the order of the catalog, after what was requested before; each of
  -- them is being recovered; nothing is stored, and the next catalog is not asked for any more.
  pub handle_catalog-start_full_sync :
      (now : ℕ) (identity : Bytes) (peers : List Peer) (peer : Peer) (keys : GoMap Version)
      (m : Mycelium w)
      → (start_full_sync identity peers m).1 ≡ true
      → peer.identity ≡ identity
      → peer.trusted ≡ true
      → ((handle_catalog now peer keys (start_full_sync identity peers m).0).1 ≡ ok tt)
        × ((handle_catalog now peer keys (start_full_sync identity peers m).0).0.requested
            ≡ m.requested ++ behind w m.db.store keys)
        × ((handle_catalog now peer keys (start_full_sync identity peers m).0).0.db ≡ m.db)
        × ((handle_catalog now peer keys (start_full_sync identity peers m).0).0.full_sync_peer
            ≡ [])
        × All
            (λ k. Recovers k (handle_catalog now peer keys (start_full_sync identity peers m).0).0)
            (behind w m.db.store keys)
  unfolding handle_catalog
  handle_catalog-start_full_sync now identity peers peer keys m sent named trusted =
      let m1 = record m { full_sync_peer = [] } in
      let (fine, asked, same, off) = compare_catalog-behind m.db.store now keys m1 refl in
      rw
        (
          start_full_sync_lem identity peers m sent,
          handle_catalog,
          named,
          trusted,
          bytes_eq_refl identity,
        )
        (fine, asked, same, off, compare_catalog-Recovers m.db.store now keys m1 refl)
