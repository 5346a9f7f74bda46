-- ===== src/Myc/Router/Effects.antt =====
-- What each call of a peer can do to the database of a node.
use sporedb.Common.{
  ◌≤◌, ◌≡◌, ◌⊎◌, refl, true, List, [], ◌∷◌, Bytes, All, IsUnique, lookup, some, ok, Bool-cases,
  arith, Result-cases, inl, inr, sym, subst,
}
use sporedb.World.{World}
use sporedb.Db.{Db}
use sporedb.Db.Endorse.{endorse}
use sporedb.Db.Collect.{add_endorsement}
use sporedb.Myc.Nodes.{Node}
use sporedb.Myc.Relay.{gossip_body}
use sporedb.Myc.Gossip.{handle_gossip_request, handle_gossip_proposal}
use sporedb.Myc.Recovery.{Raw, Recovery, Peer, Mycelium, get_message}
use sporedb.Myc.Recovery.Answer.{handle_recover_request, start_full_sync}
use sporedb.Myc.Recovery.Quorum.{votes}
use sporedb.Myc.Recovery.Sound.{SoundAt, Fits, IsSound, answered, handle_raw_stores}
use sporedb.Myc.Recovery.Reach.{answer, catalog, started, after_event-IsSound}
use sporedb.Myc.Router.{
  Received, spore_call, endorsement_call, gossip_call, recover_call, raw_call, catalog_call,
  nodes_call, From, Whole, mycelium_of, Setting, Moment, dispatch, broadcast_message,
  broadcast_request, broadcast_nodes, tell,
}
use sporedb.Myc.Router.Kept.{
  Reach, here, called, happened, broadcasted, requested, told, synchronised,
}
use sporedb.Myc.Router.Spores.{handle_spore-db, try_endorsement-db, reply-db, catalog-db}

module _ {w : World} {C : Type 0} (g : Setting w C) where
  -- The database with a value for the key of the answer, under the conditions: a recovery of the key
  -- is open, the peer is trusted and has signed its answer, with it a quorum of distinct peers have
  -- answered with the version of the value, and that fits the value.
  abbrev pub Stores : From → Raw → Whole w C → Db w → Type 0
  Stores p raw m db =
      (r : Recovery) × (x : Raw) × (store' : w.S) × (lookup raw.key m.recoveries ≡ some r)
      × (p.peer.trusted ≡ true)
      × (w.keys.verify m.relay.db.keyring p.peer.identity (get_message g.texts raw) raw.signature
          ≡ ok tt)
      × (r.quorum ≤ votes g.texts (g.texts.version_text x.version) (answered p.peer raw r).answers)
      × IsUnique (answered p.peer raw r).answers
      × Fits w.sha512 raw.key x
      × (w.store.set m.relay.db.store (record { key = x.key; value = x.data'; version = x.version })
          ≡ ok store')
      × (db ≡ record m.relay.db { store = store' })

  -- What a call leads to
  abbrev pub Effect : Moment → From → Received → Whole w C → Db w → Type 0
  Effect t p (spore_call s) m db = db ≡ (endorse t.now s m.relay.db).0
  Effect t p (endorsement_call e) m db = db ≡ (add_endorsement e m.relay.db).0
  Effect t p (gossip_call q) m db = db ≡ m.relay.db
  Effect t p (recover_call key) m db = db ≡ m.relay.db
  Effect t p (raw_call raw) m db = (db ≡ m.relay.db) ⊎ Stores p raw m db
  Effect t p (catalog_call keys) m db = db ≡ m.relay.db
  Effect t p (nodes_call l) m db = db ≡ m.relay.db

  gossip-same :
      (t : Moment) (p : From) (q : sporedb.Myc.Gossip.Gossip) (m : Whole w C)
      → ((dispatch g t p (gossip_call q) m).0.relay.db ≡ m.relay.db)
        × ((dispatch g t p (gossip_call q) m).0.recoveries ≡ m.recoveries)
  unfolding dispatch
  gossip-same t p q m = elim (Bool-cases q.request) [
    | inl x ↦
        let sent =
          handle_gossip_request g.cache m.max_requests (λ b. g.pack (gossip_body b)) q.spores
            m.relay.cache in
        rw (x, dispatch) (reply-db p.place sent m.relay, refl)
    | inr x ↦
        let (c, sent) =
          handle_gossip_proposal g.cache m.max_requests (λ b. g.pack (gossip_body b)) p.node q
            m.relay.cache in
        rw (x, dispatch) (reply-db p.place sent (record m.relay { cache = c }), refl)
  ]

  recover-same :
      (t : Moment) (p : From) (key : Bytes) (m : Whole w C)
      → ((dispatch g t p (recover_call key) m).0.relay.db ≡ m.relay.db)
        × ((dispatch g t p (recover_call key) m).0.recoveries ≡ m.recoveries)
  unfolding dispatch
  recover-same t p key m =
      elim (Result-cases (handle_recover_request g.list g.texts g.pack_answer key m.relay.db)) [
        | inl (sent, x) ↦ rw (x, dispatch) (reply-db p.place sent m.relay, refl)
        | inr (inl (e, x)) ↦ rw (x, dispatch) (refl, refl)
        | inr (inr (inl x)) ↦ rw (x, dispatch) (refl, refl)
        | inr (inr (inr x)) ↦ rw (x, dispatch) (refl, refl)
      ]

  dispatch-IsSound :
      (t : Moment) (p : From) (x : Received) (m : Whole w C)
      → IsSound (mycelium_of m)
      → IsSound (mycelium_of (dispatch g t p x m).0)
  unfolding dispatch
  dispatch-IsSound t p (spore_call s) m h = h
  dispatch-IsSound t p (endorsement_call e) m h = h
  dispatch-IsSound t p (gossip_call q) m h =
      subst (All (SoundAt w.sha512)) (sym (gossip-same t p q m).1) h
  dispatch-IsSound t p (recover_call key) m h =
      subst (All (SoundAt w.sha512)) (sym (recover-same t p key m).1) h
  dispatch-IsSound t p (raw_call raw) m h =
      after_event-IsSound g.texts t.nanoseconds (answer p.peer raw) (mycelium_of m) h
  dispatch-IsSound t p (catalog_call keys) m h =
      after_event-IsSound g.texts t.nanoseconds (catalog p.peer keys)
        (record (mycelium_of m) { requested = [] }) h
  dispatch-IsSound t p (nodes_call l) m h = h

  tell-IsSound :
      (t : Moment) (l : List Node) (m : Whole w C)
      → IsSound (mycelium_of m)
      → IsSound (mycelium_of (tell g t l m))
  unfolding tell
  tell-IsSound t [] m h = h
  tell-IsSound t (n ∷ ns) m h = h

  start_full_sync-recoveries :
      (identity : Bytes) (peers : List Peer) (m : Mycelium w)
      → (start_full_sync identity peers m).0.recoveries ≡ m.recoveries
  unfolding start_full_sync
  start_full_sync-recoveries identity peers m = ground arith

  Reach-IsSound :
      (start m : Whole w C)
      → IsSound (mycelium_of start)
      → Reach g start m
      → IsSound (mycelium_of m)
  unfolding broadcast_message broadcast_request broadcast_nodes
  Reach-IsSound start m h here = h
  Reach-IsSound start m h (called {m = b} t p x r) =
      dispatch-IsSound t p x b (Reach-IsSound start b h r)
  Reach-IsSound start m h (happened {m = b} now e r) = Reach-IsSound start b h r
  Reach-IsSound start m h (broadcasted {m = b} t x r) = Reach-IsSound start b h r
  Reach-IsSound start m h (requested {m = b} t key r) =
      after_event-IsSound g.texts t.nanoseconds (started key b.recovery_quorum) (mycelium_of b)
        (Reach-IsSound start b h r)
  Reach-IsSound start m h (told {m = b} t places r) = tell-IsSound t _ b (Reach-IsSound start b h r)
  Reach-IsSound start m h (synchronised {m = b} identity peers r) =
      subst (All (SoundAt w.sha512))
        (sym (start_full_sync-recoveries identity peers (mycelium_of b)))
        (Reach-IsSound start b h r)

  -- In every state that a node comes to from one without recoveries, or with sound ones, a call of a
  -- peer does this to the database: a spore is endorsed as `Endorse` does it, an endorsement is taken
  -- as `AddEndorsement` does it, and an answer leaves it as it is, or a value is stored under the key
  -- of the answer. That happens only if a recovery of the key is open, the peer is trusted, its
  -- signature of the answer is valid, a quorum of distinct peers has answered with the version that is
  -- stored, and the version is that of the value, if the key is not one of the system. No other call
  -- changes the database.
  pub dispatch-Effect :
      (start m : Whole w C) (t : Moment) (p : From) (x : Received)
      → IsSound (mycelium_of start)
      → Reach g start m
      → Effect t p x m (dispatch g t p x m).0.relay.db
  unfolding dispatch
  dispatch-Effect start m t p (spore_call s) sound r =
      handle_spore-db g.cache g.pack t.now t.order p.place s m.relay
  dispatch-Effect start m t p (endorsement_call e) sound r =
      try_endorsement-db g.cache g.pack t.order p.place e m.relay
  dispatch-Effect start m t p (gossip_call q) sound r = (gossip-same t p q m).0
  dispatch-Effect start m t p (recover_call key) sound r = (recover-same t p key m).0
  dispatch-Effect start m t p (raw_call raw) sound r =
      handle_raw_stores g.texts t.nanoseconds p.peer raw (mycelium_of m)
        (Reach-IsSound start m sound r)
  dispatch-Effect start m t p (catalog_call keys) sound r = catalog-db g t p keys m
  dispatch-Effect start m t p (nodes_call l) sound r = refl
