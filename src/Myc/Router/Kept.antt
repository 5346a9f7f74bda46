-- ===== src/Myc/Router/Kept.antt =====
-- What holds of the spores of a node whatever its peers send.
use sporedb.Common.{
  ℕ, ◌≡◌, none, Result-cases, Bool-cases, List, [], ◌∷◌, Bytes, All, ok, sym, subst, ◌∙◌, inl, inr,
}
use sporedb.World.{World}
use sporedb.Db.{Db, Message}
use sporedb.Db.Upkeep
use sporedb.Db.Upkeep.{Event, received, endorsed, recovered, handle}
use sporedb.Db.Upkeep.Triggers.Events.{Reach-Keeps}
use sporedb.Myc.Relay.{gossip_body}
use sporedb.Myc.Recovery.{Peer}
use sporedb.Myc.Recovery.Answer.{handle_recover_request, start_full_sync}
use sporedb.Myc.Nodes.{Node}
use sporedb.Myc.Gossip.{handle_gossip_request, handle_gossip_proposal}
use sporedb.Myc.Router.{
  Received, spore_call, endorsement_call, gossip_call, recover_call, raw_call, catalog_call,
  nodes_call, From, Whole, mycelium_of, with_mycelium, Setting, Moment, dispatch, broadcast_message,
  broadcast_request, broadcast_nodes, tell,
}
use sporedb.Db.Upkeep.Emitters.{Distinct, AllDistinct, Distinct-IsKept}
use sporedb.Db.Upkeep.Endorsers.{Vouched, Reach-Vouched, IsIdle, IsIdle-Keeps}
use sporedb.Myc.Router.Spores.{
  broadcast-db, handle_spore-db, try_endorsement-db, reply-db, handle_raw-Takes,
  start_recovery-same, catalog-db, start_full_sync-same,
}

-- The states that a node comes to, whatever its peers send and whatever happens in its database, in
-- any order
pub data Reach {w : World} {C : Type 0} (g : Setting w C) (start : Whole w C)
    : Whole w C → Type 0 where
  here : Reach g start start
  called :
      {m : Whole w C} (t : Moment) (p : From) (x : Received)
      → Reach g start m
      → Reach g start (dispatch g t p x m).0
  happened :
      {m : Whole w C} (now : ℕ) (e : Event)
      → Reach g start m
      → Reach g start (record m { relay = record m.relay { db = (handle now e m.relay.db).0 } })
  broadcasted :
      {m : Whole w C} (t : Moment) (x : Message)
      → Reach g start m
      → Reach g start (broadcast_message g t x m)
  requested :
      {m : Whole w C} (t : Moment) (key : Bytes)
      → Reach g start m
      → Reach g start (broadcast_request g t key m)
  told :
      {m : Whole w C} (t : Moment) (places : List ℕ)
      → Reach g start m
      → Reach g start (broadcast_nodes g t places m)
  synchronised :
      {m : Whole w C} (identity : Bytes) (peers : List Peer)
      → Reach g start m
      → Reach g start (with_mycelium (start_full_sync identity peers (mycelium_of m)).0 m)

module _ {w : World} {C : Type 0} (g : Setting w C) (start : Db w) where
  same : (db db' : Db w) → db' ≡ db → Upkeep.Reach start db → Upkeep.Reach start db'
  same db db' e r = subst (Upkeep.Reach start) (sym e) r

  by :
      (now : ℕ) (e : Event) (db db' : Db w)
      → db' ≡ (handle now e db).0
      → Upkeep.Reach start db
      → Upkeep.Reach start db'
  by now e db db' x r = same _ db' x (Upkeep.next now e r)

  dispatch-Reach :
      (t : Moment) (p : From) (x : Received) (m : Whole w C)
      → Upkeep.Reach start m.relay.db
      → Upkeep.Reach start (dispatch g t p x m).0.relay.db
  unfolding dispatch handle
  dispatch-Reach t p (spore_call s) m r =
      by t.now (received s) m.relay.db _
        (handle_spore-db g.cache g.pack t.now t.order p.place s m.relay) r
  dispatch-Reach t p (endorsement_call e) m r =
      by t.now (endorsed e) m.relay.db _
        (try_endorsement-db g.cache g.pack t.order p.place e m.relay) r
  dispatch-Reach t p (gossip_call q) m r = elim (Bool-cases q.request) [
    | inl x ↦
        let sent =
          handle_gossip_request g.cache m.max_requests (λ b. g.pack (gossip_body b)) q.spores
            m.relay.cache in
        rw (x, dispatch) (same _ _ (reply-db p.place sent m.relay) r)
    | inr x ↦
        let (c, sent) =
          handle_gossip_proposal g.cache m.max_requests (λ b. g.pack (gossip_body b)) p.node q
            m.relay.cache in
        rw (x, dispatch) (same _ _ (reply-db p.place sent (record m.relay { cache = c })) r)
  ]
  dispatch-Reach t p (recover_call key) m r =
      elim (Result-cases (handle_recover_request g.list g.texts g.pack_answer key m.relay.db)) [
        | inl (sent, x) ↦ rw (x, dispatch) (same _ _ (reply-db p.place sent m.relay) r)
        | inr (inl (e, x)) ↦ rw (x, dispatch) r
        | inr (inr (inl x)) ↦ rw (x, dispatch) r
        | inr (inr (inr x)) ↦ rw (x, dispatch) r
      ]
  dispatch-Reach t p (raw_call raw) m r =
      elim (handle_raw-Takes g.texts t.nanoseconds p.peer raw (mycelium_of m)) [
        | inl e ↦ same m.relay.db _ e r
        | inr (x, e) ↦ by 0 (recovered x) m.relay.db _ e r
      ]
  dispatch-Reach t p (catalog_call keys) m r = same _ _ (catalog-db g t p keys m) r
  dispatch-Reach t p (nodes_call l) m r = r

  tell-Reach :
      (t : Moment) (l : List Node) (m : Whole w C)
      → Upkeep.Reach start m.relay.db
      → Upkeep.Reach start (tell g t l m).relay.db
  unfolding tell
  tell-Reach t [] m r = r
  tell-Reach t (n ∷ ns) m r = same _ _ (broadcast-db g.cache g.pack t.order none _ m.relay) r

-- The database of a node is always one that the events of Db/Upkeep lead to; of the event
-- `recovered`, with which a value comes to the store, nothing is said here.
pub Reach-Upkeep :
    {w : World} {C : Type 0} (g : Setting w C) (start m : Whole w C)
    → Reach g start m
    → Upkeep.Reach start.relay.db m.relay.db
unfolding broadcast_message broadcast_request broadcast_nodes
Reach-Upkeep g start m here = Upkeep.here
Reach-Upkeep g start m (called {m = b} t p x r) =
    dispatch-Reach g start.relay.db t p x b (Reach-Upkeep g start b r)
Reach-Upkeep g start m (happened {m = b} now e r) = Upkeep.next now e (Reach-Upkeep g start b r)
Reach-Upkeep g start m (broadcasted {m = b} t x r) =
    same g start.relay.db _ _ (broadcast-db g.cache g.pack t.order none _ b.relay)
      (Reach-Upkeep g start b r)
Reach-Upkeep g start m (requested {m = b} t key r) =
    same g start.relay.db _ _
      (broadcast-db g.cache g.pack t.order none _ _
        ∙ start_recovery-same t.nanoseconds key b.recovery_quorum (mycelium_of b))
      (Reach-Upkeep g start b r)
Reach-Upkeep g start m (told {m = b} t places r) =
    tell-Reach g start.relay.db t _ b (Reach-Upkeep g start b r)
Reach-Upkeep g start m (synchronised {m = b} identity peers r) =
    same g start.relay.db _ _ (start_full_sync-same identity peers (mycelium_of b))
      (Reach-Upkeep g start b r)

-- From a node without spores that has a key of its own, whatever calls its peers send, whatever is
-- broadcast, and whatever its clients, timers and tasks do, in any order: of every spore that it holds,
-- the endorsements are of distinct emitters, and each is under a name whose key belongs to an endorser
-- of the spore's policy, and is the node's own or bears a signature that this key verifies.
pub Reach-AreEndorsements :
    {w : World} {C : Type 0} (g : Setting w C) (start m : Whole w C) (own : Bytes)
    → IsIdle start.relay.db
    → w.keys.get_public start.relay.db.keyring [] ≡ ok own
    → Reach g start m
    → AllDistinct m.relay.db.staging
      × AllDistinct m.relay.db.waiting
      × All (Vouched start.relay.db) m.relay.db.staging
      × All (Vouched start.relay.db) m.relay.db.waiting
Reach-AreEndorsements g start m own idle has r =
    let db = start.relay.db in
    let up = Reach-Upkeep g start m r in
    let once =
      Reach-Keeps Distinct db (Distinct-IsKept db) m.relay.db (IsIdle-Keeps Distinct db idle) up in
    let (staged, waits) = Reach-Vouched db m.relay.db own idle has up in
    (once.staged, once.waits, staged, waits)
