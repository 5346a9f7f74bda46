-- ===== src/Myc/Router.antt =====
-- The routines that put a node together: `router` of myc/router.go, which hands the calls of a peer to
-- their handlers, `broadcaster` of myc/broadcast.go, which hands the messages of the database to the
-- peers, and the rounds of myc/membership.go.
pub mod Spores
pub mod Kept
pub mod Effects
use sporedb.Common.{
  ℕ, Bool, true, false, Option, none, some, List, [], ◌∷◌, ◌++◌, Bytes, GoMap, insert, int_ltb,
  Result, ok, err, panic, stuck, if◌then◌else◌,
}
use sporedb.Version.{Version}
use sporedb.Spore.{Spore}
use sporedb.World.{World}
use sporedb.Db.{Db, Endorsement, Message, spore_message, endorsement_message}
use sporedb.Myc.Nodes.{Node, handle_nodes}
use sporedb.Myc.Requests.{RequestCache}
use sporedb.Myc.Gossip.{Gossip, handle_gossip_proposal, handle_gossip_request}
use sporedb.Myc.Relay.{
  Body, Relay, spore_body, endorsement_body, gossip_body, recover_body, nodes_body, send_all, Sent,
  broadcast, handle_spore, try_endorsement,
}
use sporedb.Myc.Recovery.{
  Raw, Recovery, Peer, Texts, Mycelium, handle_raw, handle_catalog, start_recovery,
}
use sporedb.Myc.Recovery.Answer.{Answer, handle_recover_request, start_full_sync}
use sporedb.Myc.Rounds.{choose_nodes}

-- A call of a peer, by its function and its message
pub data Received : Type 0 where
  spore_call : Spore → Received
  endorsement_call : Endorsement → Received
  gossip_call : Gossip → Received
  recover_call : Bytes → Received
  raw_call : Raw → Received
  catalog_call : GoMap Version → Received
  nodes_call : List Node → Received

-- The peer: its place in `Peers`, its node, its identity and the trust in its session
pub record From : Type 0 where
  pub place : ℕ
  pub node : Node
  pub peer : Peer

-- `Mycelium`, with the database
pub record Whole (w : World) (C : Type 0) : Type 0 where
  pub relay : Relay w C
  pub recoveries : GoMap Recovery
  pub full_sync_peer : Bytes
  pub recovery_quorum : ℕ
  pub requested : List Bytes
  pub nodes : List Node
  pub connected : List Node
  pub self_addresses : GoMap Bool
  pub max_requests : ℕ

module _ {w : World} {C : Type 0} where
  -- What recoveries read and change
  abbrev pub mycelium_of : Whole w C → Mycelium w
  mycelium_of m = record {
    db = m.relay.db;
    recoveries = m.recoveries;
    full_sync_peer = m.full_sync_peer;
    recovery_quorum = m.recovery_quorum;
    requested = m.requested;
  }

  abbrev pub with_mycelium : Mycelium w → Whole w C → Whole w C
  with_mycelium r m = record m {
    relay = record m.relay { db = r.db };
    recoveries = r.recoveries;
    full_sync_peer = r.full_sync_peer;
    requested = r.requested;
  }

  -- What is written to the peer
  abbrev pub reply : ℕ → List Bytes → Relay w C → Relay w C
  reply place [] r = r
  reply place (packed ∷ l) r =
      reply place l (record r { sent = r.sent ++ (record { peer = place; packed = packed } ∷ []) })

-- The packages that are called: the cache of requests, the packing of calls and of answers, the texts
-- and the listing of a store
pub record Setting (w : World) (C : Type 0) : Type 0 where
  pub cache : RequestCache C
  pub pack : Body → Result Bytes
  pub pack_answer : Answer → Result Bytes
  pub texts : Texts
  pub list : w.S → Result (GoMap Version)

-- The clock, in seconds and in nanoseconds, and the permutations of the peers: of a broadcast, and of
-- each of those that a catalog leads to
pub record Moment : Type 0 where
  pub now : ℕ
  pub nanoseconds : ℕ
  pub order : List ℕ
  pub orders : List (List ℕ)

module _ {w : World} {C : Type 0} (g : Setting w C) where
  -- The requests that `handleCatalog` broadcasts
  unfoldable pub request_keys : List (List ℕ) → List Bytes → Relay w C → Relay w C
  request_keys orders [] r = r
  request_keys [] (k ∷ keys) r =
      request_keys [] keys (broadcast g.cache g.pack [] none (recover_body k) r)
  request_keys (order ∷ orders) (k ∷ keys) r =
      request_keys orders keys (broadcast g.cache g.pack order none (recover_body k) r)

  -- The `switch` of `router`. Of `handleEndorsement` it is one round of its loop: a call whose
  -- endorsement has no spore yet comes again after its sleep.
  unfoldable pub dispatch : Moment → From → Received → Whole w C → Whole w C × Result (Unit {0})
  dispatch t p (spore_call s) m =
      let (r, x) = handle_spore g.cache g.pack t.now t.order p.place s m.relay in
      (record m { relay = r }, x)
  dispatch t p (endorsement_call e) m =
      let (r, x) = try_endorsement g.cache g.pack (λ n r. r) 1 t.order p.place e m.relay in
      (record m { relay = r }, x)
  dispatch t p (gossip_call q) m = elim q.request [
    | true ↦ (
      record m {
        relay =
            reply p.place
              (handle_gossip_request g.cache m.max_requests (λ x. g.pack (gossip_body x)) q.spores
                m.relay.cache)
              m.relay;
      },
      ok tt,
    )
    | false ↦
        let (c, sent) =
          handle_gossip_proposal g.cache m.max_requests (λ x. g.pack (gossip_body x)) p.node q
            m.relay.cache in
        (record m { relay = reply p.place sent (record m.relay { cache = c }) }, ok tt)
  ]
  dispatch t p (recover_call key) m =
      elim (handle_recover_request g.list g.texts g.pack_answer key m.relay.db) [
        | ok sent ↦ (record m { relay = reply p.place sent m.relay }, ok tt)
        | err _ ↦ (m, ok tt)
        | panic ↦ (m, panic)
        | stuck ↦ (m, stuck)
      ]
  dispatch t p (raw_call raw) m =
      let (r, x) = handle_raw g.texts t.nanoseconds p.peer raw (mycelium_of m) in
      (with_mycelium r m, x)
  dispatch t p (catalog_call keys) m =
      let (r, x) =
        handle_catalog t.nanoseconds p.peer keys (record (mycelium_of m) { requested = [] }) in
      let m1 = with_mycelium r m in
      (
        record m1 {
          relay = request_keys t.orders r.requested m1.relay;
          requested = m.requested ++ r.requested;
        },
        x,
      )
  dispatch t p (nodes_call l) m = (
    record m { nodes = handle_nodes p.peer.trusted m.self_addresses m.connected l m.nodes },
    ok tt,
  )

  -- The call of a message of the database
  abbrev pub body_of : Message → Body
  body_of (spore_message s) = spore_body s
  body_of (endorsement_message e) = endorsement_body e

  -- One round of `broadcaster`, for a message of the database or the request for a key
  unfoldable pub broadcast_message : Moment → Message → Whole w C → Whole w C
  broadcast_message t x m = record m {
    relay = broadcast g.cache g.pack t.order none (body_of x) m.relay;
  }

  unfoldable pub broadcast_request : Moment → Bytes → Whole w C → Whole w C
  broadcast_request t key m =
      let m1 =
        with_mycelium (start_recovery t.nanoseconds key m.recovery_quorum (mycelium_of m)) m in
      record m1 { relay = broadcast g.cache g.pack t.order none (recover_body key) m1.relay }

  -- The nodes of a round are broadcast, if there are any.
  unfoldable pub tell : Moment → List Node → Whole w C → Whole w C
  tell t [] m = m
  tell t (n ∷ ns) m = record m {
    relay = broadcast g.cache g.pack t.order none (nodes_body (n ∷ ns)) m.relay;
  }

  -- One round of `membershipBroadcaster`, given the permutation of the nodes
  unfoldable pub broadcast_nodes : Moment → List ℕ → Whole w C → Whole w C
  unfolding tell
  broadcast_nodes t places m = tell t (choose_nodes m.relay.fanout m.nodes 0 places) m

-- `MyceliumConfig`; the quorum is a 64-bit pattern.
pub record Config (w : World) : Type 0 where
  pub own_addresses : List Bytes
  pub listen : Bytes
  pub bootstrap : List Node
  pub db : Db w
  pub quorum : ℕ

-- The addresses of the node itself, as a map
unfoldable pub addresses_of : List Bytes → GoMap Bool → GoMap Bool
addresses_of [] m = m
addresses_of (a ∷ l) m = addresses_of l (insert a true m)

-- `NewMycelium`, over a new cache: the state in which its routines start
unfoldable pub new_mycelium : {w : World} {C : Type 0} → C → Config w → Whole w C
unfolding addresses_of
new_mycelium c g = record {
  relay = record { db = g.db; cache = c; ready = []; fanout = 10; sent = [] };
  recoveries = [];
  full_sync_peer = [];
  recovery_quorum = if int_ltb 0 g.quorum then g.quorum else 2;
  requested = [];
  nodes = g.bootstrap;
  connected = [];
  self_addresses = addresses_of g.own_addresses (insert g.listen true []);
  max_requests = 0;
}
