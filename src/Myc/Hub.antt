-- ===== src/Myc/Hub.antt =====
-- The peers that a node is connected to: `Bind`, `handler` and `handlerDisconnect` of
-- myc/mycelium.go, and what `membershipConnecter` of myc/membership.go connects to.
pub mod Bound
use sporedb.Common.{
  ℕ, ◌==◌, ltb, Bool, true, false, not, Option, none, some, List, [], ◌∷◌, ◌++◌, length, Bytes,
  bytes_eq, any, map, get_elem?, Result, ok, err, panic, stuck, if◌then◌else◌,
}
use sporedb.Myc.Nodes.{Node, equals, is_zero, peer_connected, refresh_nodes}

-- A Go channel
pub data Channel : Type 0 where
  nil_channel open_channel closed_channel : Channel

-- `Peer`; `key` tells the objects apart.
pub record Link : Type 0 where
  pub key : ℕ
  pub node : Node
  pub channel : Channel
  pub stopped : Bool
  pub ready : Bool
  pub trusted : Bool

-- What these functions read and change of `Mycelium`; `self` is the identity of the node, and
-- `locked` is whether somebody holds the mutex between two calls.
pub record Hub : Type 0 where
  pub links : List Link
  pub nodes : List Node
  pub self : Bytes
  pub locked : Bool

abbrev pub HubCall : Type 0
HubCall = Hub × Result (Unit {0})

-- `Peer.Close`: a channel that is nil or closed cannot be closed.
unfoldable pub close : Link → Link × Result (Unit {0})
close p = elim p.channel [
  | nil_channel ↦ (p, panic)
  | open_channel ↦ (record p { channel = closed_channel; stopped = true }, ok tt)
  | closed_channel ↦ (p, panic)
]

-- The list without the first peer that is the same object
unfoldable pub remove_link : ℕ → List Link → List Link
remove_link key [] = []
remove_link key (p ∷ links) =
    let rest = remove_link key links in if p.key == key then links else p ∷ rest

-- `handlerDisconnect`
unfoldable pub handler_disconnect : Link → Hub → HubCall
unfolding close remove_link
handler_disconnect p m =
    if m.locked then (m, stuck) else (record m { links = remove_link p.key m.links }, (close p).1)

-- Is there a peer that is equal?
unfoldable pub is_bound : Node → List Link → Bool
is_bound node links = any (λ p. equals node p.node) links

-- A new peer, whose channel is there from the beginning
abbrev pub new_link : ℕ → Node → Link
new_link key node = record {
  key = key;
  node = node;
  channel = open_channel;
  stopped = false;
  ready = false;
  trusted = false;
}

-- The end of `Bind`: the peer is ready, and its node is known.
unfoldable pub ready_link : Link → Bytes → Bool → Link
ready_link p identity trusted = record p {
  node = record p.node { identity = identity };
  ready = true;
  trusted = trusted;
}

-- `Bind`, given the object of the peer, whether a connection was made, and what the handshake gave:
-- the identity of the peer and whether the session is trusted
unfoldable pub bind : ℕ → Node → Result (Unit {0}) → Result (Bytes × Bool) → Hub → HubCall
unfolding is_bound handler_disconnect ready_link
bind key n connects greets m =
    if m.locked
    then (m, stuck)
    else if is_bound n m.links
    then (record m { locked = true }, ok tt)
    else let p = new_link key n in
      let m1 = record m { links = m.links ++ (p ∷ []) } in
      elim connects [
        | ok _ ↦ elim greets [
          | ok (identity, trusted) ↦
              if bytes_eq identity m.self
              then handler_disconnect p m1
              else let p1 = ready_link p identity trusted in
                (
                  record m { links = m.links ++ (p1 ∷ []); nodes = refresh_nodes p1.node m.nodes },
                  ok tt,
                )
          | err _ ↦ handler_disconnect p m1
          | panic ↦ (m1, panic)
          | stuck ↦ (m1, stuck)
        ]
        | err e ↦ (m1, err e)
        | panic ↦ (m1, panic)
        | stuck ↦ (m1, stuck)
      ]

-- A peer that has connected, as `Listen` makes it
abbrev pub incoming_link : ℕ → Bytes → Link
incoming_link key address = record (new_link key (record { address = address; identity = [] })) {
  channel = nil_channel;
}

-- `handler` on an incoming connection, given what its greeting gave, whether the answer was
-- written, and whether the session was opened; a peer that is refused is left as it is.
unfoldable pub handler : Link → Result (Bytes × Bool) → Bool → Bool → Hub → Hub × Result (Unit {0})
unfolding is_bound
handler p greets answers opens m = elim greets [
  | ok (identity, trusted) ↦
      if not answers
      then (m, ok tt)
      else if m.locked
      then (m, stuck)
      else if not opens
      then (m, ok tt)
      else let node = record p.node { identity = identity } in
        if is_bound node m.links then (m, ok tt) else (
          record m {
            links =
                m.links
                ++ (record p {
                  node = node;
                  channel = open_channel;
                  ready = true;
                  trusted = trusted;
                }
                    ∷ []);
          },
          ok tt,
        )
  | err _ ↦ (m, ok tt)
  | panic ↦ (m, panic)
  | stuck ↦ (m, stuck)
]

abbrev pub node_of : Link → Node
node_of p = p.node

-- The loop of `membershipConnecter` over the permutation: the first node without a connection
unfoldable pub find_node : List Node → List Node → List ℕ → Option Node
find_node nodes connected [] = none
find_node nodes connected (i ∷ order) =
    let rest = find_node nodes connected order in
    elim (get_elem? nodes i) [
      | none ↦ rest
      | some n ↦ if peer_connected connected n then rest else some n
    ]

-- The node that `membershipConnecter` binds in a round, if any
unfoldable pub node_to_bind : ℕ → List ℕ → Hub → Option Node
unfolding find_node
node_to_bind connectivity order m =
    if ltb (length m.links) connectivity
    then elim (find_node m.nodes (map node_of m.links) order) [
      | none ↦ none
      | some n ↦ if is_zero n then none else some n
    ]
    else none
