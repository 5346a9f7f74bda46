-- ===== src/Myc/Nodes.antt =====
-- myc/protocol/node.go and the list of nodes of myc/membership.go: which nodes are one, and the
-- nodes that a node knows of.
use sporedb.Common.{
  ◌≡◌, ◌≢◌, none, some, arith, Bool, true, false, not, ◌&&◌, ◌||◌, ◌==◌, List, [], ◌∷◌, ◌++◌, Bytes,
  bytes_eq, bytes_eq_refl, GoMap, lookup, length, any, if◌then◌else◌, Bool-cases, inl, inr, All,
}

-- `protocol.Node`
pub record Node : Type 0 where
  pub address : Bytes
  pub identity : Bytes

-- `Node.Equals`
unfoldable pub equals : Node → Node → Bool
equals n n2 =
    (not (length n.address == 0) && bytes_eq n.address n2.address)
    || (not (length n.identity == 0) && bytes_eq n.identity n2.identity)

-- `Node.Zero`
unfoldable pub is_zero : Node → Bool
is_zero n = length n.address == 0

-- `peerConnected`, on the nodes of the peers
unfoldable pub peer_connected : List Node → Node → Bool
unfolding equals
peer_connected [] node = false
peer_connected (p ∷ peers) node = equals p node || peer_connected peers node

-- The test of `filterIncomingNodes`
unfoldable pub is_incoming : GoMap Bool → List Node → Node → Bool
unfolding peer_connected
is_incoming own peers n =
    let is_own : Bool = elim (lookup n.address own) [ none ↦ false | some b ↦ b ] in
    not (length n.address == 0) && (not (peer_connected peers n) && not is_own)

-- `filterIncomingNodes`, given the addresses of the node itself
unfoldable pub filter_incoming_nodes : GoMap Bool → List Node → List Node → List Node
unfolding is_incoming
filter_incoming_nodes own peers [] = []
filter_incoming_nodes own peers (n ∷ nodes) =
    let rest = filter_incoming_nodes own peers nodes in
    if is_incoming own peers n then n ∷ rest else rest

-- The test of `refreshNodes`
unfoldable pub is_same_node : Node → Node → Bool
is_same_node node stored =
    (not (length node.identity == 0) && bytes_eq node.identity stored.identity)
    || bytes_eq node.address stored.address

-- The loop of `refreshNodes`: the nodes, and whether one was replaced.
unfoldable pub refresh_loop : Node → List Node → List Node × Bool
unfolding is_same_node
refresh_loop node [] = ([], false)
refresh_loop node (stored ∷ nodes) =
    let (rest, found) = refresh_loop node nodes in
    if is_same_node node stored then (node ∷ rest, true) else (stored ∷ rest, found)

-- `refreshNodes`
unfoldable pub refresh_nodes : Node → List Node → List Node
unfolding refresh_loop
refresh_nodes node nodes =
    let (nodes1, found) = refresh_loop node nodes in if found then nodes1 else nodes1 ++ (node ∷ [])

-- The loop of `handleNodes`
unfoldable pub refresh_all : List Node → List Node → List Node
unfolding refresh_nodes
refresh_all [] nodes = nodes
refresh_all (n ∷ incoming) nodes = refresh_all incoming (refresh_nodes n nodes)

-- `handleNodes`, for a peer that is trusted or not
unfoldable pub handle_nodes : Bool → GoMap Bool → List Node → List Node → List Node → List Node
unfolding filter_incoming_nodes refresh_all
handle_nodes trusted own peers incoming nodes =
    if trusted then refresh_all (filter_incoming_nodes own peers incoming) nodes else nodes

-- Does a node of the list have the address?
abbrev pub has_address : Bytes → List Node → Bool
has_address a nodes = any (λ n. bytes_eq n.address a) nodes

refresh_loop-found :
    (node : Node) (nodes : List Node)
    → (refresh_loop node nodes).1 ≡ true
    → has_address node.address (refresh_loop node nodes).0 ≡ true
unfolding refresh_loop
refresh_loop-found node [] h = cc
refresh_loop-found node (s ∷ nodes) h =
    ground (arith, refresh_loop-found node nodes, bytes_eq_refl node.address)

has_address-append :
    (a : Bytes) (nodes : List Node) (n : Node)
    → has_address a (nodes ++ (n ∷ [])) ≡ (has_address a nodes || bytes_eq n.address a)
has_address-append a [] n = ground arith
has_address-append a (m ∷ nodes) n = ground (arith, has_address-append a nodes n)

-- After `refreshNodes` the list has the node's address.
pub refresh_nodes-has_address :
    (node : Node) (nodes : List Node) → has_address node.address (refresh_nodes node nodes) ≡ true
unfolding refresh_nodes
refresh_nodes-has_address node nodes = ground (
  arith,
  refresh_loop-found node nodes,
  bytes_eq_refl node.address,
  has_address-append node.address (refresh_loop node nodes).0 node,
)

-- A node with an address, which is none of the own ones, that is not connected
abbrev pub IsNew : GoMap Bool → List Node → Node → Type 0
IsNew own peers n =
    (is_zero n ≡ false) × (peer_connected peers n ≡ false) × (lookup n.address own ≢ some true)

is_incoming-IsNew :
    (own : GoMap Bool) (peers : List Node) (n : Node)
    → is_incoming own peers n ≡ true
    → IsNew own peers n
unfolding is_incoming is_zero
is_incoming-IsNew own peers n h = (ground arith, ground arith, λ e. ground arith)

-- The nodes that `filterIncomingNodes` lets through have an address, which is none of the node's
-- own, and are not connected.
pub filter_incoming_nodes-IsNew :
    (own : GoMap Bool) (peers nodes : List Node)
    → All (IsNew own peers) (filter_incoming_nodes own peers nodes)
unfolding filter_incoming_nodes
filter_incoming_nodes-IsNew own peers [] = unfold filter_incoming_nodes in tt
filter_incoming_nodes-IsNew own peers (n ∷ nodes) =
    let rest = filter_incoming_nodes-IsNew own peers nodes in
    elim (Bool-cases (is_incoming own peers n)) [
      | inl passes ↦ rw (passes, filter_incoming_nodes) (is_incoming-IsNew own peers n passes, rest)
      | inr fails ↦ rw (fails, filter_incoming_nodes) rest
    ]
