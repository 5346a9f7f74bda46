-- ===== src/Myc/Hub/Bound.antt =====
-- What connections leave of the list of peers and of the mutex.
use sporedb.Common.{
  ℕ, ◌<◌, ◌≡◌, refl, arith, ◌==◌, Bool, true, false, not, ◌&&◌, inl, inr, some, Option-cases, List,
  [], ◌∷◌, ◌++◌, length, Bytes, bytes_eq, bytes_eq_iff, bytes_eq_comm, bytes_eq_refl, ap, ◌∙◌, map,
  get_elem?, Result, ok, stuck,
}
use sporedb.Myc.Nodes.{
  Node, equals, peer_connected, is_zero, has_address, refresh_nodes-has_address,
}
use sporedb.Myc.Hub.{
  Link, Hub, HubCall, remove_link, handler_disconnect, is_bound, new_link, ready_link, bind,
  handler, node_of, find_node, node_to_bind,
}

-- No peer is the object
abbrev pub is_new : ℕ → List Link → Bool
is_new key [] = true
is_new key (p ∷ links) = not (p.key == key) && is_new key links

remove_link-append :
    (p : Link) (links : List Link)
    → is_new p.key links ≡ true
    → remove_link p.key (links ++ (p ∷ [])) ≡ links
unfolding remove_link
remove_link-append p [] h = ground arith
remove_link-append p (q ∷ links) h = ground (arith, remove_link-append p links)

-- A `Bind` whose handshake finds the node itself leaves the peers as they were.
bind-own :
    (key : ℕ) (n : Node) (identity : Bytes) (trusted : Bool) (m : Hub)
    → m.locked ≡ false
    → is_bound n m.links ≡ false
    → is_new key m.links ≡ true
    → bytes_eq identity m.self ≡ true
    → (bind key n (ok tt) (ok (identity, trusted)) m).0.links ≡ m.links
unfolding bind handler_disconnect
bind-own key n identity trusted m free unbound new own =
    ground (arith, free, unbound, own, remove_link-append (new_link key n) m.links)

-- Any other adds the peer, which is ready, and its address is among the nodes.
bind-other :
    (key : ℕ) (n : Node) (identity : Bytes) (trusted : Bool) (m : Hub)
    → m.locked ≡ false
    → is_bound n m.links ≡ false
    → bytes_eq identity m.self ≡ false
    → let done = (bind key n (ok tt) (ok (identity, trusted)) m).0 in
      (done.links ≡ m.links ++ (ready_link (new_link key n) identity trusted ∷ []))
      × (has_address n.address done.nodes ≡ true)
unfolding bind ready_link
bind-other key n identity trusted m free unbound other = ground (
  arith,
  free,
  unbound,
  other,
  refresh_nodes-has_address (record n { identity = identity }) m.nodes,
)

equals_comm : (a b : Node) → equals a b ≡ equals b a
unfolding equals
equals_comm a b = ground (
  arith,
  bytes_eq_comm a.address b.address,
  bytes_eq_iff a.address b.address,
  bytes_eq_iff a.identity b.identity,
  bytes_eq_comm a.identity b.identity,
)

peer_connected-is_bound :
    (n : Node) (links : List Link) → peer_connected (map node_of links) n ≡ is_bound n links
unfolding peer_connected is_bound
peer_connected-is_bound n [] = refl
peer_connected-is_bound n (p ∷ links) =
    ground (arith, peer_connected-is_bound n links, equals_comm n p.node)

find_node-free :
    (nodes connected : List Node) (order : List ℕ) (n : Node)
    → find_node nodes connected order ≡ some n
    → peer_connected connected n ≡ false
unfolding find_node
find_node-free nodes connected [] n h = cc
find_node-free nodes connected (i ∷ order) n h = elim (Option-cases (get_elem? nodes i)) [
  | inl x ↦ find_node-free nodes connected order n (rw (x, find_node) at h)
  | inr (n2, x) ↦ ground (arith, rw (x, find_node) at h, find_node-free nodes connected order n)
]

node_to_bind_lem :
    (connectivity : ℕ) (order : List ℕ) (m : Hub) (n : Node)
    → node_to_bind connectivity order m ≡ some n
    → (is_zero n ≡ false) × (is_bound n m.links ≡ false) × (length m.links < connectivity)
unfolding node_to_bind
node_to_bind_lem connectivity order m n h =
    elim (Option-cases (find_node m.nodes (map node_of m.links) order)) [
      | inl x ↦ ground (arith, h, x)
      | inr (n2, x) ↦ ground (
        arith,
        h,
        x,
        find_node-free m.nodes (map node_of m.links) order n2 x,
        peer_connected-is_bound n2 m.links,
      )
    ]

bind-locked :
    (key : ℕ) (n : Node) (connects : Result (Unit {0})) (greets : Result (Bytes × Bool)) (m : Hub)
    → m.locked ≡ false
    → is_bound n m.links ≡ false
    → (bind key n connects greets m).0.locked ≡ false
unfolding bind handler_disconnect
bind-locked key n connects greets m free unbound = ground (arith, free, unbound)

-- The node that `membershipConnecter` takes has an address and is not bound, and there are fewer
-- peers than the connectivity asks for; and however its `Bind` ends, the mutex is free.
pub node_to_bind-bind :
    (connectivity key : ℕ) (order : List ℕ) (n : Node) (connects : Result (Unit {0}))
    (greets : Result (Bytes × Bool)) (m : Hub)
    → m.locked ≡ false
    → node_to_bind connectivity order m ≡ some n
    → (is_zero n ≡ false)
      × (is_bound n m.links ≡ false)
      × (length m.links < connectivity)
      × ((bind key n connects greets m).0.locked ≡ false)
node_to_bind-bind connectivity key order n connects greets m free taken =
    let (named, unbound, few) = node_to_bind_lem connectivity order m n taken in
    (named, unbound, few, bind-locked key n connects greets m free unbound)

-- What comes to the hub: a `Bind`, the end of a connection, and the greeting of an incoming one
pub data HubEvent : Type 0 where
  binds : ℕ → Node → Result (Unit {0}) → Result (Bytes × Bool) → HubEvent
  ends : Link → HubEvent
  greets : Link → Result (Bytes × Bool) → Bool → Bool → HubEvent

abbrev pub on_event : HubEvent → Hub → HubCall
on_event (binds key n connects answer) m = bind key n connects answer m
on_event (ends p) m = handler_disconnect p m
on_event (greets p answer writes opens) m = handler p answer writes opens m

abbrev pub on_events : List HubEvent → Hub → Hub
on_events [] m = m
on_events (e ∷ events) m = on_events events (on_event e m).0

-- Does the event come to the mutex? A greeting that is refused, or not answered, does not.
abbrev pub IsLocking : HubEvent → Type 0
IsLocking (binds key n connects answer) = Unit
IsLocking (ends p) = Unit
IsLocking (greets p answer writes opens) = (writes ≡ true) × ((g : Bytes × Bool) × (answer ≡ ok g))

on_event-locked : (e : HubEvent) (m : Hub) → m.locked ≡ true → (on_event e m).0 ≡ m
unfolding bind handler_disconnect handler
on_event-locked (binds key n connects answer) m held = rw (held, bind) refl
on_event-locked (ends p) m held = rw (held, handler_disconnect) refl
on_event-locked (greets p answer writes opens) m held = ground (arith, held)

on_events-locked : (events : List HubEvent) (m : Hub) → m.locked ≡ true → on_events events m ≡ m
on_events-locked [] m held = refl
on_events-locked (e ∷ events) m held =
    ap (on_events events) (on_event-locked e m held) ∙ on_events-locked events m held

on_event-stuck : (e : HubEvent) (m : Hub) → m.locked ≡ true → IsLocking e → (on_event e m).1 ≡ stuck
unfolding bind handler_disconnect handler
on_event-stuck (binds key n connects answer) m held h = rw (held, bind) refl
on_event-stuck (ends p) m held h = rw (held, handler_disconnect) refl
on_event-stuck (greets p answer writes opens) m held (w, (g, a)) = rw (a, w, held, handler) refl

equals-same_address :
    (n : Node) (identity : Bytes)
    → is_zero n ≡ false
    → equals n (record n { identity = identity }) ≡ true
unfolding equals is_zero
equals-same_address n identity h = ground (arith, bytes_eq_refl n.address)

is_bound-last :
    (n : Node) (links : List Link) (p : Link)
    → equals n p.node ≡ true
    → is_bound n (links ++ (p ∷ [])) ≡ true
unfolding is_bound
is_bound-last n [] p h = ground (arith, h)
is_bound-last n (q ∷ links) p h = ground (arith, is_bound-last n links p h)

bind-bound :
    (key : ℕ) (n : Node) (connects : Result (Unit {0})) (answer : Result (Bytes × Bool)) (m : Hub)
    → m.locked ≡ false
    → is_bound n m.links ≡ true
    → bind key n connects answer m ≡ (record m { locked = true }, ok tt)
unfolding bind
bind-bound key n connects answer m free bound = rw (free, bound, bind) refl

-- A node with an address, which is bound with success, to another identity than the own one, and is
-- then bound once more: the second `Bind` returns without an error and leaves the peers as they are,
-- but whatever comes afterwards, any number of times and in any order, nothing is ever changed again,
-- neither the peers nor the known nodes, and every `Bind`, every end of a connection and every
-- greeting that is taken waits for ever.
pub bind_again-stuck :
    (key key2 : ℕ) (n : Node) (identity : Bytes) (trusted : Bool) (connects : Result (Unit {0}))
    (answer : Result (Bytes × Bool)) (m : Hub) (events : List HubEvent) (e : HubEvent)
    → IsLocking e
    → m.locked ≡ false
    → is_zero n ≡ false
    → is_bound n m.links ≡ false
    → bytes_eq identity m.self ≡ false
    → let once = (bind key n (ok tt) (ok (identity, trusted)) m).0 in
      let twice = bind key2 n connects answer once in
      (twice.1 ≡ ok tt)
      × (twice.0.links ≡ m.links ++ (ready_link (new_link key n) identity trusted ∷ []))
      × (on_events events twice.0 ≡ twice.0)
      × ((on_event e (on_events events twice.0)).1 ≡ stuck)
bind_again-stuck key key2 n identity trusted connects answer m events e h free named unbound other =
    let once = (bind key n (ok tt) (ok (identity, trusted)) m).0 in
    let (links, known) = bind-other key n identity trusted m free unbound other in
    let bound : is_bound n once.links ≡ true =
      ap (is_bound n) links
      ∙ is_bound-last n m.links (ready_link (new_link key n) identity trusted)
          (unfold ready_link in equals-same_address n identity named) in
    let again =
      bind-bound key2 n connects answer once
        (bind-locked key n (ok tt) (ok (identity, trusted)) m free unbound) bound in
    let held : (bind key2 n connects answer once).0.locked ≡ true = ap (λ c. c.0.locked) again in
    (
      ap (λ c. c.1) again,
      ap (λ c. c.0.links) again ∙ links,
      on_events-locked events _ held,
      ap (λ x. (on_event e x).1) (on_events-locked events _ held) ∙ on_event-stuck e _ held h,
    )
