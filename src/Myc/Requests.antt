-- ===== src/Myc/Requests.antt =====
-- myc/containers.go: from whom a spore was requested, and whether it was delivered.
use sporedb.Common.{
  ℕ, ◌≤◌, ◌<◌, ◌≡◌, refl, arith, Bool, true, false, ◌||◌, Option, none, some, is_some, List, [],
  ◌∷◌, ◌++◌, Bytes, length, length-append, any, leb, if◌then◌else◌, Option-cases, inl, inr, ◌⊎◌,
}
use sporedb.Myc.Nodes.{Node, equals}

-- `request`
pub record Request : Type 0 where
  pub requested_to : List Node
  pub delivered : Option Bytes

-- The package golang-lru, as a cache of requests by the identifier of a spore.
pub record RequestCache (C : Type 0) : Type 0 where
  pub get : C → Bytes → Option Request
  pub add : C → Bytes → Request → C

-- An entry that was added last is there.
pub record RequestCacheLaws {C : Type 0} (cache : RequestCache C) : Type 0 where
  pub get-add : (c : C) (k : Bytes) (r : Request) → cache.get (cache.add c k r) k ≡ some r

-- A request that nobody was asked for
abbrev pub no_request : Request
no_request = record { requested_to = []; delivered = none }

-- Is the node among those that were asked?
unfoldable pub is_requested : Node → List Node → Bool
is_requested node nodes = any (λ n. equals n node) nodes

-- `requestsContainer`, over the cache
module _ {C : Type 0} (cache : RequestCache C) where
  -- `SetDelivered`
  unfoldable pub set_delivered : Bytes → Bytes → C → C
  set_delivered uuid data' c =
      cache.add c uuid (record { requested_to = []; delivered = some data' })

  -- `IsDelivered`: the data, if they were delivered
  unfoldable pub is_delivered : Bytes → C → Option Bytes
  is_delivered uuid c = elim (cache.get c uuid) [ none ↦ none | some r ↦ r.delivered ]

  -- The number of nodes that the cache knows to have been asked for a spore.
  abbrev pub asked : Bytes → C → ℕ
  asked uuid c = elim (cache.get c uuid) [ none ↦ 0 | some r ↦ length r.requested_to ]

-- `requestsContainer`, over the cache and `maxRequests`
module _ {C : Type 0} (cache : RequestCache C) (max_requests : ℕ) where
  abbrev ask : Bytes → Node → Request → C → C × Bool
  ask uuid node r c =
      (cache.add c uuid (record r { requested_to = r.requested_to ++ (node ∷ []) }), true)

  -- `Add`
  unfoldable pub add_request : Bytes → Node → C → C × Bool
  unfolding is_requested
  add_request uuid node c = elim (cache.get c uuid) [
    | none ↦ ask uuid node no_request c
    | some r ↦
        if is_some r.delivered || leb max_requests (length r.requested_to)
        then (c, false)
        else if is_requested node r.requested_to
        then (c, false)
        else ask uuid node r c
  ]

module _ {C : Type 0} (cache : RequestCache C) (max_requests : ℕ)
    (laws : RequestCacheLaws cache) where
  -- A request that is sent is noted behind the earlier ones, which the cache has or not.
  add_request-sent :
      (uuid : Bytes) (node : Node) (c : C)
      → (add_request cache max_requests uuid node c).1 ≡ true
      → (before : List Node) × ((length before ≡ 0) ⊎ (length before < max_requests))
        × (cache.get (add_request cache max_requests uuid node c).0 uuid
            ≡ some (record { requested_to = before ++ (node ∷ []); delivered = none }))
  unfolding add_request
  add_request-sent uuid node c h = elim (Option-cases (cache.get c uuid)) [
    | inl fresh ↦ (
      [],
      inl refl,
      ground (
        arith,
        laws.get-add c uuid (record { requested_to = [] ++ (node ∷ []); delivered = none }),
      ),
    )
    | inr (r, known) ↦ (
      r.requested_to,
      inr (ground arith),
      ground
          (arith, laws.get-add c uuid (record r { requested_to = r.requested_to ++ (node ∷ []) })),
    )
  ]

  is_requested-append :
      (node other : Node) (before : List Node)
      → equals node other ≡ true
      → is_requested other (before ++ (node ∷ [])) ≡ true
  unfolding is_requested
  is_requested-append node other [] h = ground arith
  is_requested-append node other (n ∷ before) h =
      ground (arith, is_requested-append node other before h)

  -- After a request that was sent, none is sent to an equal node, as long as the cache has the entry.
  pub add_request-again :
      (uuid : Bytes) (node other : Node) (c : C)
      → (add_request cache max_requests uuid node c).1 ≡ true
      → equals node other ≡ true
      → (add_request cache max_requests uuid other (add_request cache max_requests uuid node c).0).1
        ≡ false
  add_request-again uuid node other c sent same =
      let (before, few, got) = add_request-sent uuid node c sent in
      again before (add_request cache max_requests uuid node c).0 got
    where
      again :
          (before : List Node) (c1 : C)
          → cache.get c1 uuid
            ≡ some (record { requested_to = before ++ (node ∷ []); delivered = none })
          → (add_request cache max_requests uuid other c1).1 ≡ false
      again before c1 got =
          unfold add_request in ground (arith, is_requested-append node other before same)

  -- No more nodes are asked for a spore than the limit, or one, if the limit is lower.
  pub asked-add_request :
      (uuid : Bytes) (node : Node) (c : C)
      → (add_request cache max_requests uuid node c).1 ≡ true
      → (asked cache uuid (add_request cache max_requests uuid node c).0 ≤ max_requests)
        ⊎ (asked cache uuid (add_request cache max_requests uuid node c).0 ≡ 1)
  asked-add_request uuid node c sent =
      let (before, few, got) = add_request-sent uuid node c sent in
      let size = length-append {0} before (node ∷ []) in
      rw (got, asked)
        (elim few [
          | inl none_before ↦ inr (omega (arith, size))
          | inr below ↦ inl (omega (arith, size))
        ])

  -- No spore that is delivered is requested, and the data are those delivered.
  pub add_request-set_delivered :
      (uuid data' : Bytes) (node : Node) (c : C)
      → ((add_request cache max_requests uuid node (set_delivered cache uuid data' c)).1 ≡ false)
        × (is_delivered cache uuid (set_delivered cache uuid data' c) ≡ some data')
  unfolding add_request set_delivered is_delivered
  add_request-set_delivered uuid data' node c =
      let got = laws.get-add c uuid (record { requested_to = []; delivered = some data' }) in
      (ground (arith, got), ground (arith, got))

  -- With the limit 0, which the field has unless it is set, a spore that one node was asked for is
  -- requested from no other node as long as the cache has the entry.
  pub add_request-zero :
      (uuid : Bytes) (node other : Node) (c : C)
      → max_requests ≡ 0
      → (add_request cache max_requests uuid node c).1 ≡ true
      → (add_request cache max_requests uuid other (add_request cache max_requests uuid node c).0).1
        ≡ false
  add_request-zero uuid node other c h sent =
      let (before, few, got) = add_request-sent uuid node c sent in
      full before (add_request cache max_requests uuid node c).0 got
    where
      full :
          (before : List Node) (c1 : C)
          → cache.get c1 uuid
            ≡ some (record { requested_to = before ++ (node ∷ []); delivered = none })
          → (add_request cache max_requests uuid other c1).1 ≡ false
      full before c1 got = unfold add_request in ground (arith, h)
