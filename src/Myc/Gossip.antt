-- ===== src/Myc/Gossip.antt =====
-- The gossip handlers of myc/router.go: a peer proposes spores, is asked for those that are not
-- there, and sends them.
use sporedb.Common.{
  ℕ, ◌≤◌, ◌≡◌, arith, Bool, true, false, none, some, Option-cases, Bool-cases, Result-cases, inl,
  inr, List, [], ◌∷◌, Bytes, length, Result, ok, err, panic, stuck, All,
}
use sporedb.Myc.Nodes.{Node}
use sporedb.Myc.Requests.{RequestCache, add_request, is_delivered}

-- `protocol.Gossip`
pub record Gossip : Type 0 where
  pub request : Bool
  pub spores : List Bytes

-- The proposal as a request, `g.Request = true`
abbrev pub requesting : Gossip → Gossip
requesting g = record g { request = true }

-- The cache of requests, the limit and the packing of a gossip call
module _ {C : Type 0} (cache : RequestCache C) (max_requests : ℕ)
    (pack_gossip : Gossip → Result Bytes) where
  -- The loop of `handleGossipProposal`: the cache, and what is sent to the peer. An error of the
  -- packing ends it.
  unfoldable pub propose_loop : Node → Gossip → List Bytes → C → C × List Bytes
  propose_loop peer g [] c = (c, [])
  propose_loop peer g (uuid ∷ spores) c = elim (is_delivered cache uuid c) [
    | some _ ↦ propose_loop peer g spores c
    | none ↦
        let (c1, transmit) = add_request cache max_requests uuid peer c in
        elim transmit [
          | true ↦ elim (pack_gossip (requesting g)) [
            | ok packed ↦ let (c2, sent) = propose_loop peer g spores c1 in (c2, packed ∷ sent)
            | err _ ↦ (c1, [])
            | panic ↦ (c1, [])
            | stuck ↦ (c1, [])
          ]
          | false ↦ propose_loop peer g spores c1
        ]
  ]

  -- `handleGossipProposal`
  unfoldable pub handle_gossip_proposal : Node → Gossip → C → C × List Bytes
  unfolding propose_loop
  handle_gossip_proposal peer g c = propose_loop peer g g.spores c

  -- `handleGossipRequest`, on the spores of the request: what is sent to the peer.
  unfoldable pub handle_gossip_request : List Bytes → C → List Bytes
  handle_gossip_request [] c = []
  handle_gossip_request (uuid ∷ spores) c =
      let rest = handle_gossip_request spores c in
      elim (is_delivered cache uuid c) [ none ↦ rest | some packed ↦ packed ∷ rest ]

  propose_loop_lem :
      (Q : Bytes → Type 0) (peer : Node) (g : Gossip) (spores : List Bytes) (c : C)
      → ((d : Bytes) → pack_gossip (requesting g) ≡ ok d → Q d)
      → All Q (propose_loop peer g spores c).1
        × (length (propose_loop peer g spores c).1 ≤ length spores)
  unfolding propose_loop
  propose_loop_lem Q peer g [] c h = unfold propose_loop in (tt, omega arith)
  propose_loop_lem Q peer g (uuid ∷ spores) c h = elim (Option-cases (is_delivered cache uuid c)) [
    | inr (packed, there) ↦
        let (same, few) = propose_loop_lem Q peer g spores c h in
        rw (there, propose_loop) (same, omega (arith, few))
    | inl missing ↦
        let c1 = (add_request cache max_requests uuid peer c).0 in
        let (same, few) = propose_loop_lem Q peer g spores c1 h in
        elim (Bool-cases (add_request cache max_requests uuid peer c).1) [
          | inr held ↦ rw (missing, held, propose_loop) (same, omega (arith, few))
          | inl sends ↦ elim (Result-cases (pack_gossip (requesting g))) [
            | inl (packed, fine) ↦
                rw (missing, sends, fine, propose_loop) ((h packed fine, same), omega (arith, few))
            | inr (inl (e, refused)) ↦ rw (missing, sends, refused, propose_loop) (tt, omega arith)
            | inr (inr (inl p)) ↦ rw (missing, sends, p, propose_loop) (tt, omega arith)
            | inr (inr (inr p)) ↦ rw (missing, sends, p, propose_loop) (tt, omega arith)
          ]
        ]
  ]

  -- What is sent for a proposal is always the request for all of its spores, and it is sent once for
  -- each of its spores at most.
  pub handle_gossip_proposal_lem :
      (peer : Node) (g : Gossip) (c : C)
      → All (λ d. pack_gossip (requesting g) ≡ ok d) (handle_gossip_proposal peer g c).1
        × (length (handle_gossip_proposal peer g c).1 ≤ length g.spores)
  unfolding handle_gossip_proposal
  handle_gossip_proposal_lem peer g c =
      propose_loop_lem (λ d. pack_gossip (requesting g) ≡ ok d) peer g g.spores c (λ d e. e)
