-- ===== src/Myc/Relay.antt =====
-- myc/broadcast.go, and the handlers of spores and endorsements in myc/router.go: what a node passes
-- on to its peers.
pub mod Chosen
pub mod Passed
use sporedb.Common.{
  ℕ, zero, suc, ◌+◌, ◌==◌, Bool, true, false, not, ◌||◌, Option, none, some, List, [], ◌∷◌, ◌++◌,
  length, Bytes, get_elem?, Result, Error, ok, err, panic, stuck, no_related_spore, if◌then◌else◌,
}
use sporedb.Spore.{Spore}
use sporedb.World.{World}
use sporedb.Db.{Db, Endorsement, Message, spore_message, endorsement_message}
use sporedb.Db.Endorse.{endorse}
use sporedb.Db.Collect.{is_no_related_spore, add_endorsement}
use sporedb.Myc.Requests.{RequestCache, set_delivered}
use sporedb.Myc.Gossip.{Gossip}
use sporedb.Myc.Nodes.{Node}

-- The calls that are broadcast
pub data Body : Type 0 where
  spore_body : Spore → Body
  endorsement_body : Endorsement → Body
  gossip_body : Gossip → Body
  recover_body : Bytes → Body
  nodes_body : List Node → Body

-- Is `p == from`? A peer is its place in `Peers`.
abbrev pub is_from : Option ℕ → ℕ → Bool
is_from none i = false
is_from (some j) i = i == j

-- `p.ready`
abbrev pub is_ready : List Bool → ℕ → Bool
is_ready ready i = elim (get_elem? ready i) [ none ↦ false | some b ↦ b ]

-- The loop of `Broadcast` over the permutation: the peers that get the data, given how many have it
unfoldable pub choose : Option ℕ → List Bool → ℕ → ℕ → List ℕ → List ℕ
choose from ready fanout sent [] = []
choose from ready fanout sent (i ∷ order) =
    let skipped = choose from ready fanout sent order in
    let next = choose from ready fanout (suc sent) order in
    if is_from from i || not (is_ready ready i)
    then skipped
    else if suc sent == fanout
    then i ∷ []
    else i ∷ next

-- A call on its way: to which peer, and its bytes
pub record Sent : Type 0 where
  pub peer : ℕ
  pub packed : Bytes

abbrev pub send_all : Bytes → List ℕ → List Sent
send_all packed [] = []
send_all packed (i ∷ peers) = record { peer = i; packed = packed } ∷ send_all packed peers

-- What the handlers read and change of `Mycelium`: whether each peer is ready, and the cache of
-- requests. `sent` is what was put on the channels `write`, oldest first.
pub record Relay (w : World) (C : Type 0) : Type 0 where
  pub db : Db w
  pub cache : C
  pub ready : List Bool
  pub fanout : ℕ
  pub sent : List Sent

-- The proposal of a spore
abbrev pub announcement : Spore → Body
announcement s = gossip_body (record { request = false; spores = s.uuid ∷ [] })

module _ {w : World} {C : Type 0} (cache : RequestCache C) (pack : Body → Result Bytes) where
  -- A call that `Broadcast` keeps for those who will ask
  unfoldable pub keep : Body → Bytes → Relay w C → Relay w C
  keep (spore_body s) packed m = record m { cache = set_delivered cache s.uuid packed m.cache }
  keep (endorsement_body _) packed m = m
  keep (gossip_body _) packed m = m
  keep (recover_body _) packed m = m
  keep (nodes_body _) packed m = m

  -- `Broadcast`, given the permutation; a call that cannot be packed is dropped.
  unfoldable pub broadcast : List ℕ → Option ℕ → Body → Relay w C → Relay w C
  unfolding keep choose
  broadcast order from body m = elim (pack body) [
    | ok packed ↦
        let m1 = keep body packed m in
        record m1 { sent = m1.sent ++ send_all packed (choose from m1.ready m1.fanout 0 order) }
    | err _ ↦ m
    | panic ↦ m
    | stuck ↦ m
  ]

  -- A spore that was endorsed can be delivered; one that cannot be packed is not.
  unfoldable pub note_spore : Spore → Relay w C → Relay w C
  note_spore s m = elim (pack (spore_body s)) [
    | ok packed ↦ record m { cache = set_delivered cache s.uuid packed m.cache }
    | err _ ↦ m
    | panic ↦ m
    | stuck ↦ m
  ]

  -- `handleSpore`
  unfoldable pub handle_spore : ℕ → List ℕ → ℕ → Spore → Relay w C → Relay w C × Result (Unit {0})
  unfolding note_spore broadcast
  handle_spore now order p s m =
      let (db1, r) = endorse now s m.db in
      let m1 = record m { db = db1 } in
      elim r [
        | ok _ ↦ (broadcast order (some p) (announcement s) (note_spore s m1), ok tt)
        | err _ ↦ (m1, ok tt)
        | panic ↦ (m1, panic)
        | stuck ↦ (m1, stuck)
      ]

  -- The loop of `handleEndorsement`, on the tries that are left; `wait` is what happens to the node
  -- while it sleeps before the next one.
  unfoldable pub try_endorsement :
      (ℕ → Relay w C → Relay w C)
      → ℕ
      → List ℕ
      → ℕ
      → Endorsement
      → Relay w C
      → Relay w C × Result (Unit {0})
  unfolding broadcast
  try_endorsement wait zero order p e m = (m, ok tt)
  try_endorsement wait (suc n) order p e m =
      let (db1, r) = add_endorsement e m.db in
      let m1 = record m { db = db1 } in
      let again = try_endorsement wait n order p e (wait n m1) in
      elim r [
        | ok _ ↦ (broadcast order (some p) (endorsement_body e) m1, ok tt)
        | err x ↦ if is_no_related_spore x then again else (m1, ok tt)
        | panic ↦ (m1, panic)
        | stuck ↦ (m1, stuck)
      ]

  -- `handleEndorsement`
  unfoldable pub handle_endorsement :
      (ℕ → Relay w C → Relay w C)
      → List ℕ
      → ℕ
      → Endorsement
      → Relay w C
      → Relay w C × Result (Unit {0})
  unfolding try_endorsement
  handle_endorsement wait order p e m = try_endorsement wait 20 order p e m
