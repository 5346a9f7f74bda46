-- ===== src/Myc/Relay/Passed.antt =====
-- What a spore of a peer leads to.
use sporedb.Common.{
  ℕ, leb, ◌≤◌, ◌<◌, ◌≡◌, ◌≢◌, arith, some, List, [], ◌∷◌, ◌++◌, length, Bytes, Result, ok,
  if◌then◌else◌,
}
use sporedb.Spore.{Spore}
use sporedb.World.{World}
use sporedb.Db.Endorse.{endorse}
use sporedb.Myc.Requests.{RequestCache, RequestCacheLaws, set_delivered, is_delivered}
use sporedb.Myc.Gossip.{handle_gossip_request}
use sporedb.Myc.Relay.{
  Body, Relay, spore_body, gossip_body, announcement, send_all, choose, keep, note_spore, broadcast,
  handle_spore,
}
use sporedb.Myc.Relay.Chosen.{times, open_peers, choose_lem}

module _ {w : World} {C : Type 0} (cache : RequestCache C) (pack : Body → Result Bytes) where
  -- A spore that is not endorsed is not passed on: the cache and the channels stay as they are.
  refused_lem :
      (now : ℕ) (order : List ℕ) (p : ℕ) (s : Spore) (m : Relay w C)
      → (endorse now s m.db).1 ≢ ok tt
      → ((handle_spore cache pack now order p s m).0.sent ≡ m.sent)
        × ((handle_spore cache pack now order p s m).0.cache ≡ m.cache)
  unfolding handle_spore
  refused_lem now order p s m h = ground arith

  handle_spore-endorsed :
      (now : ℕ) (order : List ℕ) (p : ℕ) (s : Spore) (m : Relay w C) (packed told : Bytes)
      → (endorse now s m.db).1 ≡ ok tt
      → pack (spore_body s) ≡ ok packed
      → pack (announcement s) ≡ ok told
      → ((handle_spore cache pack now order p s m).0.sent
          ≡ m.sent ++ send_all told (choose (some p) m.ready m.fanout 0 order))
        × ((handle_spore cache pack now order p s m).0.cache
            ≡ set_delivered cache s.uuid packed m.cache)
  unfolding handle_spore note_spore broadcast keep
  handle_spore-endorsed now order p s m packed told h e g = ground (arith, h, e, g)

  -- A spore of a peer that the node endorses, and that can be packed as well as its announcement: the
  -- announcement is sent, never to that peer, to as many others as are ready up to the fan-out,
  -- and to none of them twice if the permutation has none twice; and a peer that asks for the spore then gets it.
  pub handle_spore-announces :
      (now : ℕ) (order : List ℕ) (p : ℕ) (s : Spore) (m : Relay w C) (packed told : Bytes)
      → RequestCacheLaws cache
      → 0 < m.fanout
      → (endorse now s m.db).1 ≡ ok tt
      → pack (spore_body s) ≡ ok packed
      → pack (announcement s) ≡ ok told
      → let after = (handle_spore cache pack now order p s m).0 in
        (chosen : List ℕ) × (after.sent ≡ m.sent ++ send_all told chosen)
        × (times p chosen ≡ 0)
        × ((i : ℕ) → times i chosen ≤ times i order)
        × (length chosen ≡ (
            if leb (open_peers (some p) m.ready order) m.fanout
            then open_peers (some p) m.ready order
            else m.fanout))
        × (handle_gossip_request cache 0 (λ g. pack (gossip_body g)) (s.uuid ∷ []) after.cache
            ≡ packed ∷ [])
  unfolding handle_gossip_request is_delivered set_delivered
  handle_spore-announces now order p s m packed told laws wide endorsed packs tells =
      let (sends, keeps) = handle_spore-endorsed now order p s m packed told endorsed packs tells in
      (
        choose (some p) m.ready m.fanout 0 order,
        sends,
        ground (arith, choose_lem (some p) m.ready m.fanout 0 order p wide),
        λ i. ground (arith, choose_lem (some p) m.ready m.fanout 0 order i wide),
        ground (arith, choose_lem (some p) m.ready m.fanout 0 order 0 wide),
        rw keeps (
            ground (
              arith,
              laws.get-add m.cache s.uuid (record { requested_to = []; delivered = some packed }),
            )),
      )
