-- ===== src/Quorum/Meet.antt =====
-- Two quorums under one policy meet in an endorser that is not faulty.
use sporedb.Common.{
  ℕ, ◌+◌, ◌*◌, ◌^◌, ◌≤◌, ◌<◌, ◌≡◌, Bool, true, false, ◌&&◌, Bytes, Result, ok, map, length, List,
  [], ◌∷◌, arith, refl,
}
use sporedb.Policy.{Policy, Endorser}
use sporedb.World.{World}
use sporedb.Db.{Db, Trigger, Endorsement}
use sporedb.Quorum.Overlap.{member, count, overlap, pick}
use sporedb.Quorum.Decided.{
  public_of, keys_of, Decides, Decides-count, Decides-Vouched, IsBehind, member-IsBehind,
}
use sporedb.Cmd.Policies.{Answers, create_policy, create_policy_quorum}

length-public_of : (es : List Endorser) → length (map public_of es) ≡ length es
length-public_of [] = refl
length-public_of (e ∷ es) = omega (arith, length-public_of es)

and_both : (a b : Bool) → (a && b) ≡ true → (a ≡ true) × (b ≡ true)
and_both a b h = (ground arith, ground arith)

module _ {w1 w2 : World} where
  common_key :
      (p : Policy) (f : ℕ) (faulty : Bytes → Bool) (start1 db1 : Db w1) (e1 : Endorsement)
      (t1 : Trigger) (start2 db2 : Db w2) (e2 : Endorsement) (t2 : Trigger)
      → length p.endorsers + f < 2 * p.quorum
      → count faulty (map public_of p.endorsers) ≤ f
      → Decides p start1 db1 e1 t1
      → Decides p start2 db2 e2 t2
      → (k : Bytes) × ((member k (keys_of start1 t1.endorsements)
            && member k (keys_of start2 t2.endorsements))
          ≡ true)
        × (faulty k ≡ false)
  common_key p f faulty start1 db1 e1 t1 start2 db2 e2 t2 large few d1 d2 =
      pick
        (λ k.
          member k (keys_of start1 t1.endorsements) && member k (keys_of start2 t2.endorsements))
        faulty (map public_of p.endorsers)
        (omega (
          arith,
          Decides-count p start1 db1 e1 t1 d1,
          Decides-count p start2 db2 e2 t2 d2,
          overlap (λ k. member k (keys_of start1 t1.endorsements))
              (λ k. member k (keys_of start2 t2.endorsements)) (map public_of p.endorsers),
          length-public_of p.endorsers,
          large,
          few,
        ))

  -- Two nodes under one policy that `policy create` has made for some number of faulty endorsers, of
  -- which there are no more. If each has come from a start without spores to a quorum for a spore,
  -- where different names have different keys and no endorsement is without an emitter, then an
  -- endorser that is not faulty is behind both spores: each of the nodes holds an endorsement of
  -- its spore under the key of that endorser. Such an endorsement bears the name of the node itself,
  -- or its signature is valid under that key for some text, which need not be
  -- the hash of this spore.
  pub quorums_meet :
      (get_public : Bytes → Result Bytes) (uuid : Bytes) (a : Answers) (p : Policy)
      (faulty : Bytes → Bool) (start1 db1 : Db w1) (e1 : Endorsement) (t1 : Trigger)
      (start2 db2 : Db w2) (e2 : Endorsement) (t2 : Trigger)
      → create_policy get_public uuid a ≡ ok p
      → p.quorum < 2 ^ 64
      → length p.endorsers + a.faulty < 2 ^ 63
      → count faulty (map public_of p.endorsers) ≤ a.faulty
      → Decides p start1 db1 e1 t1
      → Decides p start2 db2 e2 t2
      → (k : Bytes) × (faulty k ≡ false) × IsBehind start1 t1 k × IsBehind start2 t2 k
  quorums_meet get_public uuid a p faulty start1 db1 e1 t1 start2 db2 e2 t2 made word small few d1
        d2 =
      let (large, most) = create_policy_quorum get_public uuid a p made word small in
      let (k, both, honest) =
        common_key p a.faulty faulty start1 db1 e1 t1 start2 db2 e2 t2 large few d1 d2 in
      let (in1, in2) = and_both _ _ both in
      (
        k,
        honest,
        member-IsBehind start1 t1.spore t1.endorsements k (Decides-Vouched p start1 db1 e1 t1 d1)
            in1,
        member-IsBehind start2 t2.spore t2.endorsements k (Decides-Vouched p start2 db2 e2 t2 d2)
            in2,
      )
