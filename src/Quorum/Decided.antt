-- ===== src/Quorum/Decided.antt =====
-- Two nodes that have each seen a quorum for a spore, under one policy.
use sporedb.Common.{
  ℕ, suc, ◌≤◌, ◌≡◌, ◌≢◌, refl, true, false, some, List, [], ◌∷◌, Bytes, bytes_eq, bytes_eq_iff,
  bytes_eq_ne, map, All, length, get_elem?, lookup, ok, err, panic, stuck, is_some, arith,
  Bool-cases, inl, inr, ap, sym, subst, ◌∙◌,
}
use sporedb.Spore.{Spore}
use sporedb.Policy.{Policy, Endorser, find_endorser, pub_to_endorser}
use sporedb.World.{World}
use sporedb.Db.{Db, Trigger, Endorsement}
use sporedb.Db.Collect.{key_name, has_endorsed, add_endorsement_map}
use sporedb.Db.Collect.Admit.{IsDistinctEmitters}
use sporedb.Db.Upkeep.{Reach}
use sporedb.Db.Upkeep.Emitters.{Distinct, Distinct-IsKept}
use sporedb.Db.Upkeep.Endorsers.{IsVouched, Vouched, Vouched-IsKept, IsIdle, IsIdle-Keeps}
use sporedb.Db.Upkeep.Triggers.Events.{Reach-Keeps}
use sporedb.Quorum.Overlap.{member, count, IsNodup, length-le-count}

abbrev pub public_of : Endorser → Bytes
public_of e = e.public

find_endorser-member :
    (es : List Endorser) (k : Bytes)
    → is_some (find_endorser es k) ≡ true
    → member k (map public_of es) ≡ true
unfolding find_endorser
find_endorser-member [] k h = cc
find_endorser-member (e ∷ es) k h =
    ground (arith, find_endorser-member es k, bytes_eq_iff e.public k, bytes_eq_iff k e.public)

pub_to_endorser-member :
    (p : Policy) (k : Bytes)
    → is_some (pub_to_endorser (some p) k) ≡ true
    → member k (map public_of p.endorsers) ≡ true
unfolding pub_to_endorser
pub_to_endorser-member p k h = find_endorser-member p.endorsers k h

module _ {w : World} where
  -- Different names of the key ring have different keys.
  abbrev pub HasOwnKeys : Db w → Type 0
  HasOwnKeys start =
      (a b k : Bytes)
      → w.keys.get_public start.keyring a ≡ ok k
      → w.keys.get_public start.keyring b ≡ ok k
      → a ≡ b

  -- The key under which an endorsement is held
  abbrev pub key_of : Db w → Endorsement → Bytes
  key_of start e = elim (w.keys.get_public start.keyring (key_name e.emitter start)) [
    | ok k ↦ k
    | err _ ↦ []
    | panic ↦ []
    | stuck ↦ []
  ]

  abbrev pub keys_of : Db w → List Endorsement → List Bytes
  keys_of start es = map (key_of start) es

  key_of-known :
      (start : Db w) (s : Spore) (e : Endorsement) (v : IsVouched start s e)
      → key_of start e ≡ v.pub_key
  key_of-known start s e v = rw (v.known, key_of)

  key_name-injective :
      (start : Db w) (a b : Bytes) → a ≢ [] → b ≢ [] → key_name a start ≡ key_name b start → a ≡ b
  unfolding key_name
  key_name-injective start a b na nb h =
      ground (arith, bytes_eq_iff a start.identity, bytes_eq_iff b start.identity)

  other-key :
      (start : Db w) (s : Spore) (e x : Endorsement)
      → HasOwnKeys start
      → IsVouched start s e
      → IsVouched start s x
      → e.emitter ≢ []
      → x.emitter ≢ []
      → bytes_eq e.emitter x.emitter ≡ false
      → bytes_eq (key_of start e) (key_of start x) ≡ false
  other-key start s e x own v u n m h = bytes_eq_ne (key_of start e) (key_of start x) (λ same.
      let one : v.pub_key ≡ u.pub_key =
        sym (key_of-known start s e v) ∙ same ∙ key_of-known start s x u in
      let names : key_name e.emitter start ≡ key_name x.emitter start =
        own _ _ u.pub_key (v.known ∙ ap ok one) u.known in
      let emitters : e.emitter ≡ x.emitter =
        key_name-injective start e.emitter x.emitter n m names in
      ground (arith, bytes_eq_iff e.emitter x.emitter, emitters, h))

  fresh-key :
      (start : Db w) (s : Spore) (e : Endorsement) (es : List Endorsement)
      → HasOwnKeys start
      → IsVouched start s e
      → e.emitter ≢ []
      → All (IsVouched start s) es
      → All (λ x. x.emitter ≢ []) es
      → has_endorsed e.emitter es ≡ false
      → member (key_of start e) (keys_of start es) ≡ false
  unfolding has_endorsed
  fresh-key start s e [] own v n vs ns h = refl
  fresh-key start s e (x ∷ es) own v n vs ns h =
      ground
        (arith, other-key start s e x own v vs.0 n ns.0, fresh-key start s e es own v n vs.1 ns.1)

  keys_of-IsNodup :
      (start : Db w) (s : Spore) (es : List Endorsement)
      → HasOwnKeys start
      → All (IsVouched start s) es
      → All (λ x. x.emitter ≢ []) es
      → IsDistinctEmitters es
      → IsNodup (keys_of start es)
  keys_of-IsNodup start s [] own vs ns d = tt
  keys_of-IsNodup start s (e ∷ es) own vs ns d = (
    fresh-key start s e es own vs.0 ns.0 vs.1 ns.1 d.0,
    keys_of-IsNodup start s es own vs.1 ns.1 d.1,
  )

  keys_of-member :
      (start : Db w) (s : Spore) (p : Policy) (es : List Endorsement)
      → lookup s.policy start.policies ≡ some p
      → All (IsVouched start s) es
      → All (λ k. member k (map public_of p.endorsers) ≡ true) (keys_of start es)
  keys_of-member start s p [] known vs = tt
  keys_of-member start s p (e ∷ es) known vs = (
    subst (λ k. member k (map public_of p.endorsers) ≡ true) (sym (key_of-known start s e vs.0))
        (pub_to_endorser-member p vs.0.pub_key (rw known at vs.0.allowed)),
    keys_of-member start s p es known vs.1,
  )

  -- The node has just taken the endorsement `e`, and with it the spore of `t` has the quorum of its
  -- policy `p`, so that it is sent to be applied; the node began without spores and has a key of its
  -- own; different names have different keys, and no endorsement is without an emitter.
  pub record Decides (p : Policy) (start db : Db w) (e : Endorsement) (t : Trigger) : Type 0 where
    pub idle : IsIdle start
    pub own : Bytes
    pub has_key : w.keys.get_public start.keyring [] ≡ ok own
    pub own_keys : HasOwnKeys start
    pub reached : Reach start db
    pub taken : (add_endorsement_map e db.staging db).1 ≡ ok t
    pub known : lookup t.spore.policy start.policies ≡ some p
    pub enough : p.quorum ≤ length t.endorsements
    pub named : All (λ x. x.emitter ≢ []) t.endorsements

  pub Decides-Vouched :
      (p : Policy) (start db : Db w) (e : Endorsement) (t : Trigger)
      → Decides p start db e t
      → All (IsVouched start t.spore) t.endorsements
  Decides-Vouched p start db e t d =
      let kept = Vouched-IsKept start d.own d.has_key in
      let now =
        Reach-Keeps (Vouched start) start kept db (IsIdle-Keeps (Vouched start) start d.idle)
          d.reached in
      kept.grows e db.staging db t now.setup now.staged d.taken

  Decides-IsDistinctEmitters :
      (p : Policy) (start db : Db w) (e : Endorsement) (t : Trigger)
      → Decides p start db e t
      → IsDistinctEmitters t.endorsements
  Decides-IsDistinctEmitters p start db e t d =
      let kept = Distinct-IsKept start in
      let now = Reach-Keeps Distinct start kept db (IsIdle-Keeps Distinct start d.idle) d.reached in
      kept.grows e db.staging db t now.setup now.staged d.taken

  length-keys_of : (start : Db w) (es : List Endorsement) → length (keys_of start es) ≡ length es
  length-keys_of start [] = refl
  length-keys_of start (e ∷ es) = omega (arith, length-keys_of start es)

  -- At as many places of the policy as the quorum asks for stand endorsers of the spore.
  pub Decides-count :
      (p : Policy) (start db : Db w) (e : Endorsement) (t : Trigger)
      → Decides p start db e t
      → p.quorum ≤ count (λ k. member k (keys_of start t.endorsements)) (map public_of p.endorsers)
  Decides-count p start db e t d =
      let vs = Decides-Vouched p start db e t d in
      let enough =
        length-le-count (keys_of start t.endorsements) (map public_of p.endorsers)
          (keys_of-IsNodup start t.spore t.endorsements d.own_keys vs d.named
            (Decides-IsDistinctEmitters p start db e t d))
          (keys_of-member start t.spore p t.endorsements d.known vs) in
      omega (arith, enough, length-keys_of start t.endorsements, d.enough)

  -- The node holds an endorsement of the spore under the key.
  abbrev pub IsBehind : Db w → Trigger → Bytes → Type 0
  IsBehind start t k =
      (i : ℕ) × (e : Endorsement) × (get_elem? t.endorsements i ≡ some e)
      × (w.keys.get_public start.keyring (key_name e.emitter start) ≡ ok k)
      × IsVouched start t.spore e

  pub member-IsBehind :
      (start : Db w) (s : Spore) (es : List Endorsement) (k : Bytes)
      → All (IsVouched start s) es
      → member k (keys_of start es) ≡ true
      → (i : ℕ) × (e : Endorsement) × (get_elem? es i ≡ some e)
        × (w.keys.get_public start.keyring (key_name e.emitter start) ≡ ok k)
        × IsVouched start s e
  member-IsBehind start s [] k vs m = cc
  member-IsBehind start s (e ∷ es) k vs m = elim (Bool-cases (bytes_eq k (key_of start e))) [
    | inl same ↦
        let one : k ≡ vs.0.pub_key =
          (bytes_eq_iff k (key_of start e)).0 same ∙ key_of-known start s e vs.0 in
        (0, e, refl, vs.0.known ∙ ap ok (sym one), vs.0)
    | inr other ↦
        let (i, x, at, key, v) = member-IsBehind start s es k vs.1 (rw other at m) in
        (suc i, x, at, key, v)
  ]
