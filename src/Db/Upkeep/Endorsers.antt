-- ===== src/Db/Upkeep/Endorsers.antt =====
-- Who stands behind the endorsements that a node holds: endorsers of the spore's policy.
use sporedb.Common.{
  lookup-All, ◌≡◌, ◌⊎◌, refl, true, List, [], ◌∷◌, Bytes, bytes_eq_iff, GoMap, lookup, is_some, ok,
  All, All-append, arith, ap, ap₂, bytes_eq, if◌then◌else◌, sym, subst, inl, inr, ◌∙◌,
}
use sporedb.Spore.{Spore}
use sporedb.Policy.{pub_to_endorser}
use sporedb.World.{World}
use sporedb.Db.{Db, Trigger, Endorsement, hash_spore}
use sporedb.Db.Endorse.{own_public}
use sporedb.Db.Collect.{key_name, with_endorsement, add_endorsement_map}
use sporedb.Db.Collect.Admit.{add_endorsement_map-ok}
use sporedb.Db.Upkeep.{Reach}
use sporedb.Db.Upkeep.Triggers.{Begins, SameSetup, IsKept, Keeps}
use sporedb.Db.Upkeep.Triggers.Events.{Reach-Keeps}

module _ {w : World} where
  -- The endorsement is under the name of a key that belongs to an endorser of the spore's policy,
  -- and it is the node's own, or its signature was found valid by that key for some text.
  pub record IsVouched (start : Db w) (s : Spore) (e : Endorsement) : Type 0 where
    pub pub_key : Bytes
    pub known : w.keys.get_public start.keyring (key_name e.emitter start) ≡ ok pub_key
    pub allowed : is_some (pub_to_endorser (lookup s.policy start.policies) pub_key) ≡ true
    pub signed :
        (e.emitter ≡ start.identity)
        ⊎ ((h : Bytes) × (w.keys.verify start.keyring (key_name e.emitter start) h e.signature
              ≡ ok tt))

  abbrev pub Vouched : Db w → Bytes × Trigger → Type 0
  Vouched start (k, t) = All (IsVouched start t.spore) t.endorsements

  key_name_own : (start : Db w) (e : Bytes) → e ≡ start.identity → key_name e start ≡ []
  unfolding key_name
  key_name_own start e own = ground (arith, bytes_eq_iff e start.identity)

  Begins-Vouched :
      (start : Db w) (own : Bytes) (s : Spore) (es : List Endorsement)
      → w.keys.get_public start.keyring [] ≡ ok own
      → Begins start s es
      → All (IsVouched start s) es
  Begins-Vouched start own s es has (inl fresh) = subst (All (IsVouched start s)) (sym fresh) tt
  Begins-Vouched start own s es has (inr (e, one, mine, allowed)) =
      subst (All (IsVouched start s)) (sym one) (
        record {
          pub_key = own;
          known = ap (w.keys.get_public start.keyring) (key_name_own start e.emitter mine) ∙ has;
          allowed = rw (has, own_public) at allowed;
          signed = inl mine;
        },
        tt,
      )

  key_name_setup :
      (e : Bytes) (start db : Db w) → SameSetup start db → key_name e db ≡ key_name e start
  unfolding key_name
  key_name_setup e start db same = ap (λ i. if bytes_eq e i then [] else e) same.identity

  taken-Vouched :
      (start : Db w) (e : Endorsement) (ma : GoMap Trigger) (db : Db w) (t' : Trigger)
      → SameSetup start db
      → All (Vouched start) ma
      → (add_endorsement_map e ma db).1 ≡ ok t'
      → Vouched start (e.uuid, t')
  taken-Vouched start e ma db t' same h taken =
      let (t, pub_key, found, grown, fresh, key, allowed, verified) =
        add_endorsement_map-ok e ma db t' taken in
      let name = key_name_setup e.emitter start db same in
      let h' = (hash_spore w t.spore db).1 in
      subst (λ x. All (IsVouched start x.spore) x.endorsements) (sym grown)
        (unfold with_endorsement in
          All-append (IsVouched start t.spore) t.endorsements (e ∷ [])
            (lookup-All (Vouched start) e.uuid t ma h found)
            (
              record {
                pub_key = pub_key;
                known = sym (ap₂ w.keys.get_public same.keyring name) ∙ key;
                allowed =
                    subst
                      (λ ps. is_some (pub_to_endorser (lookup t.spore.policy ps) pub_key) ≡ true)
                      same.policies allowed;
                signed = inr (
                  h',
                  sym (ap₂ (λ k n. w.keys.verify k n h' e.signature) same.keyring name) ∙ verified,
                );
              },
              tt,
            ))

  pub Vouched-IsKept :
      (start : Db w) (own : Bytes)
      → w.keys.get_public start.keyring [] ≡ ok own
      → IsKept (Vouched start) start
  Vouched-IsKept start own has = record {
    begins = λ armed s es b. Begins-Vouched start own s es has b;
    grows = λ e ma db t setup h taken. taken-Vouched start e ma db t setup h taken;
    disarms = λ k t p. p;
  }

  -- A node without spores at the start
  pub record IsIdle (start : Db w) : Type 0 where
    pub staging : start.staging ≡ []
    pub waiting : start.waiting ≡ []

  pub IsIdle-Keeps :
      (P : Bytes × Trigger → Type 0) (start : Db w) → IsIdle start → Keeps P start start
  IsIdle-Keeps P start h = record {
    setup = record { keyring = refl; identity = refl; policies = refl };
    staged = subst (All P) (sym h.staging) tt;
    waits = subst (All P) (sym h.waiting) tt;
  }

  -- From a node without spores that has a key of its own, whatever the events: every endorsement
  -- that is held for a spore is under a name whose key belongs to an endorser of the spore's policy,
  -- and is the node's own or bears a signature that this key verifies.
  pub Reach-Vouched :
      (start db : Db w) (own : Bytes)
      → IsIdle start
      → w.keys.get_public start.keyring [] ≡ ok own
      → Reach start db
      → All (Vouched start) db.staging × All (Vouched start) db.waiting
  Reach-Vouched start db own idle has r =
      let k =
        Reach-Keeps (Vouched start) start (Vouched-IsKept start own has) db
          (IsIdle-Keeps (Vouched start) start idle) r in
      (k.staged, k.waits)
