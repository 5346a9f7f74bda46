-- ===== src/Db/Upkeep/Emitters.antt =====
-- What the calls do to the endorsements that a node holds: no emitter gets two for a spore.
use sporedb.Common.{
  lookup-All, ◌≡◌, refl, List, [], ◌∷◌, Bytes, GoMap, ok, All, sym, subst, inl, inr,
}
use sporedb.Spore.{Spore}
use sporedb.World.{World}
use sporedb.Db.{Db, Trigger, Endorsement}
use sporedb.Db.Collect.{has_endorsed, with_endorsement, add_endorsement_map}
use sporedb.Db.Collect.Admit.{
  IsDistinctEmitters, with_endorsement-IsDistinctEmitters, add_endorsement_map-ok,
}
use sporedb.Db.Upkeep.{Reach}
use sporedb.Db.Upkeep.Triggers.{Begins, IsKept}
use sporedb.Db.Upkeep.Triggers.Events.{Reach-Keeps}

-- The endorsements of every spore in the list are of distinct emitters.
abbrev pub Distinct : Bytes × Trigger → Type 0
Distinct (k, t) = IsDistinctEmitters t.endorsements

abbrev pub AllDistinct : GoMap Trigger → Type 0
AllDistinct = All Distinct

single-IsDistinctEmitters : (e : Endorsement) → IsDistinctEmitters (e ∷ [])
unfolding has_endorsed
single-IsDistinctEmitters e = (refl, tt)

module _ {w : World} where
  pub record IsEndorsedOnce (db : Db w) : Type 0 where
    pub staged : AllDistinct db.staging
    pub waits : AllDistinct db.waiting

  Begins-IsDistinctEmitters :
      (start : Db w) (s : Spore) (es : List Endorsement) → Begins start s es → IsDistinctEmitters es
  Begins-IsDistinctEmitters start s es (inl fresh) = subst IsDistinctEmitters (sym fresh) tt
  Begins-IsDistinctEmitters start s es (inr (e, one, own, allowed)) =
      subst IsDistinctEmitters (sym one) (single-IsDistinctEmitters e)

  pub taken-IsDistinctEmitters :
      (e : Endorsement) (ma : GoMap Trigger) (db : Db w) (t' : Trigger)
      → (add_endorsement_map e ma db).1 ≡ ok t'
      → AllDistinct ma
      → IsDistinctEmitters t'.endorsements
  taken-IsDistinctEmitters e ma db t' taken h =
      let (t, pub_key, found, grown, fresh, key, allowed, verified) =
        add_endorsement_map-ok e ma db t' taken in
      subst (λ x. IsDistinctEmitters x.endorsements) (sym grown)
        (unfold with_endorsement in
          with_endorsement-IsDistinctEmitters e t.endorsements
            (lookup-All Distinct e.uuid t ma h found) fresh)

  pub Distinct-IsKept : (start : Db w) → IsKept Distinct start
  Distinct-IsKept start = record {
    begins = λ armed s es b. Begins-IsDistinctEmitters start s es b;
    grows = λ e ma db t setup h taken. taken-IsDistinctEmitters e ma db t taken h;
    disarms = λ k t p. p;
  }

  -- Whatever the calls, timers and tasks, and whatever their order: from a node that holds no
  -- endorsements twice, such as a new one, no state is reached in which a spore of the staging list
  -- or of the waiting list has two endorsements of one emitter.
  pub Reach-IsEndorsedOnce :
      (start db : Db w) → IsEndorsedOnce start → Reach start db → IsEndorsedOnce db
  Reach-IsEndorsedOnce start db h r =
      let k =
        Reach-Keeps Distinct start (Distinct-IsKept start) db
          (record {
            setup = record { keyring = refl; identity = refl; policies = refl };
            staged = h.staged;
            waits = h.waits;
          })
          r in
      record { staged = k.staged; waits = k.waits }
