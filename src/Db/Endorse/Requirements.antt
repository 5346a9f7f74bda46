-- ===== src/Db/Endorse/Requirements.antt =====
-- What `CanEndorse` makes of the requirements of a spore.
use sporedb.Common.{
  ℕ, ◌≡◌, refl, true, none, some, [], ◌∷◌, append-nil, ◌++◌, Bytes, GoMap, All, ok, err, Error,
  arith, ap, ◌∙◌,
}
use sporedb.Version
use sporedb.Version.{Version}
use sporedb.Spore.{Spore, check_deadline}
use sporedb.World.{World}
use sporedb.Db.{Db}
use sporedb.Db.Endorse.{check_requirements, check_operations, can_endorse}

module _ {w : World} where
  -- The key is stored, at the version that the spore asks for.
  abbrev pub IsMet : Db w → Bytes × Version → Type 0
  IsMet db (k, v) =
      ((w.store.get db.store k).failed ≡ none)
      × (Version.matches (w.store.get db.store k).version v ≡ ok tt)

  check_requirements-met :
      (rs rest : GoMap Version) (db : Db w)
      → All (IsMet db) rs
      → check_requirements (rs ++ rest) db ≡ check_requirements rest db
  unfolding check_requirements
  check_requirements-met [] rest db h = refl
  check_requirements-met ((k, v) ∷ rs) rest db h =
      ground (arith, check_requirements-met rs rest db h.1)

  -- Before the deadline of a spore, and where all of its requirements are met, `CanEndorse` answers
  -- what the operations, the quota and the staging list say.
  pub can_endorse-met :
      (now : ℕ) (s : Spore) (db : Db w)
      → check_deadline now s ≡ true
      → All (IsMet db) s.requirements
      → can_endorse now s db ≡ check_operations s db
  unfolding can_endorse check_requirements
  can_endorse-met now s db alive h =
      let met : check_requirements s.requirements db ≡ none =
        rw append-nil at (check_requirements-met s.requirements [] db h) in
      ground (arith, met)

  -- A spore before its deadline, with a requirement whose key is stored at another version, behind
  -- any that are met: `CanEndorse` answers that it can be endorsed, whatever its operations, its
  -- policy, the quota and the staging list are.
  pub can_endorse-behind :
      (now : ℕ) (s : Spore) (db : Db w) (rs rest : GoMap Version) (k : Bytes) (v : Version)
      (e : Error)
      → check_deadline now s ≡ true
      → s.requirements ≡ rs ++ ((k, v) ∷ rest)
      → All (IsMet db) rs
      → (w.store.get db.store k).failed ≡ none
      → Version.matches (w.store.get db.store k).version v ≡ err e
      → can_endorse now s db ≡ ok tt
  unfolding can_endorse
  can_endorse-behind now s db rs rest k v e alive parts met found behind =
      let loop : check_requirements s.requirements db ≡ some (ok tt) =
        ap (λ r. check_requirements r db) parts
        ∙ check_requirements-met rs ((k, v) ∷ rest) db met
        ∙ (unfold check_requirements in ground arith) in
      ground (arith, loop)
