-- ===== src/Db/Server.antt =====
-- db/server/server.go: the service that clients of a node call.
use sporedb.Common.{
  ℕ, ◌≡◌, refl, arith, Bool, false, none, some, List, [], ◌∷◌, Bytes, GoMap, lookup, is_some,
  Result, ok, err, length, ◌==◌, if◌then◌else◌, ◌>>=◌, ◌∙◌,
}
use sporedb.Version.{Version}
use sporedb.Operation.{Operation}
use sporedb.Encoding.Set
use sporedb.Encoding.Set.{GoSet}
use sporedb.Encoding.Set.Layout.{member, IsDistinct, layout, Represents}
use sporedb.Encoding.Set.Insert.{is_some-lookup, contains-eq-member}
use sporedb.Encoding.Set.Unmarshal.{IsInMemory, unmarshal_binary-layout}
use sporedb.Spore.{Spore, new_spore, set_timeout}
use sporedb.World.{World, Reply}
use sporedb.Db
use sporedb.Db.{Db}
use sporedb.Db.Endorse

-- `api.Transaction`
pub record Transaction : Type 0 where
  pub policy : Bytes
  pub requirements : GoMap Version
  pub operations : List Operation

-- The keys of a map, in the order in which it is walked
unfoldable pub keys_of : {V : Type 0} → GoMap V → List Bytes
keys_of [] = []
keys_of ((k, _) ∷ m) = k ∷ keys_of m

-- Five seconds
abbrev submit_timeout : ℕ
submit_timeout = 5_000_000_000

-- The spore that `Submit` makes, given the identifier and the time
unfoldable pub spore_of : Bytes → ℕ → Transaction → Spore
spore_of uuid now tx = set_timeout now submit_timeout (record (new_spore uuid) {
  policy = tx.policy;
  requirements = tx.requirements;
  operations = tx.operations;
})

module _ (w : World) where
  -- `Server.Get`
  unfoldable pub get : Bytes → Db w → Reply
  get key db = Db.get w key db

  -- The first half of `Members` and `Contains`
  unfoldable pub read_set : Bytes → Db w → Result GoSet
  read_set key db =
      let reply = Db.get w key db in
      elim reply.failed [ some e ↦ err e | none ↦ Set.unmarshal_binary reply.value ]

  -- `Server.Members`
  unfoldable pub members : Bytes → Db w → Result (Version × List Bytes)
  unfolding read_set keys_of
  members key db = read_set key db >>= λ s. ok ((Db.get w key db).version, keys_of s.elements)

  -- `Server.Contains`
  unfoldable pub contains : Bytes → Bytes → Db w → Result Bool
  unfolding read_set
  contains key value db = read_set key db >>= λ s. ok (Set.contains value s)

  -- `Server.Submit`: the identifier of the receipt stands beside the outcome.
  unfoldable pub submit : Bytes → ℕ → Transaction → Db w → Db w × (Bytes × Result (Unit {0}))
  unfolding spore_of
  submit uuid now tx db =
      let after = Endorse.submit now (spore_of uuid now tx) db in (after.0, (uuid, after.1))

member-keys_of :
    {V : Type 0} (e : Bytes) (m : GoMap V) → member e (keys_of m) ≡ is_some (lookup e m)
unfolding keys_of lookup
member-keys_of e [] = refl
member-keys_of e ((k, _) ∷ m) = ground (arith, member-keys_of e m)

module _ {w : World} where
  read_set-Represents :
      (key : Bytes) (db : Db w) (es : List Bytes)
      → (Db.get w key db).failed ≡ none
      → (Db.get w key db).value ≡ layout es
      → IsDistinct es
      → IsInMemory (Db.get w key db).value
      → (s : GoSet) × (read_set w key db ≡ ok s) × Represents s es
  unfolding read_set
  read_set-Represents key db es found content distinct fits =
      let (s, e, r) = unmarshal_binary-layout _ es content distinct fits in
      (s, rw (read_set, found) e, r)

  -- If the store has a value under the key that is the record form of distinct elements, of fewer
  -- than 2 ^ 62 bytes: `Contains` answers whether the value that is asked for is among them, and
  -- false for the empty value; `Members` answers the version of the key and a list of the same
  -- elements.
  pub members_and_contains :
      (key : Bytes) (db : Db w) (es : List Bytes)
      → (Db.get w key db).failed ≡ none
      → (Db.get w key db).value ≡ layout es
      → IsDistinct es
      → IsInMemory (Db.get w key db).value
      → ((e : Bytes) → contains w key e db ≡ ok (if length e == 0 then false else member e es))
        × ((l : List Bytes) × (members w key db ≡ ok ((Db.get w key db).version, l))
            × ((e : Bytes) → member e l ≡ member e es))
  unfolding members contains
  members_and_contains key db es found content distinct fits =
      let (s, e, r) = read_set-Represents key db es found content distinct fits in
      (
        λ x. rw (e, contains-eq-member x s es r) refl,
        (keys_of s.elements, rw e refl, λ x. member-keys_of x s.elements ∙ is_some-lookup x s es r),
      )
