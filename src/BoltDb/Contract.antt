-- ===== src/BoltDb/Contract.antt =====
-- The driver keeps the contract of a store, and its catalog is that of what can be read.
use sporedb.Common.{
  ◌≡◌, refl, arith, Option, none, some, List, [], ◌∷◌, ◌++◌, Bytes, GoMap, insert, lookup,
  lookup-insert, ok, >>=-eq-ok, All, length, length-append, take, drop, take-append, drop-append,
  append-nil, ltb, if◌then◌else◌, bytes_eq, bytes_eq_iff, IsUnique, ap, subst, false, Bool-cases,
  inl, inr, ◌∙◌, sym, ℕ,
}
use sporedb.Version
use sporedb.Version.{Version, nil, no_version, hashed, version_bytes, zeros}
use sporedb.World.{Reply, Write, StoreLaws, IsStorable, as_stored, reply_of, written}
use sporedb.BoltDb.{Bucket, read_data, get, put_write, set_batch, list_loop, list, bolt_store}

-- What the package bolt documents of a bucket.
pub record BucketLaws {B : Type 0} (bucket : Bucket B) : Type 0 where
  pub get-put :
      (b b' : B) (k v j : Bytes)
      → bucket.put b k v ≡ ok b'
      → bucket.get b' j ≡ (if bytes_eq k j then some v else bucket.get b j)

-- What it documents of a cursor: it walks once over every pair of the bucket.
pub record CursorLaws {B : Type 0} (bucket : Bucket B) (b : B) : Type 0 where
  pub walked : (k : Bytes) → lookup k (bucket.entries b) ≡ bucket.get b k
  pub once : IsUnique (bucket.entries b)

take_all : (n : ℕ) (b : Bytes) → length b ≡ n → take n b ≡ b
take_all n b h = rw (sym h) (ap (take (length b)) (sym (append-nil b)) ∙ take-append b [])

read_data-cut :
    (rv value : Bytes)
    → length rv ≡ version_bytes
    → read_data (rv ++ value) ≡ record { value = value; version = hashed rv; failed = none }
unfolding read_data Version.unmarshal_binary
read_data-cut rv value h =
    let size : ltb (length (rv ++ value)) version_bytes ≡ false =
      ground (arith, length-append {0} rv value, h) in
    let front : take version_bytes (rv ++ value) ≡ rv =
      subst (λ n. take n (rv ++ value) ≡ rv) h (take-append rv value) in
    let back : drop version_bytes (rv ++ value) ≡ value =
      subst (λ n. drop n (rv ++ value) ≡ value) h (drop-append rv value) in
    rw (size, front, back)

-- A version of the right size and a value, written one behind the other, read back as they were.
read_data-append :
    (x : Write)
    → IsStorable x
    → read_data (take version_bytes (Version.marshal_binary x.version) ++ x.value) ≡ reply_of x
read_data-append x h = rw (take_all version_bytes (Version.marshal_binary x.version) h) (
    read_data-cut (Version.marshal_binary x.version) x.value h
    ∙ ap (λ v. record { value = x.value; version = v; failed = none }) (sized x.version h))
  where
    sized :
        (v : Version)
        → length (Version.marshal_binary v) ≡ version_bytes
        → hashed (Version.marshal_binary v) ≡ as_stored v
    sized nil h = unfold Version.marshal_binary in refl
    sized no_version h = unfold Version.marshal_binary in ground (arith, h)
    sized (hashed b) h = unfold Version.marshal_binary in refl

module _ {B : Type 0} (bucket : Bucket B) (laws : BucketLaws bucket) where
  get-put_write :
      (b b' : B) (x : Write) (k : Bytes)
      → IsStorable x
      → put_write bucket b x ≡ ok b'
      → get bucket b' k ≡ (if bytes_eq x.key k then reply_of x else get bucket b k)
  unfolding get put_write
  get-put_write b b' x k h wrote =
      let rv = Version.marshal_binary x.version in
      let d = take version_bytes rv ++ x.value in
      let room : ltb (length rv) version_bytes ≡ false = ground (arith, h) in
      let put : bucket.put b x.key d ≡ ok b' = rw room at wrote in
      ap (λ o. read_data (elim o [ none ↦ [] | some d ↦ d ])) (laws.get-put b b' x.key d k put)
      ∙ (elim (Bool-cases (bytes_eq x.key k)) [
        | inl same ↦ rw same (read_data-append x h)
        | inr other ↦ rw other
      ])

  get-set_batch :
      (b b' : B) (ws : List Write) (k : Bytes)
      → All IsStorable ws
      → set_batch bucket b ws ≡ ok b'
      → get bucket b' k ≡ written k ws (get bucket b k)
  unfolding set_batch written
  get-set_batch b b' [] k h wrote = ground arith
  get-set_batch b b' (x ∷ ws) k h wrote =
      let (b1, first, rest) = >>=-eq-ok (put_write bucket b x) _ b' wrote in
      get-set_batch b1 b' ws k h.1 rest ∙ ap (written k ws) (get-put_write b b1 x k h.0 first)

  -- Over a bucket that does what bolt documents, the driver keeps the contract of a store: after a
  -- batch of versions of the right size each key reads as the last entry for it, or as before.
  pub bolt_store-StoreLaws : StoreLaws (bolt_store bucket)
  bolt_store-StoreLaws = record { get-set_batch = get-set_batch }

-- What the catalog says of a key with these bytes.
abbrev pub listed : Reply → Option Version
listed r = elim r.failed [ none ↦ some r.version | some e ↦ none ]

lookup-list_loop :
    (es : GoMap Bytes) (catalog : GoMap Version) (k : Bytes)
    → IsUnique es
    → lookup k (list_loop es catalog) ≡ elim (lookup k es) [
      | none ↦ lookup k catalog
      | some d ↦ elim (listed (read_data d)) [ none ↦ lookup k catalog | some v ↦ some v ]
    ]
unfolding list_loop lookup read_data
lookup-list_loop [] catalog k u = refl
lookup-list_loop ((j, d) ∷ es) catalog k u =
    let v = Version.unmarshal_binary (take version_bytes d) in
    ground (
      arith,
      u.0,
      lookup-list_loop es catalog k u.1,
      lookup-list_loop es (insert j v catalog) k u.1,
      lookup-insert j k v catalog,
      bytes_eq_iff j k,
    )

-- Over a bucket that does what bolt documents, `List` has exactly the keys that `Get` reads without
-- an error, each with the version that `Get` returns.
pub lookup-list :
    {B : Type 0} (bucket : Bucket B) (b : B) (k : Bytes)
    → CursorLaws bucket b
    → lookup k (list bucket b) ≡ listed (get bucket b k)
unfolding list get lookup read_data
lookup-list bucket b k laws =
    ground (arith, lookup-list_loop (bucket.entries b) [] k laws.once, laws.walked k)
