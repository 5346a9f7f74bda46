-- ===== src/BoltDb.antt =====
-- db/drivers/boltdb/driver.go: the store that a node has by default, over one bucket of a bolt
-- database. A transaction of the package bolt keeps all of its changes or none, so a batch that
-- fails leaves the bucket as it was.
pub mod Contract
use sporedb.Common.{
  Option, none, some, List, [], ◌∷◌, ◌++◌, Bytes, GoMap, insert, Result, ok, err, panic, ◌>>=◌,
  length, take, drop, ltb, if◌then◌else◌, not_found,
}
use sporedb.Version
use sporedb.Version.{Version, no_version, version_bytes}
use sporedb.World.{Reply, Write, Store}

-- What the driver calls of the package bolt, on the state `B` of its bucket.
pub record Bucket (B : Type 0) : Type 0 where
  -- `Bucket.Get`, `none` for nil
  pub get : B → Bytes → Option Bytes
  -- `Bucket.Put`
  pub put : B → Bytes → Bytes → Result B
  -- The pairs that a `Cursor` walks over
  pub entries : B → GoMap Bytes

abbrev pub not_found_reply : Reply
not_found_reply = record { value = []; version = no_version; failed = some not_found }

-- What `Get` makes of the bytes of a key.
unfoldable pub read_data : Bytes → Reply
read_data d = if ltb (length d) version_bytes then not_found_reply else record {
  value = drop version_bytes d;
  version = Version.unmarshal_binary (take version_bytes d);
  failed = none;
}

-- The loop of `List`
unfoldable pub list_loop : GoMap Bytes → GoMap Version → GoMap Version
list_loop [] catalog = catalog
list_loop ((k, d) ∷ entries) catalog =
    let rest = list_loop entries catalog in
    if ltb (length d) version_bytes
    then rest
    else list_loop entries (insert k (Version.unmarshal_binary (take version_bytes d)) catalog)

module _ {B : Type 0} (bucket : Bucket B) where
  -- `S.Get`; the value is a copy, where the code answers with the memory of the transaction.
  unfoldable pub get : B → Bytes → Reply
  unfolding read_data
  get b key = read_data (elim (bucket.get b key) [ none ↦ [] | some d ↦ d ])

  -- One round of the loop of `SetBatch`. To cut a version to its size panics on a shorter one.
  unfoldable pub put_write : B → Write → Result B
  put_write b x =
      let rv = Version.marshal_binary x.version in
      if ltb (length rv) version_bytes
      then panic
      else bucket.put b x.key (take version_bytes rv ++ x.value)

  -- `S.SetBatch`
  unfoldable pub set_batch : B → List Write → Result B
  unfolding put_write
  set_batch b [] = ok b
  set_batch b (x ∷ ws) = put_write b x >>= λ b1. set_batch b1 ws

  -- `S.Set`
  unfoldable pub set : B → Write → Result B
  unfolding set_batch
  set b x = set_batch b (x ∷ [])

  -- `S.List`
  unfoldable pub list : B → GoMap Version
  unfolding list_loop
  list b = list_loop (bucket.entries b) []

  abbrev pub bolt_store : Store B
  bolt_store = record { get = get; set = set; set_batch = set_batch }
