-- ===== src/World.antt =====
-- What the package db works with and does not implement itself: the interfaces `db.Store` and
-- `sec.KeyRing`, which drivers and key rings fill, and the packages that it only calls (floating
-- point, regular expressions, hashes, the wire format and the cache of recent hashes).
use sporedb.Common.{
  length, All, ◌≡◌, Option, none, List, [], ◌∷◌, Bytes, bytes_eq, Result, Error, ok, if◌then◌else◌,
}
use sporedb.Version
use sporedb.Version.{Version, nil, no_version, hashed, version_bytes, zeros}
use sporedb.Encoding.Float.{BigFloat}
use sporedb.Policy.{Regexp}
use sporedb.Spore.{Spore}

-- What `Get` returns.
pub record Reply : Type 0 where
  pub value : Bytes
  pub version : Version
  pub failed : Option Error

-- One entry of a batch.
pub record Write : Type 0 where
  pub key : Bytes
  pub value : Bytes
  pub version : Version

-- db/store.go: the interface `Store`, on the state `S` of a driver. The lock is not modelled: the
-- model's calls are atomic.
pub record Store (S : Type 0) : Type 0 where
  pub get : S → Bytes → Reply
  pub set : S → Write → Result S
  pub set_batch : S → List Write → Result S

-- A stored version as `Get` returns it: a nil one is stored as zeros.
abbrev pub as_stored : Version → Version
as_stored nil = hashed (zeros version_bytes)
as_stored no_version = no_version
as_stored (hashed h) = hashed h

abbrev pub reply_of : Write → Reply
reply_of x = record { value = x.value; version = as_stored x.version; failed = none }

-- What a key reads as after a batch: the last entry for the key wins.
unfoldable pub written : Bytes → List Write → Reply → Reply
written k [] r = r
written k (x ∷ ws) r = written k ws (if bytes_eq x.key k then reply_of x else r)

-- A write whose version has the size of a hash; a nil one is stored at that size.
abbrev pub IsStorable : Write → Type 0
IsStorable x = length (Version.marshal_binary x.version) ≡ version_bytes

-- The contract of a store: a batch of versions of the right size that is written changes what its
-- keys read as, and nothing else.
pub record StoreLaws {S : Type 0} (st : Store S) : Type 0 where
  pub get-set_batch :
      (s s' : S) (ws : List Write) (k : Bytes)
      → All IsStorable ws
      → st.set_batch s ws ≡ ok s'
      → st.get s' k ≡ written k ws (st.get s k)

-- myc/sec/keys.go: what the database asks of a `KeyRing`, on the state `K` of one.
pub record KeyRing (K : Type 0) : Type 0 where
  -- `Sign`
  pub sign : K → Bytes → Result Bytes
  -- `GetPublic`; the trust level is not read
  pub get_public : K → Bytes → Result Bytes
  -- `Verify from cleartext signature`
  pub verify : K → Bytes → Bytes → Bytes → Result (Unit {0})

-- The package golang-lru: the cache of hashes by the identifier of a spore.
pub record Lru (C : Type 0) : Type 0 where
  pub new : C
  pub get : C → Bytes → Option Bytes
  pub add : C → Bytes → Bytes → C

pub record World : Type 1 where
  pub F : Type 0
  pub R : Type 0
  pub S : Type 0
  pub K : Type 0
  pub C : Type 0
  pub floats : BigFloat F
  pub regexp : Regexp R
  pub store : Store S
  pub keys : KeyRing K
  pub lru : Lru C
  -- `sha512.Sum512`
  pub sha512 : Bytes → Bytes
  -- `proto.Marshal` of a spore
  pub marshal_spore : Spore → Bytes
