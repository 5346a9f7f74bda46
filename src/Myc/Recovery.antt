-- ===== src/Myc/Recovery.antt =====
-- myc/recovery.go: a node asks its peers for the value of a key, and takes one on which enough of
-- them agree.
pub mod Quorum
pub mod Sound
pub mod Reach
pub mod Answer
pub mod Catalog
use sporedb.Common.{
  ℕ, ◌+◌, Bool, true, false, not, ◌||◌, ◌&&◌, Option, none, some, List, [], ◌∷◌, ◌++◌, Bytes,
  bytes_eq, GoMap, lookup, insert, erase, has_prefix, Result, ok, err, panic, stuck, length, leb,
  ltb, if◌then◌else◌,
}
use sporedb.Version
use sporedb.Version.{Version}
use sporedb.Policy.{internal_key_prefix}
use sporedb.World.{World, Write}
use sporedb.Db.{Db}

-- `protocol.Raw`: a peer's answer.
pub record Raw : Type 0 where
  pub key : Bytes
  pub version : Version
  pub data' : Bytes
  pub signature : Bytes

-- `recovery`; the times are in nanoseconds.
pub record Recovery : Type 0 where
  pub deadline : ℕ
  pub answers : GoMap Raw
  pub quorum : ℕ
  pub stale : Bool

-- What the handlers read of a `Peer`: whether its session is trusted, too.
pub record Peer : Type 0 where
  pub identity : Bytes
  pub trusted : Bool

-- The texts of versions and of raw messages, which the package protobuf makes.
pub record Texts : Type 0 where
  -- `V.String`
  pub version_text : Version → Bytes
  -- `proto.Marshal` of a raw message
  pub marshal_raw : Raw → Bytes

-- The part of `Mycelium` that recoveries read and change; `requested` has the keys of the
-- `RecoverRequest`s that were broadcast, oldest first.
pub record Mycelium (w : World) : Type 0 where
  pub db : Db w
  pub recoveries : GoMap Recovery
  pub full_sync_peer : Bytes
  pub recovery_quorum : ℕ
  pub requested : List Bytes

-- The loop of `checkQuorum` that counts: how often a version was seen, and the last answer with it.
unfoldable pub tally : Texts → GoMap Raw → GoMap ℕ → GoMap Raw → GoMap ℕ × GoMap Raw
tally t [] count raws = (count, raws)
tally t ((_, r) ∷ answers) count raws =
    let id = t.version_text r.version in
    let c : ℕ = elim (lookup id count) [ none ↦ 0 | some c ↦ c ] in
    tally t answers (insert id (c + 1) count) (insert id r raws)

-- The loop that looks for a count.
unfoldable pub find_quorum : ℕ → GoMap ℕ → GoMap Raw → Option Raw
find_quorum quorum [] raws = none
find_quorum quorum ((id, c) ∷ count) raws =
    if leb quorum c then lookup id raws else find_quorum quorum count raws

-- `checkQuorum`
unfoldable pub check_quorum : Texts → Recovery → Option Raw
unfolding tally find_quorum
check_quorum t r = let (count, raws) = tally t r.answers [] [] in find_quorum r.quorum count raws

-- `Raw.GetMessage`
unfoldable pub get_message : Texts → Raw → Bytes
get_message t r = t.marshal_raw (record r { signature = [] })

-- The check of an answer's version, over the hash of versions: a key of the system is not checked.
unfoldable pub fits_version : (Bytes → Bytes) → Raw → Bool
fits_version sha512 raw =
    has_prefix raw.key internal_key_prefix
    || elim (Version.matches (Version.new sha512 raw.data') raw.version) [
      | ok _ ↦ true
      | err _ ↦ false
      | panic ↦ false
      | stuck ↦ false
    ]

-- One minute
abbrev pub recovery_time : ℕ
recovery_time = 60_000_000_000

module _ {w : World} where
  -- `StartRecovery`
  unfoldable pub start_recovery : ℕ → Bytes → ℕ → Mycelium w → Mycelium w
  start_recovery now key quorum m = elim (lookup key m.recoveries) [
    | some _ ↦ m
    | none ↦ record m {
      recoveries =
          insert key
            (record {
              deadline = now + recovery_time;
              answers = [];
              quorum = quorum;
              stale = false;
            })
            m.recoveries;
    }
  ]

  -- `StopRecovery`
  unfoldable pub stop_recovery : Bytes → Mycelium w → Mycelium w
  stop_recovery key m = record m { recoveries = erase key m.recoveries }

  -- The value on which the peers agree is stored; an error of the store is dropped.
  unfoldable pub store_result : Bytes → Raw → Mycelium w → Mycelium w × Result (Unit {0})
  unfolding stop_recovery
  store_result key result m =
      elim (w.store.set m.db.store
        (record { key = result.key; value = result.data'; version = result.version })) [
          | ok store' ↦
              (stop_recovery key (record m { db = record m.db { store = store' } }), ok tt)
          | err _ ↦ (stop_recovery key m, ok tt)
          | panic ↦ (m, panic)
          | stuck ↦ (m, stuck)
        ]

  -- An answer that has passed the checks is noted under its peer.
  unfoldable pub add_answer :
      Texts → Peer → Raw → Recovery → Mycelium w → Mycelium w × Result (Unit {0})
  unfolding store_result check_quorum
  add_answer t peer raw r m =
      let r1 = record r { answers = insert peer.identity raw r.answers } in
      let m1 = record m { recoveries = insert raw.key r1 m.recoveries } in
      if leb r1.quorum (length r1.answers)
      then elim (check_quorum t r1) [
        | some result ↦ store_result raw.key result m1
        | none ↦ (m1, ok tt)
      ]
      else (m1, ok tt)

  -- `handleRaw`
  unfoldable pub handle_raw : Texts → ℕ → Peer → Raw → Mycelium w → Mycelium w × Result (Unit {0})
  unfolding add_answer fits_version get_message stop_recovery
  handle_raw t now peer raw m =
      if not peer.trusted then (m, ok tt) else elim (lookup raw.key m.recoveries) [
        | none ↦ (m, ok tt)
        | some r ↦
            if r.stale || ltb r.deadline now
            then (stop_recovery raw.key m, ok tt)
            else if not (fits_version w.sha512 raw)
            then (m, ok tt)
            else elim (w.keys.verify m.db.keyring peer.identity (get_message t raw) raw.signature) [
              | ok _ ↦ add_answer t peer raw r m
              | err _ ↦ (m, ok tt)
              | panic ↦ (m, panic)
              | stuck ↦ (m, stuck)
            ]
      ]

  -- The loop of `handleCatalog`. The error of `Get` is dropped.
  unfoldable pub compare_catalog : ℕ → GoMap Version → Mycelium w → Mycelium w × Result (Unit {0})
  unfolding start_recovery
  compare_catalog now [] m = (m, ok tt)
  compare_catalog now ((k, v) ∷ keys) m =
      elim (Version.matches v (w.store.get m.db.store k).version) [
        | ok _ ↦ compare_catalog now keys m
        | err _ ↦
            let m1 = start_recovery now k m.recovery_quorum m in
            compare_catalog now keys (record m1 { requested = m1.requested ++ (k ∷ []) })
        | panic ↦ (m, panic)
        | stuck ↦ (m, stuck)
      ]

  -- `handleCatalog`
  unfoldable pub handle_catalog :
      ℕ → Peer → GoMap Version → Mycelium w → Mycelium w × Result (Unit {0})
  unfolding compare_catalog
  handle_catalog now peer keys m =
      if not (bytes_eq peer.identity m.full_sync_peer) || not peer.trusted
      then (m, ok tt)
      else compare_catalog now keys (record m { full_sync_peer = [] })
