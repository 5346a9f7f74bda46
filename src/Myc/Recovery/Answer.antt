-- ===== src/Myc/Recovery/Answer.antt =====
-- The other side of a recovery in myc/recovery.go, `handleRecoverRequest`, and `StartFullSync`.
use sporedb.Common.{
  ℕ, ◌≤◌, ◌≡◌, arith, Bool, true, false, ◌==◌, Option, none, some, List, [], ◌∷◌, length, Bytes,
  bytes_eq, GoMap, lookup, Result, ok, err, panic, stuck, if◌then◌else◌, ap, ◌∙◌,
}
use sporedb.Version.{Version}
use sporedb.World.{World}
use sporedb.Db
use sporedb.Db.{Db}
use sporedb.Myc.Recovery.{
  Raw, Recovery, Peer, Texts, Mycelium, fits_version, get_message, add_answer, handle_raw,
}

-- What is sent for a request
pub data Answer : Type 0 where
  catalog_answer : GoMap Version → Answer
  raw_answer : Raw → Answer

abbrev pub unsigned : Bytes → Version → Bytes → Raw
unsigned key version value = record { key = key; version = version; data' = value; signature = [] }

-- The loop of `StartFullSync`: the first peer of the identity
unfoldable pub find_peer : Bytes → List Peer → Option Peer
find_peer identity [] = none
find_peer identity (p ∷ peers) =
    if bytes_eq p.identity identity then some p else find_peer identity peers

module _ {w : World} where
  -- The answer to a request, given the listing of a store; nothing is sent after an error.
  unfoldable pub answer_for :
      (w.S → Result (GoMap Version)) → Texts → Bytes → Db w → Result (Option Answer)
  unfolding get_message
  answer_for list t key db =
      if length key == 0
      then elim (list db.store) [
        | ok keys ↦ ok (some (catalog_answer keys))
        | err _ ↦ ok none
        | panic ↦ panic
        | stuck ↦ stuck
      ]
      else let reply = Db.get w key db in
        elim reply.failed [
          | some _ ↦ ok none
          | none ↦
              let raw = unsigned key reply.version reply.value in
              elim (w.keys.sign db.keyring (get_message t raw)) [
                | ok signature ↦ ok (some (raw_answer (record raw { signature = signature })))
                | err _ ↦ ok none
                | panic ↦ panic
                | stuck ↦ stuck
              ]
        ]

  -- `handleRecoverRequest`: the bytes that are sent to the peer
  unfoldable pub handle_recover_request :
      (w.S → Result (GoMap Version))
      → Texts
      → (Answer → Result Bytes)
      → Bytes
      → Db w
      → Result (List Bytes)
  unfolding answer_for
  handle_recover_request list t pack key db = elim (answer_for list t key db) [
    | ok none ↦ ok []
    | ok (some a) ↦ elim (pack a) [
      | ok packed ↦ ok (packed ∷ [])
      | err _ ↦ ok []
      | panic ↦ panic
      | stuck ↦ stuck
    ]
    | err e ↦ err e
    | panic ↦ panic
    | stuck ↦ stuck
  ]

  -- `StartFullSync`, and whether the request was sent
  unfoldable pub start_full_sync : Bytes → List Peer → Mycelium w → Mycelium w × Bool
  unfolding find_peer
  start_full_sync identity peers m = elim (find_peer identity peers) [
    | none ↦ (m, false)
    | some p ↦ if p.trusted then (record m { full_sync_peer = identity }, true) else (m, false)
  ]

  -- What an answer carries is the entry of the store, signed.
  answer_for-raw :
      (list : w.S → Result (GoMap Version)) (t : Texts) (key : Bytes) (db : Db w) (raw : Raw)
      → answer_for list t key db ≡ ok (some (raw_answer raw))
      → (raw.key ≡ key)
        × (raw.data' ≡ (Db.get w key db).value)
        × (raw.version ≡ (Db.get w key db).version)
        × (w.keys.sign db.keyring (get_message t raw) ≡ ok raw.signature)
  unfolding answer_for get_message
  answer_for-raw list t key db raw e = ground arith

  -- An answer of a node to the request for a key, taken by a node that recovers the key and still
  -- waits: if the session with the first is trusted, the value fits its version (or the key is
  -- internal), and the second takes the signatures of the first for valid, then the answer is
  -- counted, and it carries the value and the version that the store of the first has.
  pub handle_raw-answer_for :
      (list : w.S → Result (GoMap Version)) (t : Texts) (now : ℕ) (key : Bytes) (theirs : Db w)
      (raw : Raw) (peer : Peer) (m : Mycelium w) (r : Recovery)
      → answer_for list t key theirs ≡ ok (some (raw_answer raw))
      → ((b s : Bytes)
          → w.keys.sign theirs.keyring b ≡ ok s
          → w.keys.verify m.db.keyring peer.identity b s ≡ ok tt)
      → peer.trusted ≡ true
      → fits_version w.sha512 raw ≡ true
      → lookup key m.recoveries ≡ some r
      → r.stale ≡ false
      → now ≤ r.deadline
      → (handle_raw t now peer raw m ≡ add_answer t peer raw r m)
        × (raw.data' ≡ (Db.get w key theirs).value)
        × (raw.version ≡ (Db.get w key theirs).version)
  unfolding handle_raw
  handle_raw-answer_for list t now key theirs raw peer m r a valid trusted fits found live soon =
      let (named, carried, dated, signed) = answer_for-raw list t key theirs raw a in
      let checked = valid (get_message t raw) raw.signature signed in
      let there : lookup raw.key m.recoveries ≡ some r =
        ap (λ k. lookup k m.recoveries) named ∙ found in
      (ground (arith, checked, there, trusted, fits, live, soon), carried, dated)
