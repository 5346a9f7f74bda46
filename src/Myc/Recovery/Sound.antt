-- ===== src/Myc/Recovery/Sound.antt =====
-- What a recovery may put into the store.
use sporedb.Common.{
  leb, length, ℕ, ◌≤◌, ◌≡◌, refl, arith, true, none, some, Bytes, lookup, insert, erase, IsUnique,
  insert-IsUnique, All, lookup-All, insert-All, ok, Bool-cases, Option-cases, Result-cases, inl,
  inr, ◌⊎◌, ap, ◌∙◌,
}
use sporedb.World.{World}
use sporedb.Myc.Recovery.{
  Raw, Recovery, Peer, Texts, Mycelium, check_quorum, fits_version, get_message, stop_recovery,
  store_result, add_answer, handle_raw,
}
use sporedb.Myc.Recovery.Quorum.{votes, check_quorum-some}

-- An answer for the key, whose version is that of its data, if the key is not one of the system.
abbrev pub Fits : (Bytes → Bytes) → Bytes → Raw → Type 0
Fits sha512 key a = (a.key ≡ key) × (fits_version sha512 a ≡ true)

-- The answers of a recovery: each fits, and no peer has two.
abbrev pub SoundAt : (Bytes → Bytes) → Bytes × Recovery → Type 0
SoundAt sha512 (key, r) = All (λ e. Fits sha512 key e.1) r.answers × IsUnique r.answers

-- The recovery with the new answer.
abbrev pub answered : Peer → Raw → Recovery → Recovery
answered peer raw r = record r { answers = insert peer.identity raw r.answers }

pub answered-SoundAt :
    (sha512 : Bytes → Bytes) (peer : Peer) (raw : Raw) (r : Recovery)
    → SoundAt sha512 (raw.key, r)
    → fits_version sha512 raw ≡ true
    → SoundAt sha512 (raw.key, answered peer raw r)
answered-SoundAt sha512 peer raw r h fits = (
  insert-All (λ e. Fits sha512 raw.key e.1) peer.identity raw r.answers h.0 (refl, fits),
  insert-IsUnique peer.identity raw r.answers h.1,
)

module _ {w : World} where
  abbrev pub IsSound : Mycelium w → Type 0
  IsSound m = All (SoundAt w.sha512) m.recoveries

  -- What the handler does with an answer in a recovery that is open.
  pub handle_raw_outcomes :
      (t : Texts) (now : ℕ) (peer : Peer) (raw : Raw) (m : Mycelium w) (r : Recovery)
      → lookup raw.key m.recoveries ≡ some r
      → ((handle_raw t now peer raw m).0 ≡ m)
        ⊎ ((handle_raw t now peer raw m).0 ≡ stop_recovery raw.key m)
        ⊎ ((peer.trusted ≡ true)
            × (fits_version w.sha512 raw ≡ true)
            × (w.keys.verify m.db.keyring peer.identity (get_message t raw) raw.signature ≡ ok tt)
            × (handle_raw t now peer raw m ≡ add_answer t peer raw r m))
  unfolding handle_raw
  handle_raw_outcomes t now peer raw m r found = ground arith

  pub handle_raw_closed :
      (t : Texts) (now : ℕ) (peer : Peer) (raw : Raw) (m : Mycelium w)
      → lookup raw.key m.recoveries ≡ none
      → (handle_raw t now peer raw m).0 ≡ m
  unfolding handle_raw
  handle_raw_closed t now peer raw m closed = ground arith

  -- The mycelium with it.
  abbrev pub noted : Peer → Raw → Recovery → Mycelium w → Mycelium w
  noted peer raw r m = record m { recoveries = insert raw.key (answered peer raw r) m.recoveries }

  pub store_result_outcomes :
      (key : Bytes) (x : Raw) (m : Mycelium w)
      → (((store_result key x m).0.db ≡ m.db)
          ⊎ ((store' : w.S) × (w.store.set m.db.store
                  (record { key = x.key; value = x.data'; version = x.version })
                ≡ ok store')
              × ((store_result key x m).0.db ≡ record m.db { store = store' })))
        × (((store_result key x m).0.recoveries ≡ m.recoveries)
            ⊎ ((store_result key x m).0.recoveries ≡ erase key m.recoveries))
  unfolding store_result
  store_result_outcomes key x m =
      elim (Result-cases
        (w.store.set m.db.store (record { key = x.key; value = x.data'; version = x.version }))) [
          | inl (store', set) ↦ (inr (store', set, ground arith), inr (ground arith))
          | inr (inl (e, refused)) ↦ (inl (ground arith), inr (ground arith))
          | inr (inr (inl p)) ↦ (inl (ground arith), inl (ground arith))
          | inr (inr (inr p)) ↦ (inl (ground arith), inl (ground arith))
        ]

  pub add_answer_outcomes :
      (t : Texts) (peer : Peer) (raw : Raw) (r : Recovery) (m : Mycelium w)
      → ((add_answer t peer raw r m).0 ≡ noted peer raw r m)
        ⊎ ((x : Raw) × (check_quorum t (answered peer raw r) ≡ some x)
            × (add_answer t peer raw r m ≡ store_result raw.key x (noted peer raw r m)))
  unfolding add_answer
  add_answer_outcomes t peer raw r m = elim (Option-cases (check_quorum t (answered peer raw r))) [
    | inl few ↦ inl (ground arith)
    | inr (x, agreed) ↦ elim (Bool-cases (leb r.quorum (length (answered peer raw r).answers))) [
      | inl many ↦ inr (x, agreed, ground arith)
      | inr few ↦ inl (ground arith)
    ]
  ]

  -- An answer changes nothing of the database but the store, and that only if the recovery of its
  -- key is open, the peer is trusted and has signed it, and with it a quorum of peers have answered
  -- with the version of the value that is stored; that value is for the key, and its version is that
  -- of its data, if the key is not one of the system.
  pub handle_raw_stores :
      (t : Texts) (now : ℕ) (peer : Peer) (raw : Raw) (m : Mycelium w)
      → IsSound m
      → ((handle_raw t now peer raw m).0.db ≡ m.db)
        ⊎ ((r : Recovery) × (x : Raw) × (store' : w.S) × (lookup raw.key m.recoveries ≡ some r)
            × (peer.trusted ≡ true)
            × (w.keys.verify m.db.keyring peer.identity (get_message t raw) raw.signature ≡ ok tt)
            × (r.quorum ≤ votes t (t.version_text x.version) (answered peer raw r).answers)
            × IsUnique (answered peer raw r).answers
            × Fits w.sha512 raw.key x
            × (w.store.set m.db.store (record { key = x.key; value = x.data'; version = x.version })
                ≡ ok store')
            × ((handle_raw t now peer raw m).0.db ≡ record m.db { store = store' }))
  unfolding stop_recovery
  handle_raw_stores t now peer raw m sound = elim (Option-cases (lookup raw.key m.recoveries)) [
    | inl closed ↦ inl (ap (λ x. x.db) (handle_raw_closed t now peer raw m closed))
    | inr (r, found) ↦ elim (handle_raw_outcomes t now peer raw m r found) [
      | inl same ↦ inl (ap (λ x. x.db) same)
      | inr (inl gone) ↦ inl (ap (λ x. x.db) gone)
      | inr (inr (trusted, fits, signed, run)) ↦ elim (add_answer_outcomes t peer raw r m) [
        | inl waits ↦ inl (ap (λ c. c.0.db) run ∙ ap (λ x. x.db) waits)
        | inr (x, agreed, stores) ↦
            let at_key =
              answered-SoundAt w.sha512 peer raw r
                (lookup-All (SoundAt w.sha512) raw.key r m.recoveries sound found) fits in
            let (many, of_key) =
              check_quorum-some t (Fits w.sha512 raw.key) (answered peer raw r) x at_key.0 agreed in
            elim (store_result_outcomes raw.key x (noted peer raw r m)).0 [
              | inl same ↦ inl (ap (λ c. c.0.db) (run ∙ stores) ∙ same)
              | inr (store', set, stored) ↦ inr (
                r,
                x,
                store',
                found,
                trusted,
                signed,
                many,
                at_key.1,
                of_key,
                set,
                ap (λ c. c.0.db) (run ∙ stores) ∙ stored,
              )
            ]
      ]
    ]
  ]
