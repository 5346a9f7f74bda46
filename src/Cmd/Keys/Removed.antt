-- ===== src/Cmd/Keys/Removed.antt =====
-- A command that saves a key ring or ends with an error, and the command `rm`.
use sporedb.Common.{
  ◌≡◌, refl, arith, false, List, length, ◌==◌, Bytes, lookup, lookup-erase, erase-All, Error,
  Result, ok, err, panic, stuck, ◌∙◌, sym, subst, inl, inr,
}
use mathlib.Core.Option
use sporedb.Sec.Keys.{Key, Ring, Crypto, Block, remove_public}
use sporedb.Sec.Keys.Named.{remove_public-AreKeys}
use sporedb.Sec.Keys.Saved.{saved}
use sporedb.Cmd.Keys.{save_key_ring, keys_remove}
use sporedb.Cmd.Keys.Stored.{IsWritable, PrivateLaws, IsSavable, Holds, save_key_ring-Holds}
use sporedb.Cmd.Keys.Meaning.{
  removed, run_change, Names, without, meaning, get_arg-ne, get_arg-cases,
}

module _ (c : Crypto) (b : Block) (laws : PrivateLaws c b) where
  -- What the file holds after a command that saves a key ring, or that ends with an error
  pub Saves :
      (k : Ring) (known : Names) (r : Result Bytes) (raw : Bytes)
      → r ≡ save_key_ring c k
      → IsSavable c b k
      → ((name : Bytes) → lookup name k.keys ≡ Option.map saved (known name))
      → Holds c b (elim r [ ok x ↦ x | err e ↦ raw | panic ↦ raw | stuck ↦ raw ]) known
  Saves k known r raw e h same =
      let (raw1, m, held) = save_key_ring-Holds c b laws k known h same in
      subst (λ x. Holds c b (elim x [ ok x ↦ x | err e ↦ raw | panic ↦ raw | stuck ↦ raw ]) known)
        (sym (e ∙ m)) held

  remove_public-IsSavable :
      (identity : Bytes) (k : Ring)
      → (length identity == 0) ≡ false
      → IsSavable c b k
      → IsSavable c b (remove_public identity k)
  unfolding remove_public
  remove_public-IsSavable identity k x h = record {
    keys = remove_public-AreKeys identity k h.keys;
    writable =
        rw (x, remove_public)
          (erase-All (λ (y : Bytes × Key). IsWritable c y.1) identity k.keys h.writable);
    armored = rw (x, remove_public) h.armored;
  }

  lookup-remove_public :
      (identity name : Bytes) (k : Ring) (known : Names)
      → (length identity == 0) ≡ false
      → ((name : Bytes) → lookup name k.keys ≡ Option.map saved (known name))
      → lookup name (remove_public identity k).keys ≡ Option.map saved (without identity known name)
  unfolding remove_public
  lookup-remove_public identity name k known x same =
      ground (arith, lookup-erase identity name k.keys, same name)

  -- A command that ends with an error
  pub Fails :
      (r : Result Bytes) (e : Error) (raw : Bytes) (known : Names)
      → r ≡ err e
      → Holds c b raw known
      → Holds c b (elim r [ ok x ↦ x | err e ↦ raw | panic ↦ raw | stuck ↦ raw ]) known
  Fails r e raw known x h =
      subst (λ x. Holds c b (elim x [ ok x ↦ x | err e ↦ raw | panic ↦ raw | stuck ↦ raw ]) known)
        (sym x) h

  pub removed-Holds :
      (args : List Bytes) (raw : Bytes) (known : Names)
      → Holds c b raw known
      → Holds c b (run_change c (removed args) raw) (meaning (removed args) known)
  unfolding keys_remove
  removed-Holds args raw known h = elim (get_arg-cases args 0) [
    | inl (identity, x) ↦
        let n = get_arg-ne args 0 identity x in
        rw (x, meaning)
          (Saves (remove_public identity h.ring) (without identity known) (keys_remove c args raw)
            raw (rw (h.loaded, x, keys_remove) refl)
            (remove_public-IsSavable identity h.ring n h.savable)
            (λ name. lookup-remove_public identity name h.ring known n h.same))
    | inr (e, x) ↦
        rw (x, meaning)
          (Fails (keys_remove c args raw) e raw known (rw (h.loaded, x, keys_remove) refl) h)
  ]
