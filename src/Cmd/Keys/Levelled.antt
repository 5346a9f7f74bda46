-- ===== src/Cmd/Keys/Levelled.antt =====
-- The command `trust`.
use sporedb.Common.{
  ℕ, ◌≡◌, refl, true, false, Bool-cases, Option, none, some, Option-cases, List, [], ◌∷◌, length,
  ◌==◌, Bytes, bytes_eq, bytes_eq_iff, bytes_eq_refl, lookup, insert, lookup-insert, insert-All,
  lookup-All, some-injective, unknown_identity, Error, Result, ok, err, >>=-eq-ok, ◌>>=◌, ap, ◌∙◌,
  sym, subst, inl, inr,
}
use mathlib.Core.Option
use sporedb.Sec.Keys.{
  Key, Ring, RingCall, Crypto, Block, copy_into, public_key_size, get_public, add_public,
  with_public,
}
use sporedb.Sec.Keys.Named.{IsNamed, AreKeys, add_public-AreKeys}
use sporedb.Sec.Keys.Saved.{saved, IsLevel}
use sporedb.Cmd.Keys.{check_call, save_key_ring, get_arg, get_identity, level_of, keys_trust}
use sporedb.Cmd.Keys.Stored.{IsWritable, PrivateLaws, IsSavable, Holds}
use sporedb.Cmd.Keys.Meaning.{
  levelled, run_change, Names, levelled_key, with_level, meaning, get_arg-ne, get_arg-cases,
  level_arg-cases,
}
use sporedb.Cmd.Keys.Removed.{Saves, Fails}

copy_into_self : (b : Bytes) → copy_into (length b) b ≡ b
unfolding copy_into
copy_into_self [] = refl
copy_into_self (x ∷ b) = ap (λ l. x ∷ l) (copy_into_self b)

add_public-known :
    (identity : Bytes) (t : ℕ) (key : Key) (k : Ring)
    → (length identity == 0) ≡ false
    → lookup identity k.keys ≡ some key
    → key.identity ≡ identity
    → length key.public ≡ public_key_size
    → add_public identity t key.public k
      ≡ (record k { keys = insert identity (levelled_key t key) k.keys; stale = true }, ok tt)
unfolding add_public with_public
add_public-known identity t key k x found named size =
    rw (x, size, found, bytes_eq_refl key.public, sym named, add_public, with_public) refl

get_public-known :
    (identity : Bytes) (key : Key) (k : Ring)
    → lookup identity k.keys ≡ some key
    → length key.public ≡ public_key_size
    → get_public k identity ≡ ok (key.public, key.trust)
unfolding get_public
get_public-known identity key k found size =
    rw (found, get_public)
      (ap (λ x. ok (x, key.trust))
        (ap (λ n. copy_into n key.public) (sym size) ∙ copy_into_self key.public))

passed_on : {e f : Error} {r s : Result ℕ} → r ≡ err e → s ≡ err f → r ≡ s → e ≡ f
passed_on x y z = cc

get_public-missing :
    (identity : Bytes) (k : Ring)
    → lookup identity k.keys ≡ none
    → get_public k identity ≡ err unknown_identity
unfolding get_public
get_public-missing identity k e = rw (e, get_public) refl

map-levelled :
    (t : ℕ) (o : Option Key) (key : Key)
    → Option.map saved o ≡ some key
    → Option.map saved (Option.map (levelled_key t) o) ≡ some (levelled_key t key)
map-levelled t none key e = cc
map-levelled t (some k) key e = ap (λ x. some (levelled_key t x)) (some-injective e)

map-missing :
    (t : ℕ) (o : Option Key)
    → Option.map saved o ≡ none
    → Option.map saved (Option.map (levelled_key t) o) ≡ none
map-missing t none e = refl
map-missing t (some k) e = cc

levelled-IsWritable :
    {c : Crypto} (key : Key) (t : ℕ)
    → IsWritable c key
    → IsLevel t
    → IsWritable c (levelled_key t key)
levelled-IsWritable key t w l = record {
  level = l;
  portable = w.portable;
  content = w.content;
  written = w.written;
  size = w.size;
}

module _ (c : Crypto) (b : Block) (laws : PrivateLaws c b) where
  abbrev levelled_ring : Bytes → ℕ → Key → Ring → Ring
  levelled_ring identity t key k = record k {
    keys = insert identity (levelled_key t key) k.keys;
    stale = true;
  }

  levelled_ring-IsSavable :
      (identity : Bytes) (t : ℕ) (key : Key) (k : Ring)
      → (length identity == 0) ≡ false
      → lookup identity k.keys ≡ some key
      → IsLevel t
      → IsSavable c b k
      → IsSavable c b (levelled_ring identity t key k)
  levelled_ring-IsSavable identity t key k x found level h =
      let w =
        lookup-All (λ (y : Bytes × Key). IsWritable c y.1) identity key k.keys h.writable found in
      let named = lookup-All IsNamed identity key k.keys h.keys.named found in
      record {
        keys =
            subst (λ (r : RingCall (Unit {0})). AreKeys r.0.keys)
              (add_public-known identity t key k x found named w.size)
              (add_public-AreKeys identity t key.public k h.keys);
        writable =
            insert-All (λ (y : Bytes × Key). IsWritable c y.1) identity (levelled_key t key) k.keys
              h.writable (levelled-IsWritable key t w level);
        armored = h.armored;
      }

  lookup-levelled_ring :
      (identity name : Bytes) (t : ℕ) (key : Key) (k : Ring) (known : Names)
      → lookup identity k.keys ≡ some key
      → ((name : Bytes) → lookup name k.keys ≡ Option.map saved (known name))
      → lookup name (levelled_ring identity t key k).keys
        ≡ Option.map saved (with_level identity t known name)
  lookup-levelled_ring identity name t key k known found same =
      lookup-insert identity name (levelled_key t key) k.keys
      ∙ elim (Bool-cases (bytes_eq identity name)) [
        | inl x ↦ rw x (
            sym (
              map-levelled t (known name) key (
                sym (same name)
                ∙ ap (λ n. lookup n k.keys) (sym ((bytes_eq_iff identity name).0 x))
                ∙ found)))
        | inr x ↦ rw x (same name)
      ]

  levelled_missing :
      (identity name : Bytes) (t : ℕ) (k : Ring) (known : Names)
      → lookup identity k.keys ≡ none
      → ((name : Bytes) → lookup name k.keys ≡ Option.map saved (known name))
      → lookup name k.keys ≡ Option.map saved (with_level identity t known name)
  levelled_missing identity name t k known missing same =
      elim (Bool-cases (bytes_eq identity name)) [
        | inl x ↦
            let gone =
              ap (λ n. lookup n k.keys) (sym ((bytes_eq_iff identity name).0 x)) ∙ missing in
            rw x (gone ∙ sym (map-missing t (known name) (sym (same name) ∙ gone)))
        | inr x ↦ rw x (same name)
      ]

  levelled_known :
      (args : List Bytes) (identity : Bytes) (t : ℕ) (raw : Bytes) (known : Names)
      (h : Holds c b raw known)
      → get_identity args ≡ ok identity
      → (get_arg args 1 >>= level_of) ≡ ok t
      → IsLevel t
      → Holds c b (run_change c (levelled args) raw) (with_level identity t known)
  unfolding keys_trust get_public check_call
  levelled_known args identity t raw known h x y level =
      elim (Option-cases (lookup identity h.ring.keys)) [
        | inl z ↦
            Fails c b laws (keys_trust c args raw) unknown_identity raw
              (with_level identity t known)
              (trust_lem (
                ap
                  (λ r.
                    r >>= λ p. check_call (add_public identity t p.0 h.ring) >>= save_key_ring c)
                  (get_public-missing identity h.ring z)))
              (record {
                ring = h.ring;
                loaded = h.loaded;
                savable = h.savable;
                same = λ name. levelled_missing identity name t h.ring known z h.same;
              })
        | inr (key, z) ↦
            let n = get_arg-ne args 0 identity x in
            let w =
              lookup-All (λ (y : Bytes × Key). IsWritable c y.1) identity key h.ring.keys
                h.savable.writable z in
            let named = lookup-All IsNamed identity key h.ring.keys h.savable.keys.named z in
            Saves c b laws (levelled_ring identity t key h.ring) (with_level identity t known)
              (keys_trust c args raw) raw
              (trust_lem (
                ap
                  (λ r.
                    r >>= λ p. check_call (add_public identity t p.0 h.ring) >>= save_key_ring c)
                  (get_public-known identity key h.ring z w.size)
                ∙ ap (λ r. check_call r >>= save_key_ring c)
                    (add_public-known identity t key h.ring n z named w.size)))
              (levelled_ring-IsSavable identity t key h.ring n z level h.savable)
              (λ name. lookup-levelled_ring identity name t key h.ring known z h.same)
      ]
    where
      trust_lem :
          {r : Result Bytes}
          → (get_public h.ring identity >>= λ p.
              check_call (add_public identity t p.0 h.ring) >>= save_key_ring c)
            ≡ r
          → keys_trust c args raw ≡ r
      trust_lem e =
          let (text, p, q) = >>=-eq-ok (get_arg args 1) level_of t y in
          rw (h.loaded, x, p, q, keys_trust) e

  trust_fails :
      (args : List Bytes) (identity raw : Bytes) (known : Names) (e : Error)
      → Holds c b raw known
      → get_identity args ≡ ok identity
      → (get_arg args 1 >>= level_of) ≡ err e
      → keys_trust c args raw ≡ err e
  unfolding keys_trust
  trust_fails args identity raw known e h x y = elim (get_arg-cases args 1) [
    | inl (text, p) ↦
        let q = ap (λ r. r >>= level_of) (sym p) ∙ y in rw (h.loaded, x, p, q, keys_trust) refl
    | inr (e1, p) ↦
        let q = ap (λ r. r >>= level_of) (sym p) ∙ y in
        rw (h.loaded, x, p, keys_trust) (ap err (passed_on refl refl q))
  ]

  pub levelled-Holds :
      (args : List Bytes) (raw : Bytes) (known : Names)
      → Holds c b raw known
      → Holds c b (run_change c (levelled args) raw) (meaning (levelled args) known)
  unfolding keys_trust
  levelled-Holds args raw known h = elim (get_arg-cases args 0) [
    | inl (identity, x) ↦ elim (level_arg-cases args) [
      | inl (t, y, level) ↦
          rw (x, y, meaning) (levelled_known args identity t raw known h x y level)
      | inr (e, y) ↦
          rw (x, y, meaning)
            (Fails c b laws (keys_trust c args raw) e raw known
              (trust_fails args identity raw known e h x y) h)
    ]
    | inr (e, x) ↦
        rw (x, meaning)
          (Fails c b laws (keys_trust c args raw) e raw known (rw (h.loaded, x, keys_trust) refl) h)
  ]
