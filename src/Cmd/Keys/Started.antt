-- ===== src/Cmd/Keys/Started.antt =====
-- The key ring that `keys init` makes, as the server starts with it.
use sporedb.Common.{
  ℕ, ◌≡◌, refl, arith, true, false, none, some, Bool-cases, [], ◌∷◌, ◌++◌, Bytes, bytes_eq, lookup,
  length, ◌==◌, Result, ok, err, panic, stuck, ok-injective, Option-cases, zero, suc, ◌>>=◌, ap,
  ◌∙◌, sym, subst, inl, inr,
}
use mathlib.Core.Option.{Option}
use mathlib.Core.Option
use sporedb.Sec.Trust.{trust_none, trust_ultimate}
use sporedb.Sec.Keys.{
  Key, Ring, RingCall, Crypto, Block, blank_key, new_ring, create_private, unlock_private, sign,
  is_locked, import_block, unmarshal_loop, unmarshal_binary,
}
use sporedb.Sec.Keys.Named.{AreKeys, new_ring-AreKeys, create_private-AreKeys}
use sporedb.Sec.Keys.Saved.{saved}
use sporedb.Cmd.Keys.{check_call, get_password, save_key_ring, get_key_ring, keys_init, server_ring}
use sporedb.Cmd.Keys.Stored.{IsWritable, PrivateLaws, IsSavable, save_key_ring-saved}

-- The own key that is made
abbrev pub own_key : Bytes → Key
own_key public = record blank_key {
  public = public;
  trust = trust_ultimate;
  effective_trust = trust_ultimate;
}

abbrev pub own_name : Bytes → Bytes → Option Key
own_name public [] = some (own_key public)
own_name public (x ∷ name) = none

-- The key ring with the pair of keys
abbrev made_ring : Bytes → Bytes → Block → Ring
made_ring public secret b = record new_ring {
  keys = ([], own_key public) ∷ [];
  secret = some secret;
  armored_secret = some b;
}

import_block-locked :
    (c : Crypto) (b : Block) (identity : Bytes) (trust : ℕ) (k : Ring)
    → (import_block c b identity trust k).0.secret ≡ k.secret
unfolding import_block
import_block-locked c b identity trust k = ground arith

unmarshal_loop-locked :
    (c : Crypto) (fuel : ℕ) (buffer : Bytes) (k : Ring)
    → (unmarshal_loop c fuel buffer k).0.secret ≡ k.secret
unfolding unmarshal_loop
unmarshal_loop-locked c zero buffer k = refl
unmarshal_loop-locked c (suc fuel) buffer k = elim (Bool-cases (length buffer == 0)) [
  | inl x ↦ rw (x, unmarshal_loop) refl
  | inr x ↦ elim (Option-cases (c.pem_decode buffer).0) [
    | inl y ↦ rw (x, y, unmarshal_loop) refl
    | inr (b, y) ↦
        rw (x, y, unmarshal_loop)
          (unmarshal_loop-locked c fuel _ _ ∙ import_block-locked c b [] trust_none k)
  ]
]

check_call-ok : {A : Type 0} (r : RingCall A) (k : Ring) → check_call r ≡ ok k → r.0 ≡ k
unfolding check_call
check_call-ok (k1, ok a) k e = ok-injective e
check_call-ok (k1, err x) k e = cc
check_call-ok (k1, panic) k e = cc
check_call-ok (k1, stuck) k e = cc

-- The private key of a key ring that was read is locked.
get_key_ring-locked :
    (c : Crypto) (raw : Bytes) (k : Ring) → get_key_ring c raw ≡ ok k → k.secret ≡ none
unfolding get_key_ring unmarshal_binary new_ring
get_key_ring-locked c raw k e =
    ap (λ (r : Ring). r.secret) (sym (check_call-ok (unmarshal_binary c raw new_ring) k e))
    ∙ unmarshal_loop-locked c (suc (length raw)) raw new_ring

unlock_private-decrypt :
    (c : Crypto) (password secret : Bytes) (b : Block) (k : Ring)
    → k.secret ≡ none
    → k.armored_secret ≡ some b
    → c.decrypt b password ≡ ok secret
    → c.lock secret ≡ ok secret
    → unlock_private c password k ≡ (record k { secret = some secret }, ok tt)
unfolding unlock_private is_locked
unlock_private-decrypt c password secret b k x y z m =
    rw (x, y, z, m, unlock_private)
      (ap (λ o. (record k { secret = some secret; armored_secret = o }, ok tt)) y)

module _ (c : Crypto) (password public secret : Bytes) (b : Block)
    (locked : c.lock secret ≡ ok secret) (encrypted : c.encrypt secret password ≡ ok b) where
  create_private-new_ring :
      create_private c public secret password new_ring ≡ (made_ring public secret b, ok tt)
  unfolding create_private new_ring lookup sporedb.Common.insert bytes_eq
  create_private-new_ring = rw (locked, encrypted) refl

  made_ring-IsSavable : IsWritable c (own_key public) → IsSavable c b (made_ring public secret b)
  made_ring-IsSavable writable = record {
    keys =
        subst (λ (r : RingCall (Unit {0})). AreKeys r.0.keys) create_private-new_ring
          (create_private-AreKeys c public secret password new_ring new_ring-AreKeys);
    writable = (writable, tt);
    armored = refl;
  }

  -- What `keys init` writes with a password that is not empty, the server reads and unlocks with this
  -- password when it starts: it has the block of the pair of keys that was made, signs with the
  -- private one, and knows its public key, with the highest level, and no other. That the encryption
  -- of the block can be undone, that memguard takes the private key, and that PEM and JSON give back what they were given, are hypotheses.
  pub keys_init-server_ring :
      (length password == 0) ≡ false
      → PrivateLaws c b
      → IsWritable c (own_key public)
      → c.decrypt b password ≡ ok secret
      → (raw : Bytes) × (k : Ring) × (keys_init c password public secret ≡ ok raw)
        × (server_ring c password raw ≡ ok k)
        × ((text : Bytes) → sign c k text ≡ c.sign secret text)
        × ((name : Bytes) → lookup name k.keys ≡ Option.map saved (own_name public name))
  unfolding keys_init server_ring get_password sign check_call lookup bytes_eq
  keys_init-server_ring long laws writable decrypted =
      let init : keys_init c password public secret ≡ save_key_ring c (made_ring public secret b) =
        rw (long, create_private-new_ring, keys_init) refl in
      let (raw, m, h) =
        save_key_ring-saved c b laws (made_ring public secret b) (own_name public)
          (made_ring-IsSavable writable) own_lem in
      (
        raw,
        record h.ring { secret = some secret },
        init ∙ m,
        start raw h.ring h.loaded h.savable.armored,
        λ text. refl,
        h.same,
      )
    where
      start :
          (raw : Bytes) (k : Ring)
          → get_key_ring c raw ≡ ok k
          → k.armored_secret ≡ some b
          → server_ring c password raw ≡ ok (record k { secret = some secret })
      start raw k e a =
          rw
            (
              e,
              long,
              unlock_private-decrypt c password secret b k (get_key_ring-locked c raw k e) a
                  decrypted locked,
              server_ring,
            )
            refl

      own_lem :
          (name : Bytes)
          → Option.map saved (lookup name (made_ring public secret b).keys)
            ≡ Option.map saved (own_name public name)
      own_lem [] = refl
      own_lem (x ∷ name) = refl
