-- ===== src/Sec/Ring/Reach.antt =====
-- The key rings that the operations lead to, and what holds of each.
use sporedb.Common.{
  ℕ, suc, ◌≡◌, refl, Option-cases, Bytes, lookup, ap, ◌∙◌, sym, subst, length, Result-cases, ok,
  ok-injective, Bool-cases, inl, inr, if◌then◌else◌,
}
use sporedb.Sec.Keys.{
  Signature, Ring, Crypto, new_ring, lock_private, unlock_private, create_private, add_public,
  remove_public, import, unmarshal_binary,
}
use sporedb.Sec.Keys.Named.{
  AreKeys, new_ring-AreKeys, add_public-AreKeys, remove_public-AreKeys, unlock_private-AreKeys,
  create_private-AreKeys, import-AreKeys, unmarshal_binary-AreKeys,
}
use sporedb.Sec.Web.{build_trust_web}
use sporedb.Sec.Web.Kept.{build_trust_web-AreKeys, update-AreKeys}
use sporedb.Sec.Ring.{clear_stale, made_signature, add_signature}
use sporedb.Sec.Ring.Fresh.{IsFresh, new_ring-IsFresh, Cleared-IsFresh}
use sporedb.Sec.Ring.Stale.{
  Stales-IsFresh, add_public-Stales, remove_public-Stales, import-Stales, unmarshal_loop-Stales,
  add_signature-Stales, unlock_private-IsFresh, create_private-IsFresh,
}

-- The key rings that the operations lead to
pub data Reach (c : Crypto) : Ring → Type 0 where
  made : Reach c new_ring
  locked : (k : Ring) → Reach c k → Reach c (lock_private k)
  unlocked : (password : Bytes) (k : Ring) → Reach c k → Reach c (unlock_private c password k).0
  created :
      (public secret password : Bytes) (k : Ring)
      → Reach c k
      → Reach c (create_private c public secret password k).0
  added :
      (identity : Bytes) (trust : ℕ) (b : Bytes) (k : Ring)
      → Reach c k
      → Reach c (add_public identity trust b k).0
  removed : (identity : Bytes) (k : Ring) → Reach c k → Reach c (remove_public identity k)
  imported :
      (input identity : Bytes) (trust : ℕ) (k : Ring)
      → Reach c k
      → Reach c (import c input identity trust k).0
  unmarshalled : (b : Bytes) (k : Ring) → Reach c k → Reach c (unmarshal_binary c b k).0
  signed :
      (identity from : Bytes) (s : Signature) (k : Ring)
      → Reach c k
      → Reach c (add_signature c identity from s k).0
  -- `Verify`, `Trusted` and `GetSignatures` leave the key ring as `clear_stale` does.
  cleared : (k k' : Ring) → Reach c k → clear_stale k ≡ ok k' → Reach c k'

-- What holds of a key ring at any time
pub record IsSound (k : Ring) : Type 0 where
  pub keys : AreKeys k.keys
  pub fresh : IsFresh k

clear_stale-AreKeys : (k k' : Ring) → AreKeys k.keys → clear_stale k ≡ ok k' → AreKeys k'.keys
unfolding clear_stale
clear_stale-AreKeys k k' h e = elim (Bool-cases k.stale) [
  | inl x ↦
      build_trust_web-AreKeys k k' h (sym (ap (λ b. if b then build_trust_web k else ok k) x) ∙ e)
  | inr x ↦
      subst (λ r. AreKeys r.keys)
        (ok-injective (sym (ap (λ b. if b then build_trust_web k else ok k) x) ∙ e)) h
]

add_signature-AreKeys :
    (c : Crypto) (identity from : Bytes) (s : Signature) (k : Ring)
    → AreKeys k.keys
    → AreKeys (add_signature c identity from s k).0.keys
unfolding add_signature
add_signature-AreKeys c identity from s k h = elim (Option-cases (lookup identity k.keys)) [
  | inl x ↦ rw (x, add_signature) h
  | inr (key, x) ↦ elim (Option-cases (lookup from k.keys)) [
    | inl y ↦ rw (x, y, add_signature) h
    | inr (signer, y) ↦ elim (Result-cases (made_signature c k from signer key s)) [
      | inl (m, z) ↦ rw (x, y, z, add_signature) (update-AreKeys from signer _ k.keys h y refl refl)
      | inr (inl (e, z)) ↦ rw (x, y, z, add_signature) h
      | inr (inr (inl z)) ↦ rw (x, y, z, add_signature) h
      | inr (inr (inr z)) ↦ rw (x, y, z, add_signature) h
    ]
  ]
]

-- Every key ring that the operations lead to keeps each key once and under its own name, has its own
-- key with the highest level, and, unless it is marked stale, counts exactly the keys for trusted
-- that the web of trust makes trusted.
pub Reach-IsSound : (c : Crypto) (k : Ring) → Reach c k → IsSound k
unfolding lock_private unmarshal_binary
Reach-IsSound c k made = record { keys = new_ring-AreKeys; fresh = new_ring-IsFresh }
Reach-IsSound c k (locked k1 r) =
    let h = Reach-IsSound c k1 r in record { keys = h.keys; fresh = h.fresh }
Reach-IsSound c k (unlocked password k1 r) =
    let h = Reach-IsSound c k1 r in
    record {
      keys = unlock_private-AreKeys c password k1 h.keys;
      fresh = unlock_private-IsFresh c password k1 h.fresh;
    }
Reach-IsSound c k (created public secret password k1 r) =
    let h = Reach-IsSound c k1 r in
    record {
      keys = create_private-AreKeys c public secret password k1 h.keys;
      fresh = create_private-IsFresh c public secret password k1 h.fresh;
    }
Reach-IsSound c k (added identity trust b k1 r) =
    let h = Reach-IsSound c k1 r in
    record {
      keys = add_public-AreKeys identity trust b k1 h.keys;
      fresh = Stales-IsFresh k1 _ (add_public-Stales identity trust b k1) h.fresh;
    }
Reach-IsSound c k (removed identity k1 r) =
    let h = Reach-IsSound c k1 r in
    record {
      keys = remove_public-AreKeys identity k1 h.keys;
      fresh = Stales-IsFresh k1 _ (remove_public-Stales identity k1) h.fresh;
    }
Reach-IsSound c k (imported input identity trust k1 r) =
    let h = Reach-IsSound c k1 r in
    record {
      keys = import-AreKeys c input identity trust k1 h.keys;
      fresh = Stales-IsFresh k1 _ (import-Stales c input identity trust k1) h.fresh;
    }
Reach-IsSound c k (unmarshalled b k1 r) =
    let h = Reach-IsSound c k1 r in
    record {
      keys = unmarshal_binary-AreKeys c b k1 h.keys;
      fresh = Stales-IsFresh k1 _ (unmarshal_loop-Stales c (suc (length b)) b k1) h.fresh;
    }
Reach-IsSound c k (signed identity from s k1 r) =
    let h = Reach-IsSound c k1 r in
    record {
      keys = add_signature-AreKeys c identity from s k1 h.keys;
      fresh = Stales-IsFresh k1 _ (add_signature-Stales c identity from s k1) h.fresh;
    }
Reach-IsSound c k (cleared k1 k2 r e) =
    let h = Reach-IsSound c k1 r in
    record {
      keys = clear_stale-AreKeys k1 k h.keys e;
      fresh = Cleared-IsFresh k1 k h.keys h.fresh e;
    }
