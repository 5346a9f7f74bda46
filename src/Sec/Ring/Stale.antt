-- ===== src/Sec/Ring/Stale.antt =====
-- Which operations make the web of trust stale, and which leave it up to date.
use sporedb.Common.{
  ℕ, zero, suc, ◌≤◌, ◌≡◌, ◌↔◌, refl, arith, true, Option, none, some, Option-cases, [], Bytes,
  bytes_eq_iff, GoMap, lookup, insert, lookup-insert, ap, ◌∙◌, sym, subst, length, ◌==◌,
  Result-cases, Bool-cases, inl, inr, ◌⊎◌,
}
use sporedb.Sec.Trust.{trust_threshold, trust_none}
use sporedb.Sec.Keys.{
  Signature, Key, Ring, Crypto, Block, unlock_private, create_private, add_public, remove_public,
  import_block, import, unmarshal_loop,
}
use sporedb.Sec.Web.{effective}
use sporedb.Sec.Web.Earned.{IsTrusted}
use sporedb.Sec.Ring.{add_signature}
use sporedb.Sec.Ring.Fresh.{Agree, Agree-IsFresh, IsFresh}

-- The key ring after a call is stale, or the one before.
abbrev Stales : Ring → Ring → Type 0
Stales k k' = (k'.stale ≡ true) ⊎ (k' ≡ k)

pub Stales-IsFresh : (k k' : Ring) → Stales k k' → IsFresh k → IsFresh k'
Stales-IsFresh k k' (inl s) h = λ fresh. cc
Stales-IsFresh k k' (inr e) h = subst IsFresh (sym e) h

trans-Stales : (k k1 k2 : Ring) → Stales k k1 → Stales k1 k2 → Stales k k2
trans-Stales k k1 k2 a (inl s) = inl s
trans-Stales k k1 k2 (inl s) (inr e) = inl (ap (λ (r : Ring). r.stale) e ∙ s)
trans-Stales k k1 k2 (inr d) (inr e) = inr (e ∙ d)

pub add_public-Stales :
    (identity : Bytes) (trust : ℕ) (b : Bytes) (k : Ring)
    → Stales k (add_public identity trust b k).0
unfolding add_public
add_public-Stales identity trust b k = ground arith

pub remove_public-Stales : (identity : Bytes) (k : Ring) → Stales k (remove_public identity k)
unfolding remove_public
remove_public-Stales identity k = ground arith

import_block-Stales :
    (c : Crypto) (b : Block) (identity : Bytes) (trust : ℕ) (k : Ring)
    → Stales k (import_block c b identity trust k).0
unfolding import_block
import_block-Stales c b identity trust k = ground arith

pub import-Stales :
    (c : Crypto) (input identity : Bytes) (trust : ℕ) (k : Ring)
    → Stales k (import c input identity trust k).0
unfolding import
import-Stales c input identity trust k = elim (Bool-cases (length identity == 0)) [
  | inl x ↦ rw (x, import) (inr refl)
  | inr x ↦ elim (Option-cases (c.pem_decode input).0) [
    | inl y ↦ rw (x, y, import) (inr refl)
    | inr (b, y) ↦ rw (x, y, import) (import_block-Stales c b identity trust k)
  ]
]

pub unmarshal_loop-Stales :
    (c : Crypto) (fuel : ℕ) (buffer : Bytes) (k : Ring)
    → Stales k (unmarshal_loop c fuel buffer k).0
unfolding unmarshal_loop
unmarshal_loop-Stales c zero buffer k = inr refl
unmarshal_loop-Stales c (suc fuel) buffer k = elim (Bool-cases (length buffer == 0)) [
  | inl x ↦ rw (x, unmarshal_loop) (inr refl)
  | inr x ↦ elim (Option-cases (c.pem_decode buffer).0) [
    | inl y ↦ rw (x, y, unmarshal_loop) (inr refl)
    | inr (b, y) ↦
        rw (x, y, unmarshal_loop)
          (trans-Stales k _ _ (import_block-Stales c b [] trust_none k) (
            unmarshal_loop-Stales c fuel (c.pem_decode buffer).1
              (import_block c b [] trust_none k).0))
  ]
]

pub add_signature-Stales :
    (c : Crypto) (identity from : Bytes) (s : Signature) (k : Ring)
    → Stales k (add_signature c identity from s k).0
unfolding add_signature
add_signature-Stales c identity from s k = ground arith

same-IsFresh : (k k' : Ring) → k'.keys ≡ k.keys → k'.stale ≡ k.stale → IsFresh k → IsFresh k'
same-IsFresh k k' e s h = λ fresh.
    subst (λ m. (name : Bytes) → (trust_threshold ≤ effective name m) ↔ IsTrusted m name) (sym e)
      (h (sym s ∙ fresh))

unlock_private-keys :
    (c : Crypto) (password : Bytes) (k : Ring)
    → ((unlock_private c password k).0.keys ≡ k.keys)
      × ((unlock_private c password k).0.stale ≡ k.stale)
unfolding unlock_private
unlock_private-keys c password k = ground arith

pub unlock_private-IsFresh :
    (c : Crypto) (password : Bytes) (k : Ring) → IsFresh k → IsFresh (unlock_private c password k).0
unlock_private-IsFresh c password k h =
    same-IsFresh k (unlock_private c password k).0 (unlock_private-keys c password k).0
      (unlock_private-keys c password k).1 h

-- The bytes of the own key count for nothing in the web of trust.
public-Agree :
    (public : Bytes) (own : Key) (keys : GoMap Key)
    → lookup [] keys ≡ some own
    → Agree keys (insert [] (record own { public = public }) keys)
      × ((name : Bytes)
          → effective name keys ≡ effective name (insert [] (record own { public = public }) keys))
public-Agree public own keys h = (
  record {
    known = λ k.
        ground
          (arith, lookup-insert [] k (record own { public = public }) keys, bytes_eq_iff [] k, h);
    trust = λ k.
        ground
          (arith, lookup-insert [] k (record own { public = public }) keys, bytes_eq_iff [] k, h);
    signed = λ k.
        ground
          (arith, lookup-insert [] k (record own { public = public }) keys, bytes_eq_iff [] k, h);
  },
  λ k.
      ground
        (arith, lookup-insert [] k (record own { public = public }) keys, bytes_eq_iff [] k, h),
)

pub create_private-IsFresh :
    (c : Crypto) (public secret password : Bytes) (k : Ring)
    → IsFresh k
    → IsFresh (create_private c public secret password k).0
unfolding create_private
create_private-IsFresh c public secret password k h = elim (Option-cases (lookup [] k.keys)) [
  | inl x ↦ rw (x, create_private) h
  | inr (own, x) ↦ elim (Result-cases (c.lock secret)) [
    | inl (l, z) ↦ elim (Result-cases (c.encrypt l password)) [
      | inl (b, y) ↦ rw (x, z, y, create_private) (made own x (some l) (some b))
      | inr (inl (e, y)) ↦ rw (x, z, y, create_private) (made own x (some l) none)
      | inr (inr (inl y)) ↦ rw (x, z, y, create_private) (made own x (some l) k.armored_secret)
      | inr (inr (inr y)) ↦ rw (x, z, y, create_private) (made own x (some l) k.armored_secret)
    ]
    | inr (inl (e, z)) ↦ rw (x, z, create_private) (made own x none k.armored_secret)
    | inr (inr (inl z)) ↦ rw (x, z, create_private) (made own x k.secret k.armored_secret)
    | inr (inr (inr z)) ↦ rw (x, z, create_private) (made own x k.secret k.armored_secret)
  ]
]
  where
    left : Key → Option Bytes → Option Block → Ring
    left own s b = record k {
      keys = insert [] (record own { public = public }) k.keys;
      secret = s;
      armored_secret = b;
    }

    made :
        (own : Key)
        → lookup [] k.keys ≡ some own
        → (s : Option Bytes) (b : Option Block) → IsFresh (left own s b)
    made own x s b =
        Agree-IsFresh k (left own s b) refl (public-Agree public own k.keys x).0
          (public-Agree public own k.keys x).1 h
