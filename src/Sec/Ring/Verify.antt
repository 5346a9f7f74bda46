-- ===== src/Sec/Ring/Verify.antt =====
-- When the key ring accepts a signature or a peer. What `Verify` and `Trusted` answer does not depend
-- on when the web of trust was built.
use sporedb.Common.{
  ◌≤◌, ◌≡◌, ◌↔◌, refl, arith, Bool, true, false, Option, none, some, Option-cases, Bytes, lookup,
  ap, ◌∙◌, sym, subst, Result, Error, ok, err, panic, stuck, ◌>>=◌, inl, inr, if◌then◌else◌,
  invalid_signature, some-injective,
}
use sporedb.Sec.Trust.{trust_threshold}
use sporedb.Sec.Keys.{Key, Ring, RingCall, Crypto}
use sporedb.Sec.Web.{effective}
use sporedb.Sec.Web.Measures.{frozen}
use sporedb.Sec.Web.Earned.{IsTrusted}
use sporedb.Sec.Ring.{
  clear_stale, with_web, trusted_unsafe, trusted_body, trusted, verify_body, verify,
}
use sporedb.Sec.Ring.Fresh.{Cleared, clear_stale-Cleared}
use sporedb.Sec.Ring.Reach.{Reach, Reach-IsSound}

with_web-body :
    {A : Type 0} (body : Ring → Result A) (k k' : Ring)
    → clear_stale k ≡ ok k'
    → with_web body k ≡ (k', body k')
unfolding with_web
with_web-body body k k' e = rw (e, with_web) refl

cleared_lem : (c : Crypto) (k : Ring) → Reach c k → Cleared k (clear_stale k)
cleared_lem c k r = let h = Reach-IsSound c k r in clear_stale-Cleared k h.keys h.fresh

trusted_body-ok :
    (identity : Bytes) (k : Ring)
    → (trusted_body identity k ≡ ok tt) ↔ (trust_threshold ≤ effective identity k.keys)
unfolding trusted_body trusted_unsafe
trusted_body-ok identity k = ground arith

-- The bytes of the key that the ring has under a name
abbrev pub public_of : Option Key → Option Bytes
public_of none = none
public_of (some key) = some key.public

public_of-frozen : (a b : Option Key) → frozen a ≡ frozen b → public_of a ≡ public_of b
public_of-frozen a b h = ground arith

-- A key of the ring, which checks the signature
abbrev pub Checks : Crypto → Bytes → Bytes → Bytes → Ring → Type 0
Checks c from cleartext signature k =
    (p : Bytes) × (public_of (lookup from k.keys) ≡ some p)
    × (c.verify p cleartext signature ≡ ok true)

guard-ok :
    (m : Result Bool) (t : Result (Unit {0})) (e : Error)
    → ((m >>= λ valid. if valid then t else err e) ≡ ok tt) ↔ ((m ≡ ok true) × (t ≡ ok tt))
guard-ok (ok true) t e = (λ h. (refl, h), λ h. h.1)
guard-ok (ok false) t e = (λ h. (cc), λ h. (cc))
guard-ok (err d) t e = (λ h. (cc), λ h. (cc))
guard-ok panic t e = (λ h. (cc), λ h. (cc))
guard-ok stuck t e = (λ h. (cc), λ h. (cc))

verify_body-ok :
    (c : Crypto) (from cleartext signature : Bytes) (k : Ring)
    → (verify_body c from cleartext signature k ≡ ok tt)
      ↔ Checks c from cleartext signature k × (trust_threshold ≤ effective from k.keys)
unfolding verify_body trusted_unsafe
verify_body-ok c from cleartext signature k = elim (Option-cases (lookup from k.keys)) [
  | inl x ↦ rw (x, verify_body) (λ h. (cc), λ ((p, known, valid), t). (cc))
  | inr (key, x) ↦
      rw (x, verify_body)
        (
          λ h.
              let (valid, t) =
                (guard-ok (c.verify key.public cleartext signature) (trusted_unsafe key)
                    invalid_signature).0
                  h in
              ((key.public, refl, valid), ground arith),
          λ ((p, known, valid), t).
              (guard-ok (c.verify key.public cleartext signature) (trusted_unsafe key)
                  invalid_signature).1
                (
                  subst (λ q. c.verify q cleartext signature ≡ ok true) (sym (some-injective known))
                      valid,
                  ground arith,
                ),
        )
]

-- In every key ring that the operations lead to, `Trusted` has no error exactly for the keys that
-- are trusted, whether or not the web of trust has to be built first.
pub trusted-IsTrusted :
    (c : Crypto) (k : Ring) (identity : Bytes)
    → Reach c k
    → ((trusted identity k).1 ≡ ok tt) ↔ IsTrusted k.keys identity
unfolding trusted
trusted-IsTrusted c k identity r =
    let (k', e, s, same, good) = cleared_lem c k r in
    let b = ap (λ (x : RingCall (Unit {0})). x.1) (with_web-body (trusted_body identity) k k' e) in
    (
      λ h. (good identity).0 ((trusted_body-ok identity k').0 (sym b ∙ h)),
      λ t. b ∙ (trusted_body-ok identity k').1 ((good identity).1 t),
    )

-- In every key ring that the operations lead to, `Verify` has no error exactly if the ring has the
-- key of the signer, the signature is that key's of the text, and the key is trusted, whether or not
-- the web of trust has to be built first.
pub verify-IsTrusted :
    (c : Crypto) (k : Ring) (from cleartext signature : Bytes)
    → Reach c k
    → ((verify c from cleartext signature k).1 ≡ ok tt)
      ↔ Checks c from cleartext signature k × IsTrusted k.keys from
unfolding verify
verify-IsTrusted c k from cleartext signature r =
    let (k', e, s, same, good) = cleared_lem c k r in
    let b =
      ap (λ (x : RingCall (Unit {0})). x.1)
        (with_web-body (verify_body c from cleartext signature) k k' e) in
    let p = public_of-frozen _ _ (same from) in
    (
      λ h.
          let ((q, known, valid), t) =
            (verify_body-ok c from cleartext signature k').0 (sym b ∙ h) in
          ((q, sym p ∙ known, valid), (good from).0 t),
      λ ((q, known, valid), t).
          b
          ∙ (verify_body-ok c from cleartext signature k').1
              ((q, p ∙ known, valid), (good from).1 t),
    )
