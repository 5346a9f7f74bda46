-- ===== src/Myc/Session/Greeting.antt =====
-- When a session is trusted.
use sporedb.Common.{
  ℕ, ◌+◌, ◌^◌, ◌<◌, int_ltb, sub64, ◌≤◌, ◌≡◌, ◌↔◌, refl, arith, ◌==◌, true, false, some, [], length,
  Bytes, Bool-cases, Result, Result-cases, Error, ok, ok-injective, err, panic, stuck, inl, inr, ap,
  ◌∙◌,
}
use sporedb.World.{KeyRing}
use sporedb.Myc.Session.{Hello, SessionCrypto, Session, is_invalid_signature, accept, verify}

module _ {K : Type 0} (c : SessionCrypto) (keys : KeyRing K) where
  -- A greeting from 1970 or later that is at most half a minute old, with a public key of the right size, that is signed by a key
  -- which the key ring trusts
  abbrev pub IsGenuine : ℕ → Hello → K → Type 0
  IsGenuine now h k =
      (length h.public_key ≡ 32)
      × ((h.seconds < 2 ^ 63) × (now ≤ h.seconds + 30))
      × ((raw : Bytes) × (c.marshal_hello (record h { signature = [] }) ≡ ok raw)
          × (keys.verify k h.identity raw h.signature ≡ ok tt))

  recent :
      (now seconds : ℕ)
      → 30 ≤ now
      → now < 2 ^ 63
      → seconds < 2 ^ 64
      → (int_ltb seconds (sub64 now 30) ≡ false) ↔ ((seconds < 2 ^ 63) × (now ≤ seconds + 30))
  recent now seconds late int64 pattern =
      (λ e. (ground (arith, e), ground (arith, e)), λ (small, young). ground (arith, small, young))

  accept-trusted :
      (h : Hello) (r : Result (Unit {0})) (s : Session)
      → s.trusted ≡ false
      → ((accept c keys h r s).0.trusted ≡ true) ↔ (r ≡ ok tt)
  unfolding accept
  accept-trusted h (ok u) s new = (λ e. refl, λ e. refl)
  accept-trusted h (err x) s new = ground arith
  accept-trusted h panic s new = (λ e. (cc), λ e. (cc))
  accept-trusted h stuck s new = (λ e. (cc), λ e. (cc))

  -- A session that is not trusted yet is trusted after `Verify` exactly if the greeting is genuine.
  -- The time of the call is later than the first half minute of 1970, and an int64.
  pub verify-IsGenuine :
      (now : ℕ) (h : Hello) (k : K) (s : Session)
      → 30 ≤ now
      → now < 2 ^ 63
      → h.seconds < 2 ^ 64
      → s.trusted ≡ false
      → ((verify c keys now (some h) k s).0.trusted ≡ true) ↔ IsGenuine now h k
  unfolding verify
  verify-IsGenuine now h k s late int64 pattern new =
      elim (Bool-cases (length h.public_key == 32)) [
        | inr x ↦ rw (x, verify) (λ e. (cc), λ g. absurd (ground (arith, x, g.0)))
        | inl x ↦ elim (Bool-cases (int_ltb h.seconds (sub64 now 30))) [
          | inl y ↦
              rw (x, y, verify)
                (
                  λ e. (cc),
                  λ g. let young = (recent now h.seconds late int64 pattern).1 g.1 in (cc),
                )
          | inr y ↦ elim (Result-cases (c.marshal_hello (record h { signature = [] }))) [
            | inl (raw, z) ↦
                let (there, back) =
                  accept-trusted h (keys.verify k h.identity raw h.signature) s new in
                rw (x, y, z, verify)
                  (
                    λ e. (
                      ground arith,
                      (recent now h.seconds late int64 pattern).0 y,
                      (raw, refl, there e),
                    ),
                    λ (_, _, (raw2, same, valid)). back (
                        ap (λ r. keys.verify k h.identity r h.signature) (ok-injective same)
                        ∙ valid),
                  )
            | inr (inl (e, z)) ↦ rw (x, y, z, verify) (λ e. (cc), λ (_, _, (_, q, _)). (cc))
            | inr (inr (inl z)) ↦ rw (x, y, z, verify) (λ e. (cc), λ (_, _, (_, q, _)). (cc))
            | inr (inr (inr z)) ↦ rw (x, y, z, verify) (λ e. (cc), λ (_, _, (_, q, _)). (cc))
          ]
        ]
      ]

  -- `Verify` never takes the trust back: after a genuine greeting every further one that is not refused leaves the
  -- session trusted, whoever it is from, and with the public key of that one.
  pub verify_keeps_trust :
      (now : ℕ) (h : Hello) (k : K) (s : Session) (raw : Bytes) (e : Error)
      → s.trusted ≡ true
      → length h.public_key ≡ 32
      → int_ltb h.seconds (sub64 now 30) ≡ false
      → c.marshal_hello (record h { signature = [] }) ≡ ok raw
      → keys.verify k h.identity raw h.signature ≡ err e
      → is_invalid_signature e ≡ false
      → ((verify c keys now (some h) k s).1 ≡ ok tt)
        × ((verify c keys now (some h) k s).0.trusted ≡ true)
        × ((verify c keys now (some h) k s).0.peer_public ≡ h.public_key)
  unfolding verify accept
  verify_keeps_trust now h k s raw e trusted size recent text unknown other = ground arith
