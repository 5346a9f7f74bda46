-- ===== src/Common/Results.antt =====
-- What a call of Go code ends in: a value, one of the errors of the packages db and myc/sec, or a
-- run-time panic. `stuck` is none of these: a loop of the model ran out of fuel, or the call waits for
-- a lock that nobody gives back.
use Prim.Native.Nat.{ℕ}
use mathlib.Core.Path.{◌≡◌, refl}
use mathlib.Core.Logic.{◌↔◌, ◌⊎◌, inl, inr}

pub data Error : Type 0 where
  -- db/endorsement.go
  deadline_expired conflicting_with_staging behind_requirement : Error
  no_related_spore duplicated_endorsement unallowed_endorser : Error
  grace_period_expired duplicated_application : Error
  -- db/policy.go
  unknown_policy op_too_large op_not_allowed op_disabled_key : Error
  policy_quota_exceeded op_system_key invalid_key_spec : Error
  -- db/operation.go and db/operations
  non_parallel not_implemented not_numeric not_valid_set : Error
  -- db/encoding
  empty_element unexpected_eof : Error
  -- db/version
  nil_version version_mismatch : Error
  -- the drivers
  not_found : Error
  -- myc/sec
  keyring_locked invalid_identity invalid_public_key invalid_signature : Error
  unknown_identity insufficient_trust : Error
  -- myc/protocol
  old_timestamp invalid_session_key : Error
  -- an error of a package that the repository only calls
  external : ℕ → Error

pub data Result {ℓ} (A : Type ℓ) : Type ℓ where
  ok : A → Result A
  err : Error → Result A
  panic : Result A
  stuck : Result A

infixl 5 ◌>>=◌ ◌>>◌
abbrev pub ◌>>=◌ {ℓ κ} : {A : Type ℓ} {B : Type κ} → Result A → (A → Result B) → Result B
ok a >>= f = f a
err e >>= f = err e
panic >>= f = panic
stuck >>= f = stuck

abbrev pub ◌>>◌ {ℓ} : {B : Type ℓ} → Result (Unit {0}) → Result B → Result B
m >> k = m >>= λ _. k

-- A sequence succeeds exactly when both of its parts do.
pub >>-ok_iff : (m n : Result (Unit {0})) → ((m >> n) ≡ ok tt) ↔ ((m ≡ ok tt) × (n ≡ ok tt))
>>-ok_iff (ok u) n = (λ h. (refl, h), λ h. h.1)
>>-ok_iff (err e) n = (λ h. (cc), λ h. (cc))
>>-ok_iff panic n = (λ h. (cc), λ h. (cc))
>>-ok_iff stuck n = (λ h. (cc), λ h. (cc))

-- A bind that succeeds has a first part that does.
pub >>=-eq-ok {ℓ κ} :
    {A : Type ℓ} {B : Type κ} (m : Result A) (f : A → Result B) (b : B)
    → (m >>= f) ≡ ok b
    → (a : A) × (m ≡ ok a) × (f a ≡ ok b)
>>=-eq-ok (ok a) f b h = (a, refl, h)
>>=-eq-ok (err e) f b h = cc
>>=-eq-ok panic f b h = cc
>>=-eq-ok stuck f b h = cc

pub ok-injective {ℓ} : {A : Type ℓ} {a b : A} → ok a ≡ ok b → a ≡ b
ok-injective h = cc

-- To split on a computed result and keep the equation.
pub Result-cases {ℓ} :
    {A : Type ℓ} (r : Result A)
    → ((a : A) × (r ≡ ok a)) ⊎ ((e : Error) × (r ≡ err e)) ⊎ (r ≡ panic) ⊎ (r ≡ stuck)
Result-cases (ok a) = inl (a, refl)
Result-cases (err e) = inr (inl (e, refl))
Result-cases panic = inr (inr (inl refl))
Result-cases stuck = inr (inr (inr refl))
