-- ===== src/Sec/Ring/Fresh.antt =====
-- When a web of trust is up to date: what the keys count for is what they have earned.
use sporedb.Common.{
  ℕ, ◌≤◌, ◌≡◌, ◌↔◌, refl, arith, false, Option, none, some, is_some, List, [], ◌∷◌, Bytes, GoMap,
  lookup, ap, ◌∙◌, sym, subst, if◌then◌else◌, Result, ok, ok-injective, Bool-cases, inl, inr,
}
use sporedb.Sec.Trust.{trust_threshold}
use sporedb.Sec.Keys.{Key, Ring, new_ring}
use sporedb.Sec.Keys.Named.{AreKeys}
use sporedb.Sec.Ring.{clear_stale}
use sporedb.Sec.Web.{effective, signatures_of, build_trust_web}
use sporedb.Sec.Web.Measures.{frozen, given, trust_in, is_some-frozen}
use sporedb.Sec.Web.Loop.{total, Chain, root, link, signatures_of-signatures, signatures-frozen}
use sporedb.Sec.Web.Earned.{IsTrusted, build_trust_web-IsTrusted}

-- Two maps that give the same trust
pub record Agree (keys keys' : GoMap Key) : Type 0 where
  pub known : (k : Bytes) → is_some (lookup k keys) ≡ is_some (lookup k keys')
  pub trust : (k : Bytes) → trust_in k keys ≡ trust_in k keys'
  pub signed : (k : Bytes) → signatures_of k keys ≡ signatures_of k keys'

total-Agree :
    (keys keys' : GoMap Key) (ds : List Bytes) (k : Bytes)
    → Agree keys keys'
    → total keys ds k ≡ total keys' ds k
total-Agree keys keys' [] k h = refl
total-Agree keys keys' (d ∷ ds) k h =
    omega (arith, ap (given k) (h.signed d), total-Agree keys keys' ds k h)

Chain-Agree :
    (keys keys' : GoMap Key) (ds : List Bytes) → Agree keys keys' → Chain keys ds → Chain keys' ds
Chain-Agree keys keys' ds h root = root
Chain-Agree keys keys' ds h (link k c known new enough) =
    link k (Chain-Agree keys keys' _ h c) (sym (h.known k) ∙ known) new
      (omega (arith, h.trust k, total-Agree keys keys' _ k h, enough))

pub IsTrusted-Agree :
    (keys keys' : GoMap Key) (name : Bytes)
    → Agree keys keys'
    → IsTrusted keys name
    → IsTrusted keys' name
IsTrusted-Agree keys keys' name h (known, (ds, c, enough)) = (
  sym (h.known name) ∙ known,
  (
    ds,
    Chain-Agree keys keys' ds h c,
    omega (arith, h.trust name, total-Agree keys keys' ds name h, enough),
  ),
)

pub sym-Agree : (keys keys' : GoMap Key) → Agree keys keys' → Agree keys' keys
sym-Agree keys keys' h = record {
  known = λ k. sym (h.known k);
  trust = λ k. sym (h.trust k);
  signed = λ k. sym (h.signed k);
}

-- What building the web leaves alone gives the same trust.
trust-frozen :
    (a b : Option Key)
    → frozen a ≡ frozen b
    → elim a as (λ _. ℕ) [ none ↦ 0 | some key ↦ key.trust ]
      ≡ elim b as (λ _. ℕ) [ none ↦ 0 | some key ↦ key.trust ]
trust-frozen a b h = ground arith

pub frozen-Agree :
    (keys keys' : GoMap Key)
    → ((k : Bytes) → frozen (lookup k keys) ≡ frozen (lookup k keys'))
    → Agree keys keys'
frozen-Agree keys keys' h = record {
  known = λ k. is_some-frozen _ _ (h k);
  trust = λ k. trust-frozen _ _ (h k);
  signed = λ k.
      signatures_of-signatures k keys
      ∙ (signatures-frozen _ _ (h k) ∙ sym (signatures_of-signatures k keys'));
}

-- A key ring that is not stale has its web of trust up to date.
abbrev pub IsFresh : Ring → Type 0
IsFresh k =
    k.stale ≡ false
    → (name : Bytes) → (trust_threshold ≤ effective name k.keys) ↔ IsTrusted k.keys name

-- A change that leaves the trust and what the keys count for leaves the web up to date.
pub Agree-IsFresh :
    (k k' : Ring)
    → k'.stale ≡ k.stale
    → Agree k.keys k'.keys
    → ((name : Bytes) → effective name k.keys ≡ effective name k'.keys)
    → IsFresh k
    → IsFresh k'
Agree-IsFresh k k' s a e h fresh name = (
  λ t. IsTrusted-Agree k.keys k'.keys name a ((h (sym s ∙ fresh) name).0 (omega (arith, e name))),
  λ t. omega (
    arith,
    e name,
    (h (sym s ∙ fresh) name).1 (IsTrusted-Agree k'.keys k.keys name (sym-Agree k.keys k'.keys a) t),
  ),
)

pub new_ring-IsFresh : IsFresh new_ring
unfolding new_ring lookup
new_ring-IsFresh fresh name =
    (λ t. (ground arith, ([], root, ground arith)), λ (known, _). ground arith)

-- What `waitForStaleCleared` leaves: the web is up to date, and nothing that it is made of has changed.
abbrev pub Cleared : Ring → Result Ring → Type 0
Cleared k r =
    (k' : Ring) × (r ≡ ok k')
    × (k'.stale ≡ false)
    × ((name : Bytes) → frozen (lookup name k'.keys) ≡ frozen (lookup name k.keys))
    × ((name : Bytes) → (trust_threshold ≤ effective name k'.keys) ↔ IsTrusted k.keys name)

pub clear_stale-Cleared : (k : Ring) → AreKeys k.keys → IsFresh k → Cleared k (clear_stale k)
unfolding clear_stale
clear_stale-Cleared k h f = elim (Bool-cases k.stale) [
  | inl x ↦
      subst (Cleared k) (sym (ap (λ b. if b then build_trust_web k else ok k) x))
        (build_trust_web-IsTrusted k h.unique h.named)
  | inr x ↦
      subst (Cleared k) (sym (ap (λ b. if b then build_trust_web k else ok k) x))
        (k, refl, x, λ name. refl, f x)
]

pub Cleared-IsFresh :
    (k k' : Ring) → AreKeys k.keys → IsFresh k → clear_stale k ≡ ok k' → IsFresh k'
Cleared-IsFresh k k' h f e =
    let (k1, e1, s, same, good) = clear_stale-Cleared k h f in
    subst IsFresh (ok-injective (sym e1 ∙ e)) (λ fresh name. (
      λ t.
          IsTrusted-Agree k.keys k1.keys name
            (sym-Agree k1.keys k.keys (frozen-Agree k1.keys k.keys same)) ((good name).0 t),
      λ t. (good name).1 (IsTrusted-Agree k1.keys k.keys name (frozen-Agree k1.keys k.keys same) t),
    ))
