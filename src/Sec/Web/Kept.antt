-- ===== src/Sec/Web/Kept.antt =====
-- Building the web of trust keeps the keys of a ring under their names.
use sporedb.Common.{
  ℕ, zero, suc, ◌≡◌, refl, arith, some, Option-cases, [], ◌∷◌, length, Bytes, GoMap, lookup, insert,
  lookup-All, IsUnique, All, Result-cases, ok, ap, ◌∙◌, sym, subst, inl, inr, ok-injective,
}
use sporedb.Sec.Trust.{add_trust, min_trust}
use sporedb.Sec.Keys.{Signature, Key, Ring}
use sporedb.Sec.Keys.Named.{IsNamed, AreKeys, insert-AreKeys}
use sporedb.Sec.Web.{
  Web, effective, signatures_of, reset_key, start_web, count_signature, count_signatures, visit,
  web_loop, build_trust_web,
}
use sporedb.Sec.Web.Scan.{enqueue-keys, count_signature-unknown}
use sporedb.Sec.Web.Loop.{lookup-start_web, queue-cases, web_loop-empty, web_loop-next}

-- An entry of keys with other fields than its name and its trust changed
pub update-AreKeys :
    (name : Bytes) (old new : Key) (keys : GoMap Key)
    → AreKeys keys
    → lookup name keys ≡ some old
    → new.identity ≡ old.identity
    → new.trust ≡ old.trust
    → AreKeys (insert name new keys)
update-AreKeys name old new keys h known i t =
    insert-AreKeys name new keys h (i ∙ lookup-All IsNamed name old keys h.named known)
      (λ own. ground (arith, h.own, ap (λ n. lookup n keys) own, known, t))

count_signature-AreKeys :
    (current signee : Bytes) (s : Signature) (w : Web)
    → AreKeys w.keys
    → AreKeys (count_signature current signee s w).keys
unfolding count_signature
count_signature-AreKeys current signee s w h = elim (Option-cases (lookup signee w.keys)) [
  | inl x ↦ subst (λ y. AreKeys y.keys) (sym (count_signature-unknown current signee s w x)) h
  | inr (key, x) ↦
      rw (x, count_signature)
        (rw
          (enqueue-keys signee
            (add_trust key.effective_trust (min_trust s.trust (effective current w.keys))))
          (update-AreKeys signee key _ w.keys h x refl refl))
]

count_signatures-AreKeys :
    (current : Bytes) (signatures : GoMap Signature) (w : Web)
    → AreKeys w.keys
    → AreKeys (count_signatures current signatures w).keys
unfolding count_signatures
count_signatures-AreKeys current [] w h = h
count_signatures-AreKeys current ((signee, s) ∷ signatures) w h =
    count_signatures-AreKeys current signatures _ (count_signature-AreKeys current signee s w h)

web_loop-AreKeys :
    (fuel : ℕ) (w w' : Web) → AreKeys w.keys → web_loop fuel w ≡ ok w' → AreKeys w'.keys
unfolding web_loop visit
web_loop-AreKeys zero w w' h e = elim (queue-cases w.queue) [
  | inl x ↦ subst (λ y. AreKeys y.keys) (ok-injective (sym (web_loop-empty zero w x) ∙ e)) h
  | inr (current, rest, x) ↦ let z = rw (x, web_loop) at e in cc
]
web_loop-AreKeys (suc fuel) w w' h e = elim (queue-cases w.queue) [
  | inl x ↦ subst (λ y. AreKeys y.keys) (ok-injective (sym (web_loop-empty (suc fuel) w x) ∙ e)) h
  | inr (current, rest, x) ↦
      web_loop-AreKeys fuel (visit current rest w) w'
        (count_signatures-AreKeys current (signatures_of current w.keys) (record w { queue = rest })
          h)
        (sym (web_loop-next fuel current rest w x) ∙ e)
]

start_web-IsNamed : (keys : GoMap Key) → All IsNamed keys → All IsNamed (start_web keys).keys
unfolding start_web reset_key
start_web-IsNamed [] h = tt
start_web-IsNamed ((name, key) ∷ keys) h = ground (arith, start_web-IsNamed keys h.1, h.0)

start_web-IsUnique : (keys : GoMap Key) → IsUnique keys → IsUnique (start_web keys).keys
unfolding start_web
start_web-IsUnique [] h = tt
start_web-IsUnique ((name, key) ∷ keys) h =
    ground (arith, start_web-IsUnique keys h.1, lookup-start_web name keys, h.0)

start_web-AreKeys : (keys : GoMap Key) → AreKeys keys → AreKeys (start_web keys).keys
unfolding reset_key
start_web-AreKeys keys h = record {
  unique = start_web-IsUnique keys h.unique;
  named = start_web-IsNamed keys h.named;
  own = ground (arith, lookup-start_web [] keys, h.own);
}

pub build_trust_web-AreKeys :
    (k k' : Ring) → AreKeys k.keys → build_trust_web k ≡ ok k' → AreKeys k'.keys
unfolding build_trust_web
build_trust_web-AreKeys k k' h e =
    elim (Result-cases (web_loop (length k.keys) (start_web k.keys))) [
      | inl (w, x) ↦
          subst (λ y. AreKeys y.keys) (ok-injective (rw (x, build_trust_web) at e))
            (web_loop-AreKeys (length k.keys) (start_web k.keys) w (start_web-AreKeys k.keys h) x)
      | inr (inl (_, x)) ↦ let z = rw (x, build_trust_web) at e in cc
      | inr (inr (inl x)) ↦ let z = rw (x, build_trust_web) at e in cc
      | inr (inr (inr x)) ↦ let z = rw (x, build_trust_web) at e in cc
    ]
