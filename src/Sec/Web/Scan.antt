-- ===== src/Sec/Web/Scan.antt =====
-- What one signature does to the web.
use sporedb.Common.{
  ℕ, ◌+◌, ◌≡◌, arith, leb, true, not, Option-cases, inl, inr, none, some, is_some, [], ◌∷◌, ◌++◌,
  Bytes, bytes_eq, bytes_eq_iff, GoMap, lookup, lookup-insert, if◌then◌else◌, ◌&&◌, ◌||◌, ap, ◌∙◌,
}
use sporedb.Sec.Trust.{trust_threshold, min_trust, add_trust}
use sporedb.Sec.Keys.{Signature, Key}
use sporedb.Sec.Web.{Web, is_visited, effective, enqueue, count_signature}
use sporedb.Sec.Web.Measures.{occ, occ-append, frozen}

pub enqueue-keys : (signee : Bytes) (level : ℕ) (w : Web) → (enqueue signee level w).keys ≡ w.keys
unfolding enqueue
enqueue-keys signee level w = ground arith

module _ (current signee : Bytes) (s : Signature) (w : Web) where
  -- The level of a name after the signature, if the name is the one signed
  abbrev pub level : ℕ → ℕ
  level before = add_trust before (min_trust s.trust (effective current w.keys))

  pub count_signature-unknown : lookup signee w.keys ≡ none → count_signature current signee s w ≡ w
  unfolding count_signature
  count_signature-unknown unknown = rw (unknown, count_signature)

  pub count_signature-lookup :
      (key : Key) (k : Bytes)
      → lookup signee w.keys ≡ some key
      → lookup k (count_signature current signee s w).keys ≡ (
          if bytes_eq signee k
          then some (record key {
            effective_trust = level key.effective_trust;
            signed_by = key.signed_by ++ (current ∷ []);
          })
          else lookup k w.keys)
  unfolding count_signature
  count_signature-lookup key k known = rw (
    known,
    enqueue-keys signee (level key.effective_trust),
    lookup-insert signee k,
    count_signature,
  )

  pub frozen-count_signature :
      (k : Bytes)
      → frozen (lookup k (count_signature current signee s w).keys) ≡ frozen (lookup k w.keys)
  frozen-count_signature k = elim (Option-cases (lookup signee w.keys)) [
    | inl unknown ↦ ap (λ x. frozen (lookup k x.keys)) (count_signature-unknown unknown)
    | inr (key, known) ↦ ground (arith, count_signature-lookup key k known, bytes_eq_iff signee k)
  ]

  pub count_signature-known :
      (key : Key) (v : Web → Web → Type 0)
      → lookup signee w.keys ≡ some key
      → ((kept : GoMap Key)
          → v (enqueue signee (level key.effective_trust) (record w { keys = kept })) w)
      → v (count_signature current signee s w) w
  unfolding count_signature
  count_signature-known key v known h = rw (known, count_signature) (h _)

  pub effective-count_signature :
      (k : Bytes)
      → effective k (count_signature current signee s w).keys ≡ (
          if is_some (lookup signee w.keys) && bytes_eq signee k
          then level (effective k w.keys)
          else effective k w.keys)
  effective-count_signature k = elim (Option-cases (lookup signee w.keys)) [
    | inl unknown ↦ rw unknown (ap (λ x. effective k x.keys) (count_signature-unknown unknown))
    | inr (key, known) ↦ ground (arith, count_signature-lookup key k known, bytes_eq_iff signee k)
  ]

  pub visited-count_signature :
      (k : Bytes)
      → is_visited k (count_signature current signee s w).visited ≡ (
          is_visited k w.visited
          || is_some (lookup signee w.keys)
            && bytes_eq signee k
            && leb trust_threshold (level (effective k w.keys)))
  unfolding enqueue
  visited-count_signature k = elim (Option-cases (lookup signee w.keys)) [
    | inl unknown ↦
        rw unknown
          (ap (λ x. is_visited k x.visited) (count_signature-unknown unknown) ∙ ground arith)
    | inr (key, known) ↦
        count_signature-known key
          (λ a b. is_visited k a.visited ≡ (
            is_visited k b.visited
            || is_some (lookup signee b.keys)
              && bytes_eq signee k
              && leb trust_threshold (level (effective k b.keys))))
          known
          (λ kept.
            ground (arith, known, bytes_eq_iff signee k, lookup-insert signee k true w.visited))
  ]

  pub occ-count_signature :
      (k : Bytes)
      → occ k (count_signature current signee s w).queue
        ≡ occ k w.queue
          + (if not (is_visited k w.visited)
                && (is_some (lookup signee w.keys)
                    && bytes_eq signee k
                    && leb trust_threshold (level (effective k w.keys)))
              then 1
              else 0)
  unfolding enqueue
  occ-count_signature k = elim (Option-cases (lookup signee w.keys)) [
    | inl unknown ↦
        rw unknown (ap (λ x. occ k x.queue) (count_signature-unknown unknown) ∙ ground arith)
    | inr (key, known) ↦
        count_signature-known key
          (λ a b.
            occ k a.queue
            ≡ occ k b.queue
              + (if not (is_visited k b.visited)
                    && (is_some (lookup signee b.keys)
                        && bytes_eq signee k
                        && leb trust_threshold (level (effective k b.keys)))
                  then 1
                  else 0))
          known
          (λ kept. ground (arith, known, bytes_eq_iff signee k, occ-append k w.queue (signee ∷ [])))
  ]
