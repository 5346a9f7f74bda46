-- ===== src/Sec/Web/Steady.antt =====
-- What the signatures of one key do to the web, while names are put into the queue once.
use sporedb.Common.{
  ℕ, ◌+◌, ◌≤◌, ◌≡◌, arith, leb, true, Option-cases, inl, inr, is_some, List, [], ◌∷◌, length,
  length-append, Bytes, bytes_eq, bytes_eq_iff, GoMap, lookup, if◌then◌else◌, ◌||◌, ◌∙◌, sym, subst,
}
use sporedb.Sec.Trust.{
  trust_threshold, min_trust, add_trust, capped, capped-add_trust, capped-min_trust,
}
use sporedb.Sec.Keys.{Signature, Key}
use sporedb.Sec.Web.{Web, is_visited, effective, enqueue, count_signature, count_signatures}
use sporedb.Sec.Web.Measures.{occ, frozen, given, unvisited, unvisited-insert, is_some-frozen}
use sporedb.Sec.Web.Scan.{
  count_signature-unknown, count_signature-known, frozen-count_signature, effective-count_signature,
  visited-count_signature, occ-count_signature,
}

-- `keys0` is the map at the start, `done` the names that have left the queue. The names that are
-- trusted enough are visited, and have been put into the queue once.
pub record IsSteady (keys0 : GoMap Key) (done : List Bytes) (w : Web) : Type 0 where
  pub same : (k : Bytes) → frozen (lookup k w.keys) ≡ frozen (lookup k keys0)
  pub agrees : (k : Bytes) → is_visited k w.visited ≡ leb trust_threshold (effective k w.keys)
  pub once : (k : Bytes) → occ k done + occ k w.queue ≡ (if is_visited k w.visited then 1 else 0)

level_lem :
    (a b t : ℕ)
    → trust_threshold ≤ t
    → (leb trust_threshold a || leb trust_threshold (add_trust a (min_trust b t)))
      ≡ leb trust_threshold (add_trust a (min_trust b t))
unfolding add_trust min_trust
level_lem a b t h = ground arith

capped-level :
    (a b t : ℕ) → trust_threshold ≤ t → capped (add_trust a (min_trust b t)) ≡ capped (a + capped b)
capped-level a b t h = ground (arith, capped-add_trust a (min_trust b t), capped-min_trust b t)

effective-done :
    (keys0 : GoMap Key) (done : List Bytes) (w : Web) (current : Bytes)
    → IsSteady keys0 done w
    → occ current done ≡ 1
    → trust_threshold ≤ effective current w.keys
effective-done keys0 done w current h e = ground (arith, h.agrees current, h.once current)

module _ (keys0 : GoMap Key) (done : List Bytes) (current : Bytes) (e : occ current done ≡ 1) where
  count_signature-IsSteady :
      (signee : Bytes) (s : Signature) (w : Web)
      → IsSteady keys0 done w
      → IsSteady keys0 done (count_signature current signee s w)
  count_signature-IsSteady signee s w h = record {
    same = λ k. frozen-count_signature current signee s w k ∙ h.same k;
    agrees = λ k. ground (
      arith,
      h.agrees k,
      visited-count_signature current signee s w k,
      effective-count_signature current signee s w k,
      level_lem (effective k w.keys) s.trust (effective current w.keys),
      effective-done keys0 done w current h e,
    );
    once = λ k. ground (
      arith,
      h.once k,
      visited-count_signature current signee s w k,
      occ-count_signature current signee s w k,
    );
  }

  capped-count_signature :
      (signee : Bytes) (s : Signature) (w : Web) (k : Bytes)
      → IsSteady keys0 done w
      → is_some (lookup k keys0) ≡ true
      → capped (effective k (count_signature current signee s w).keys)
        ≡ capped (effective k w.keys + (if bytes_eq signee k then capped s.trust else 0))
  capped-count_signature signee s w k h known = ground (
    arith,
    effective-count_signature current signee s w k,
    bytes_eq_iff signee k,
    is_some-frozen _ _ (h.same k),
    capped-level (effective k w.keys) s.trust (effective current w.keys),
    effective-done keys0 done w current h e,
  )

  unvisited-count_signature :
      (signee : Bytes) (s : Signature) (w : Web)
      → IsSteady keys0 done w
      → unvisited keys0 (count_signature current signee s w).visited
          + length (count_signature current signee s w).queue
        ≤ unvisited keys0 w.visited + length w.queue
  unfolding enqueue
  unvisited-count_signature signee s w h = elim (Option-cases (lookup signee w.keys)) [
    | inl unknown ↦
        subst
          (λ x.
            unvisited keys0 x.visited + length x.queue ≤ unvisited keys0 w.visited + length w.queue)
          (sym (count_signature-unknown current signee s w unknown)) (omega arith)
    | inr (key, known) ↦
        count_signature-known current signee s w key
          (λ a b.
            unvisited keys0 a.visited + length a.queue ≤ unvisited keys0 b.visited + length b.queue)
          known
          (λ kept. ground (
            arith,
            unvisited-insert signee keys0 w.visited,
            length-append w.queue (signee ∷ []),
            is_some-frozen _ _ (h.same signee),
            known,
          ))
  ]

  pub count_signatures-IsSteady :
      (signatures : GoMap Signature) (w : Web)
      → IsSteady keys0 done w
      → IsSteady keys0 done (count_signatures current signatures w)
  unfolding count_signatures
  count_signatures-IsSteady [] w h = h
  count_signatures-IsSteady ((signee, s) ∷ signatures) w h =
      count_signatures-IsSteady signatures _ (count_signature-IsSteady signee s w h)

  pub capped-count_signatures :
      (signatures : GoMap Signature) (w : Web) (k : Bytes)
      → IsSteady keys0 done w
      → is_some (lookup k keys0) ≡ true
      → capped (effective k (count_signatures current signatures w).keys)
        ≡ capped (effective k w.keys + given k signatures)
  unfolding count_signatures
  capped-count_signatures [] w k h known = ground arith
  capped-count_signatures ((signee, s) ∷ signatures) w k h known = ground (
    arith,
    capped-count_signature signee s w k h known,
    capped-count_signatures signatures (count_signature current signee s w) k
        (count_signature-IsSteady signee s w h) known,
  )

  pub unvisited-count_signatures :
      (signatures : GoMap Signature) (w : Web)
      → IsSteady keys0 done w
      → unvisited keys0 (count_signatures current signatures w).visited
          + length (count_signatures current signatures w).queue
        ≤ unvisited keys0 w.visited + length w.queue
  unfolding count_signatures
  unvisited-count_signatures [] w h = omega arith
  unvisited-count_signatures ((signee, s) ∷ signatures) w h = omega (
    arith,
    unvisited-count_signature signee s w h,
    unvisited-count_signatures signatures (count_signature current signee s w)
        (count_signature-IsSteady signee s w h),
  )
