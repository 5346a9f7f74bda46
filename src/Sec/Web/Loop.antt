-- ===== src/Sec/Web/Loop.antt =====
-- The loop over the queue of `buildTrustWeb`: what holds each time a key leaves the queue, and how
-- many rounds it takes.
use sporedb.Common.{
  ℕ, zero, suc, ◌+◌, ◌≤◌, ◌<◌, ◌≡◌, refl, arith, leb, true, Option, none, some, is_some, List, [],
  ◌∷◌, length, Bytes, bytes_eq_iff, bytes_eq_refl, GoMap, lookup, lookup-insert, IsUnique, All,
  Result, ok, if◌then◌else◌, ap, ◌∙◌, sym, subst, ◌⊎◌, inl, inr,
}
use mathlib.Core.Option
use sporedb.Sec.Trust.{trust_threshold, capped}
use sporedb.Sec.Keys.{Signature, Key}
use sporedb.Sec.Keys.Named.{IsNamed}
use sporedb.Sec.Web.{
  Web, is_visited, effective, signatures_of, reset_key, start_web, visit, web_loop,
}
use sporedb.Sec.Web.Measures.{
  occ, frozen, trust_in, given, unvisited, unvisited-insert, is_some-frozen,
}
use sporedb.Sec.Web.Steady.{
  IsSteady, count_signatures-IsSteady, capped-count_signatures, unvisited-count_signatures,
}

-- The trust that the signatures of some keys give to a name together
abbrev pub total : GoMap Key → List Bytes → Bytes → ℕ
total keys [] k = 0
total keys (x ∷ ds) k = given k (signatures_of x keys) + total keys ds k

-- What a name has from its own level and from the keys of the list
abbrev pub earned : GoMap Key → List Bytes → Bytes → ℕ
earned keys ds k = trust_in k keys + total keys ds k

-- A list of keys, the newest first, each of which is trusted enough by its own level and the
-- signatures of those before it.
pub data Chain (keys : GoMap Key) : List Bytes → Type 0 where
  root : Chain keys []
  link :
      {ds : List Bytes} (k : Bytes)
      → Chain keys ds
      → is_some (lookup k keys) ≡ true
      → occ k ds ≡ 0
      → trust_threshold ≤ earned keys ds k
      → Chain keys (k ∷ ds)

-- The web between two rounds
pub record IsEarned (keys0 : GoMap Key) (done : List Bytes) (w : Web) : Type 0 where
  pub steady : IsSteady keys0 done w
  pub worth :
      (k : Bytes)
      → is_some (lookup k keys0) ≡ true
      → capped (effective k w.keys) ≡ capped (earned keys0 done k)
  pub chain : Chain keys0 done

pub lookup-start_web :
    (k : Bytes) (keys : GoMap Key)
    → lookup k (start_web keys).keys ≡ Option.map reset_key (lookup k keys)
unfolding start_web lookup
lookup-start_web k [] = refl
lookup-start_web k ((name, key) ∷ keys) = ground (arith, lookup-start_web k keys)

visited-start_web :
    (k : Bytes) (keys : GoMap Key)
    → IsUnique keys
    → All IsNamed keys
    → (is_visited k (start_web keys).visited ≡ leb trust_threshold (trust_in k keys))
      × (occ k (start_web keys).queue ≡ (if is_visited k (start_web keys).visited then 1 else 0))
unfolding start_web lookup
visited-start_web k [] u n = ground arith
visited-start_web k ((name, key) ∷ keys) u n = ground (
  arith,
  visited-start_web k keys u.1 n.1,
  bytes_eq_iff name k,
  u.0,
  n.0,
  lookup-insert name k true (start_web keys).visited,
)

pub unvisited-start_web :
    (keys : GoMap Key)
    → All IsNamed keys
    → unvisited keys (start_web keys).visited + length (start_web keys).queue ≤ length keys
unfolding start_web
unvisited-start_web [] n = omega arith
unvisited-start_web ((name, key) ∷ keys) n = ground (
  arith,
  unvisited-start_web keys n.1,
  n.0,
  unvisited-insert name keys (start_web keys).visited,
  bytes_eq_refl name,
  lookup-insert name name true (start_web keys).visited,
)

pub start_web-IsEarned :
    (keys : GoMap Key) → IsUnique keys → All IsNamed keys → IsEarned keys [] (start_web keys)
unfolding reset_key
start_web-IsEarned keys u n = record {
  steady = record {
    same = λ k. ground (arith, lookup-start_web k keys);
    agrees = λ k. ground (arith, lookup-start_web k keys, visited-start_web k keys u n);
    once = λ k. ground (arith, visited-start_web k keys u n);
  };
  worth = λ k known. ground (arith, lookup-start_web k keys);
  chain = root;
}

-- The signatures of an entry, and none of a missing one
abbrev pub signatures : Option Key → GoMap Signature
signatures none = []
signatures (some key) = key.signatures

pub signatures-frozen : (a b : Option Key) → frozen a ≡ frozen b → signatures a ≡ signatures b
signatures-frozen none none h = refl
signatures-frozen none (some b) h = cc
signatures-frozen (some a) none h = cc
signatures-frozen (some a) (some b) h = ap (λ o. elim o [ none ↦ [] | some x ↦ x.signatures ]) h

pub signatures_of-signatures :
    (k : Bytes) (keys : GoMap Key) → signatures_of k keys ≡ signatures (lookup k keys)
signatures_of-signatures k keys = ground arith

module _ (keys0 : GoMap Key) (done : List Bytes) (current : Bytes) (rest : List Bytes) (w : Web)
    (h : IsEarned keys0 done w) (q : w.queue ≡ current ∷ rest) where
  abbrev popped : Web
  popped = record w { queue = rest }

  occ-current : occ current done ≡ 0
  occ-current =
      ground (arith, h.steady.once current, rw q at (h.steady.once current), bytes_eq_refl current)

  popped-IsSteady : IsSteady keys0 (current ∷ done) popped
  popped-IsSteady = record {
    same = h.steady.same;
    agrees = h.steady.agrees;
    once = λ k. ground (arith, rw q at (h.steady.once k));
  }

  same-signatures : signatures_of current w.keys ≡ signatures_of current keys0
  same-signatures =
      signatures_of-signatures current w.keys
      ∙ (signatures-frozen _ _ (h.steady.same current)
          ∙ sym (signatures_of-signatures current keys0))

  occ-popped : occ current (current ∷ done) ≡ 1
  occ-popped = ground (arith, occ-current, bytes_eq_refl current)

  effective-current : trust_threshold ≤ effective current w.keys
  effective-current =
      ground
        (arith, rw q at (h.steady.once current), h.steady.agrees current, bytes_eq_refl current)

  known-current : is_some (lookup current keys0) ≡ true
  known-current = ground (arith, effective-current, is_some-frozen _ _ (h.steady.same current))

  pub visit-IsEarned : IsEarned keys0 (current ∷ done) (visit current rest w)
  unfolding visit
  visit-IsEarned = record {
    steady =
        count_signatures-IsSteady keys0 (current ∷ done) current occ-popped
          (signatures_of current w.keys) popped popped-IsSteady;
    worth = λ k known. ground (
      arith,
      capped-count_signatures keys0 (current ∷ done) current occ-popped
          (signatures_of current w.keys) popped k popped-IsSteady known,
      h.worth k known,
      ap (given k) same-signatures,
    );
    chain =
        link current h.chain known-current occ-current
          (ground (arith, effective-current, h.worth current known-current));
  }

  pub unvisited-visit :
      unvisited keys0 (visit current rest w).visited + length (visit current rest w).queue
      < unvisited keys0 w.visited + length w.queue
  unfolding visit
  unvisited-visit = rw q (
      ground (
        arith,
        unvisited-count_signatures keys0 (current ∷ done) current occ-popped
            (signatures_of current w.keys) popped popped-IsSteady,
      ))

pub queue-cases :
    (q : List Bytes) → (q ≡ []) ⊎ ((current : Bytes) × (rest : List Bytes) × (q ≡ current ∷ rest))
queue-cases [] = inl refl
queue-cases (current ∷ rest) = inr (current, rest, refl)

pub web_loop-empty : (fuel : ℕ) (w : Web) → w.queue ≡ [] → web_loop fuel w ≡ ok w
unfolding web_loop
web_loop-empty zero w q = rw q
web_loop-empty (suc fuel) w q = rw q

pub web_loop-next :
    (fuel : ℕ) (current : Bytes) (rest : List Bytes) (w : Web)
    → w.queue ≡ current ∷ rest
    → web_loop (suc fuel) w ≡ web_loop fuel (visit current rest w)
unfolding web_loop
web_loop-next fuel current rest w q = rw q

-- The web at the end, with the names that have left the queue
abbrev pub Built : GoMap Key → Result Web → Type 0
Built keys0 r =
    (w : Web) × (done : List Bytes) × (r ≡ ok w) × (w.queue ≡ []) × IsEarned keys0 done w

pub web_loop-Built :
    (fuel : ℕ) (keys0 : GoMap Key) (done : List Bytes) (w : Web)
    → IsEarned keys0 done w
    → unvisited keys0 w.visited + length w.queue ≤ fuel
    → Built keys0 (web_loop fuel w)
web_loop-Built zero keys0 done w h enough = elim (queue-cases w.queue) [
  | inl empty ↦ (w, done, web_loop-empty zero w empty, empty, h)
  | inr (current, rest, q) ↦ absurd (omega (arith, ap length q))
]
web_loop-Built (suc fuel) keys0 done w h enough = elim (queue-cases w.queue) [
  | inl empty ↦ (w, done, web_loop-empty (suc fuel) w empty, empty, h)
  | inr (current, rest, q) ↦ subst (Built keys0) (sym (web_loop-next fuel current rest w q)) (
      web_loop-Built fuel keys0 (current ∷ done) (visit current rest w)
        (visit-IsEarned keys0 done current rest w h q)
        (omega (arith, unvisited-visit keys0 done current rest w h q)))
]
