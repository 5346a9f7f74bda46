-- ===== src/Sec/Web/Earned.antt =====
-- What building the web of trust achieves, against a description that knows no order.
use sporedb.Common.{
  ◌+◌, ◌≤◌, ◌≡◌, ◌↔◌, refl, arith, leb, true, false, ◌&&◌, is_some, List, [], ◌∷◌, length, Bytes,
  bytes_eq, bytes_eq_iff, bytes_eq_refl, GoMap, lookup, IsUnique, All, ok, if◌then◌else◌, ap,
}
use sporedb.Sec.Trust.{trust_threshold}
use sporedb.Sec.Keys.{Key, Ring}
use sporedb.Sec.Keys.Named.{IsNamed}
use sporedb.Sec.Web.{Web, effective, signatures_of, start_web, build_trust_web}
use sporedb.Sec.Web.Measures.{occ, frozen, given, is_some-frozen}
use sporedb.Sec.Web.Loop.{
  total, earned, Chain, root, link, IsEarned, start_web-IsEarned, unvisited-start_web,
  web_loop-Built,
}

-- The list without the first entry of the name
abbrev without : Bytes → List Bytes → List Bytes
without k [] = []
without k (x ∷ xs) = let rest = without k xs in if bytes_eq x k then xs else x ∷ rest

occ-without :
    (k : Bytes) (j : Bytes) (xs : List Bytes)
    → occ j xs ≡ occ j (without k xs) + (if bytes_eq k j && leb 1 (occ k xs) then 1 else 0)
occ-without k j [] = ground arith
occ-without k j (x ∷ xs) =
    ground (arith, occ-without k j xs, bytes_eq_iff x k, bytes_eq_iff x j, bytes_eq_iff k j)

total-without :
    (keys : GoMap Key) (k j : Bytes) (xs : List Bytes)
    → 1 ≤ occ k xs
    → total keys xs j ≡ given j (signatures_of k keys) + total keys (without k xs) j
total-without keys k j [] h = absurd (omega arith)
total-without keys k j (x ∷ xs) h = ground (arith, total-without keys k j xs, bytes_eq_iff x k)

-- More signers give more.
total-le :
    (keys : GoMap Key) (j : Bytes) (ds done : List Bytes)
    → ((k : Bytes) → occ k ds ≤ occ k done)
    → total keys ds j ≤ total keys done j
total-le keys j [] done h = omega arith
total-le keys j (x ∷ ds) done h = ground (
  arith,
  total-without keys x j done,
  h x,
  bytes_eq_refl x,
  total-le keys j ds (without x done)
      (λ k. ground (arith, h k, h x, bytes_eq_refl x, bytes_eq_iff x k, occ-without x k done)),
)

-- A key that is trusted: its own level and the signatures of a chain of trusted keys reach the
-- threshold.
abbrev pub IsTrusted : GoMap Key → Bytes → Type 0
IsTrusted keys name =
    (is_some (lookup name keys) ≡ true)
    × ((ds : List Bytes) × Chain keys ds × (trust_threshold ≤ earned keys ds name))

-- The keys of a chain are among those that have left the queue, at its end.
occ-Chain :
    (keys0 : GoMap Key) (done : List Bytes) (w : Web) (ds : List Bytes) (k : Bytes)
    → IsEarned keys0 done w
    → w.queue ≡ []
    → Chain keys0 ds
    → occ k ds ≤ occ k done
occ-Chain keys0 done w ds k h q root = omega arith
occ-Chain keys0 done w ds k h q (link x c known new enough) = ground (
  arith,
  occ-Chain keys0 done w _ k h q c,
  total-le keys0 x _ done (λ j. occ-Chain keys0 done w _ j h q c),
  h.worth x known,
  h.steady.agrees x,
  h.steady.once x,
  ap (occ x) q,
  new,
  bytes_eq_iff x k,
)

-- What the web has at its end is trusted, and what is trusted the web has.
IsEarned-IsTrusted :
    (keys0 : GoMap Key) (done : List Bytes) (w : Web) (name : Bytes)
    → IsEarned keys0 done w
    → w.queue ≡ []
    → (trust_threshold ≤ effective name w.keys) ↔ IsTrusted keys0 name
IsEarned-IsTrusted keys0 done w name h q = (there, back)
  where
    there : trust_threshold ≤ effective name w.keys → IsTrusted keys0 name
    there t = (known, (done, h.chain, ground (arith, h.worth name known)))
      where
        known : is_some (lookup name keys0) ≡ true
        known = ground (arith, is_some-frozen _ _ (h.steady.same name))

    back : IsTrusted keys0 name → trust_threshold ≤ effective name w.keys
    back (known, (ds, c, enough)) = ground (
      arith,
      total-le keys0 name ds done (λ j. occ-Chain keys0 done w ds j h q c),
      h.worth name known,
    )

-- Building the web of trust ends without an error for any key ring whose keys have the names that
-- they are kept under. Afterwards a key's effective trust reaches the threshold exactly if the key is
-- there and its own level together with the signatures of a chain of keys, each of which is trusted
-- in the same way by the ones before it, reaches it. So the order in which the keys and the signatures are
-- looked at does not matter. Nothing of a key changes but its effective trust and the names of those
-- that have signed it.
pub build_trust_web-IsTrusted :
    (k : Ring)
    → IsUnique k.keys
    → All IsNamed k.keys
    → (k' : Ring) × (build_trust_web k ≡ ok k')
      × (k'.stale ≡ false)
      × ((name : Bytes) → frozen (lookup name k'.keys) ≡ frozen (lookup name k.keys))
      × ((name : Bytes) → (trust_threshold ≤ effective name k'.keys) ↔ IsTrusted k.keys name)
unfolding build_trust_web
build_trust_web-IsTrusted k u n =
    let (w, done, e, q, h) =
      web_loop-Built (length k.keys) k.keys [] (start_web k.keys) (start_web-IsEarned k.keys u n)
        (unvisited-start_web k.keys n) in
    (
      record k { keys = w.keys; stale = false },
      rw (e, build_trust_web) refl,
      refl,
      h.steady.same,
      λ name. IsEarned-IsTrusted k.keys done w name h q,
    )
