-- ===== src/Sec/Web/Measures.antt =====
-- What is counted while the web of trust is built.
use sporedb.Common.{
  ℕ, suc, ◌+◌, ◌≤◌, ◌≡◌, refl, arith, Bool, true, not, Option, none, some, is_some, List, [], ◌∷◌,
  ◌++◌, Bytes, bytes_eq, bytes_eq_iff, GoMap, lookup, insert, lookup-insert, if◌then◌else◌, ◌&&◌,
}
use sporedb.Sec.Trust.{capped}
use sporedb.Sec.Keys.{Signature, Key}
use sporedb.Sec.Web.{is_visited}

-- How often a name stands in a list
abbrev pub occ : Bytes → List Bytes → ℕ
occ k [] = 0
occ k (x ∷ xs) = if bytes_eq x k then suc (occ k xs) else occ k xs

pub occ-append : (k : Bytes) (xs ys : List Bytes) → occ k (xs ++ ys) ≡ occ k xs + occ k ys
occ-append k [] ys = omega arith
occ-append k (x ∷ xs) ys = ground (arith, occ-append k xs ys)

-- What building the web leaves alone of a key
abbrev pub frozen : Option Key → Option Key
frozen none = none
frozen (some key) = some (record key { effective_trust = 0; signed_by = [] })

abbrev pub trust_in : Bytes → GoMap Key → ℕ
trust_in name keys = elim (lookup name keys) [ none ↦ 0 | some key ↦ key.trust ]

-- The trust that the signatures give to a name, as far as it counts
abbrev pub given : Bytes → GoMap Signature → ℕ
given name [] = 0
given name ((signee, s) ∷ signatures) =
    if bytes_eq signee name then capped s.trust + given name signatures else given name signatures

-- The names of a map that are not visited
abbrev pub unvisited : GoMap Key → GoMap Bool → ℕ
unvisited [] visited = 0
unvisited ((name, _) ∷ keys) visited =
    if is_visited name visited then unvisited keys visited else suc (unvisited keys visited)

pub unvisited-insert :
    (name : Bytes) (keys : GoMap Key) (visited : GoMap Bool)
    → unvisited keys (insert name true visited)
        + (if is_some (lookup name keys) && not (is_visited name visited) then 1 else 0)
      ≤ unvisited keys visited
unfolding lookup
unvisited-insert name [] visited = ground arith
unvisited-insert name ((j, key) ∷ keys) visited = ground (
  arith,
  unvisited-insert name keys visited,
  bytes_eq_iff j name,
  bytes_eq_iff name j,
  lookup-insert name j true visited,
)

pub is_some-frozen : (a b : Option Key) → frozen a ≡ frozen b → is_some a ≡ is_some b
is_some-frozen none none h = refl
is_some-frozen none (some b) h = cc
is_some-frozen (some a) none h = cc
is_some-frozen (some a) (some b) h = refl
