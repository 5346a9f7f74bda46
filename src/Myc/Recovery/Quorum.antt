-- ===== src/Myc/Recovery/Quorum.antt =====
-- `checkQuorum` counts.
use sporedb.Common.{
  subst, bytes_eq_refl, All, insert-All, lookup-All, ℕ, ◌+◌, ◌≤◌, ◌≡◌, refl, arith, Option, none,
  some, [], ◌∷◌, Bytes, bytes_eq, bytes_eq_iff, GoMap, lookup, insert, lookup-insert, leb,
  if◌then◌else◌, Bool-cases, inl, inr, sym, IsUnique, insert-IsUnique,
}
use sporedb.Myc.Recovery.{Raw, Recovery, Texts, tally, find_quorum, check_quorum}

-- The number of answers with a version of this text.
unfoldable pub votes : Texts → Bytes → GoMap Raw → ℕ
votes t id [] = 0
votes t id ((_, r) ∷ answers) =
    let rest = votes t id answers in
    if bytes_eq (t.version_text r.version) id then rest + 1 else rest

abbrev pub count_of : Option ℕ → ℕ
count_of none = 0
count_of (some c) = c

tally_count :
    (t : Texts) (answers : GoMap Raw) (count : GoMap ℕ) (raws : GoMap Raw) (id : Bytes)
    → count_of (lookup id (tally t answers count raws).0)
      ≡ count_of (lookup id count) + votes t id answers
unfolding tally votes
tally_count t [] count raws id = omega arith
tally_count t ((k, r) ∷ answers) count raws id =
    let j = t.version_text r.version in
    let c : ℕ = count_of (lookup j count) in
    ground (
      arith,
      tally_count t answers (insert j (c + 1) count) (insert j r raws) id,
      lookup-insert j id (c + 1) count,
      bytes_eq_iff j id,
    )

tally-IsUnique :
    (t : Texts) (answers : GoMap Raw) (count : GoMap ℕ) (raws : GoMap Raw)
    → IsUnique count
    → IsUnique (tally t answers count raws).0
unfolding tally
tally-IsUnique t [] count raws u = u
tally-IsUnique t ((k, r) ∷ answers) count raws u =
    tally-IsUnique t answers _ _ (insert-IsUnique (t.version_text r.version) _ count u)

-- An answer that is kept has the version that it is kept under, and what all answers have.
abbrev Kept : Texts → (Raw → Type 0) → Bytes × Raw → Type 0
Kept t Q (id, x) = (t.version_text x.version ≡ id) × Q x

tally-Kept :
    (t : Texts) (Q : Raw → Type 0) (answers : GoMap Raw) (count : GoMap ℕ) (raws : GoMap Raw)
    → All (λ e. Q e.1) answers
    → All (Kept t Q) raws
    → All (Kept t Q) (tally t answers count raws).1
unfolding tally
tally-Kept t Q [] count raws h k = k
tally-Kept t Q ((i, r) ∷ answers) count raws h k =
    tally-Kept t Q answers _ _ h.1
      (insert-All (Kept t Q) (t.version_text r.version) r raws k (refl, h.0))

find_quorum-some :
    (quorum : ℕ) (count : GoMap ℕ) (raws : GoMap Raw) (x : Raw)
    → IsUnique count
    → find_quorum quorum count raws ≡ some x
    → (id : Bytes) × (quorum ≤ count_of (lookup id count)) × (lookup id raws ≡ some x)
unfolding find_quorum lookup
find_quorum-some quorum [] raws x u h = cc
find_quorum-some quorum ((j, c) ∷ count) raws x u h = elim (Bool-cases (leb quorum c)) [
  | inl enough ↦ (j, ground (arith, bytes_eq_refl j), rw enough at h)
  | inr few ↦
      let (id, many, found) = find_quorum-some quorum count raws x u.1 (rw few at h) in
      (id, ground (arith, bytes_eq_iff j id, u.0), found)
]

-- A value that `checkQuorum` returns has the version of a quorum of the answers, and has whatever
-- all of the answers have.
pub check_quorum-some :
    (t : Texts) (Q : Raw → Type 0) (r : Recovery) (x : Raw)
    → All (λ e. Q e.1) r.answers
    → check_quorum t r ≡ some x
    → (r.quorum ≤ votes t (t.version_text x.version) r.answers) × Q x
unfolding check_quorum
check_quorum-some t Q r x h found =
    let (count, raws) = tally t r.answers [] [] in
    let (id, many, kept) =
      find_quorum-some r.quorum count raws x (tally-IsUnique t r.answers [] [] tt) found in
    let (named, has) = lookup-All (Kept t Q) id x raws (tally-Kept t Q r.answers [] [] h tt) kept in
    (
      subst (λ i. r.quorum ≤ votes t i r.answers) (sym named)
          (unfold lookup in omega (arith, tally_count t r.answers [] [] id, many)),
      has,
    )
