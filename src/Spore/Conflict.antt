-- ===== src/Spore/Conflict.antt =====
-- When two spores conflict.
use sporedb.Common.{
  ◌≡◌, ◌≢◌, ◌↔◌, ◌⊎◌, inl, inr, refl, List, [], ◌∷◌, ok, arith, All, >>-ok_iff, Bool-cases,
  bytes_eq, sym, ◌∙◌, bytes_eq_iff,
}
use sporedb.Operation.{Operation, check_conflict}
use sporedb.Operation.Parallel.{check_conflict_comm, Compatible, check_conflict_iff}
use sporedb.Spore.{Spore, check_conflict_all, check_conflict_loop, spores_conflict}

-- Every operation of one spore is compatible with every one of the other.
abbrev pub AllCompatible : List Operation → List Operation → Type 0
AllCompatible ops ops2 = All (λ o. All (Compatible o) ops2) ops

check_conflict_all_iff :
    (o : Operation) (ops2 : List Operation)
    → (check_conflict_all o ops2 ≡ ok tt) ↔ All (Compatible o) ops2
unfolding check_conflict_all
check_conflict_all_iff o [] = (λ h. tt, λ h. refl)
check_conflict_all_iff o (o2 ∷ ops2) =
    let split = >>-ok_iff (check_conflict o o2) (check_conflict_all o ops2) in
    let head = check_conflict_iff o o2 in
    let rest = check_conflict_all_iff o ops2 in
    (λ h. (head.0 (split.0 h).0, rest.0 (split.0 h).1), λ h. split.1 (head.1 h.0, rest.1 h.1))

check_conflict_loop_iff :
    (ops ops2 : List Operation) → (check_conflict_loop ops ops2 ≡ ok tt) ↔ AllCompatible ops ops2
unfolding check_conflict_loop
check_conflict_loop_iff [] ops2 = (λ h. tt, λ h. refl)
check_conflict_loop_iff (o ∷ ops) ops2 =
    let split = >>-ok_iff (check_conflict_all o ops2) (check_conflict_loop ops ops2) in
    let head = check_conflict_all_iff o ops2 in
    let rest = check_conflict_loop_iff ops ops2 in
    (λ h. (head.0 (split.0 h).0, rest.0 (split.0 h).1), λ h. split.1 (head.1 h.0, rest.1 h.1))

-- `Spore.CheckConflict` passes exactly the spores of different policies, and those of one policy
-- whose operations are compatible pair by pair.
pub spores_conflict_iff :
    (s s2 : Spore)
    → (spores_conflict s s2 ≡ ok tt)
      ↔ ((s.policy ≢ s2.policy) ⊎ AllCompatible s.operations s2.operations)
unfolding spores_conflict
spores_conflict_iff s s2 = elim (Bool-cases (bytes_eq s.policy s2.policy)) [
  | inl same ↦ rw same (
    λ h. inr ((check_conflict_loop_iff s.operations s2.operations).0 h),
    elim [
      | inl differ ↦ absurd (differ ((bytes_eq_iff s.policy s2.policy).0 same))
      | inr h ↦ (check_conflict_loop_iff s.operations s2.operations).1 h
    ],
  )
  | inr other ↦
      rw other (λ h. inl (λ e. ground (arith, bytes_eq_iff s.policy s2.policy)), λ h. refl)
]

Compatible-symm : (a b : Operation) → Compatible a b → Compatible b a
Compatible-symm a b h =
    (check_conflict_iff b a).0 (check_conflict_comm b a ∙ (check_conflict_iff a b).1 h)

-- The pairs, taken the other way round.
AllCompatible-symm : (xs ys : List Operation) → AllCompatible xs ys → AllCompatible ys xs
AllCompatible-symm xs [] h = tt
AllCompatible-symm xs (y ∷ ys) h = (column xs h, AllCompatible-symm xs ys (columns xs h))
  where
    column : (xs : List Operation) → AllCompatible xs (y ∷ ys) → All (Compatible y) xs
    column [] h = tt
    column (x ∷ xs) h = (Compatible-symm x y h.0.0, column xs h.1)

    columns : (xs : List Operation) → AllCompatible xs (y ∷ ys) → AllCompatible xs ys
    columns [] h = tt
    columns (x ∷ xs) h = (h.0.1, columns xs h.1)

-- If a spore passes `CheckConflict` against another, the other passes against it.
pub spores_conflict_symm :
    (s s2 : Spore) → spores_conflict s s2 ≡ ok tt → spores_conflict s2 s ≡ ok tt
spores_conflict_symm s s2 h = elim ((spores_conflict_iff s s2).0 h) [
  | inl differ ↦ (spores_conflict_iff s2 s).1 (inl (λ e. differ (sym e)))
  | inr all ↦ (spores_conflict_iff s2 s).1 (inr (AllCompatible-symm s.operations s2.operations all))
]
