-- ===== src/Common/GoMaps.antt =====
-- A Go map keyed by strings: an association list with at most one entry that a lookup sees. The
-- order of the list stands for the order of `range`, which Go leaves open.
use mathlib.Core.Path.{◌≡◌, refl, subst, sym}
use mathlib.Core.Logic.{inl, inr}
use sporedb.Common.Lists.{All}
use mathlib.Core.Option.{Option, none, some}
use mathlib.Core.Option
use mathlib.Core.List.{List, [], ◌∷◌}
use native.Mathlib.Omega.{arith}
use sporedb.Common.Tests.{if◌then◌else◌, Bool-cases, some-injective}
use sporedb.Common.ByteStrings.{Bytes, bytes_eq, bytes_eq_iff, bytes_eq_refl}

abbrev pub GoMap {ℓ} : Type ℓ → Type ℓ
GoMap V = List (Bytes × V)

module _ {ℓ} {V : Type ℓ} where
  -- `m[k]`, `none` on a missing key
  unfoldable pub lookup : Bytes → GoMap V → Option V
  lookup k [] = none
  lookup k ((j, v) ∷ m) = if bytes_eq j k then some v else lookup k m

  -- `m[k] = v`
  unfoldable pub insert : Bytes → V → GoMap V → GoMap V
  insert k v [] = (k, v) ∷ []
  insert k v ((j, w) ∷ m) = if bytes_eq j k then (j, v) ∷ m else (j, w) ∷ insert k v m

  -- `delete(m, k)`
  unfoldable pub erase : Bytes → GoMap V → GoMap V
  erase k [] = []
  erase k ((j, w) ∷ m) = let rest = erase k m in if bytes_eq j k then rest else (j, w) ∷ rest

  -- `for k, v := range m { m[k] = f(v) }`
  unfoldable pub map_values : (V → V) → GoMap V → GoMap V
  map_values f [] = []
  map_values f ((j, w) ∷ m) = (j, f w) ∷ map_values f m

module _ {ℓ} {V : Type ℓ} where
  pub lookup-insert :
      (k j : Bytes) (v : V) (m : GoMap V)
      → lookup j (insert k v m) ≡ (if bytes_eq k j then some v else lookup j m)
  unfolding lookup insert
  lookup-insert k j v [] = refl
  lookup-insert k j v ((i, w) ∷ m) =
      ground (arith, bytes_eq_iff k j, bytes_eq_iff i k, bytes_eq_iff i j, lookup-insert k j v m)

  pub lookup-erase :
      (k j : Bytes) (m : GoMap V)
      → lookup j (erase k m) ≡ (if bytes_eq k j then none else lookup j m)
  unfolding lookup erase
  lookup-erase k j [] = ground arith
  lookup-erase k j ((i, w) ∷ m) =
      ground (arith, bytes_eq_iff k j, bytes_eq_iff i k, bytes_eq_iff i j, lookup-erase k j m)

  pub lookup-map_values :
      (f : V → V) (j : Bytes) (m : GoMap V) → lookup j (map_values f m) ≡ Option.map f (lookup j m)
  unfolding lookup map_values
  lookup-map_values f j [] = refl
  lookup-map_values f j ((i, w) ∷ m) = ground (arith, lookup-map_values f j m)

-- Every key stands once, as in a Go map.
abbrev pub IsUnique {ℓ} : {V : Type ℓ} → GoMap V → Type ℓ
IsUnique [] = Unit
IsUnique ((k, v) ∷ m) = (lookup k m ≡ none) × IsUnique m

pub insert-IsUnique {ℓ} :
    {V : Type ℓ} (k : Bytes) (v : V) (m : GoMap V) → IsUnique m → IsUnique (insert k v m)
unfolding insert lookup
insert-IsUnique k v [] u = (refl, tt)
insert-IsUnique k v ((j, x) ∷ m) u =
    ground
      (arith, insert-IsUnique k v m u.1, lookup-insert k j v m, bytes_eq_iff k j, bytes_eq_iff j k)

pub erase-IsUnique {ℓ} : {V : Type ℓ} (k : Bytes) (m : GoMap V) → IsUnique m → IsUnique (erase k m)
unfolding erase
erase-IsUnique k [] u = tt
erase-IsUnique k ((j, x) ∷ m) u =
    ground (arith, erase-IsUnique k m u.1, lookup-erase k j m, bytes_eq_iff k j, bytes_eq_iff j k)

module _ {ℓ κ} {V : Type ℓ} (P : Bytes × V → Type κ) where
  -- What holds of every entry of a map.
  pub lookup-All : (k : Bytes) (v : V) (m : GoMap V) → All P m → lookup k m ≡ some v → P (k, v)
  unfolding lookup
  lookup-All k v [] h e = cc
  lookup-All k v ((j, w) ∷ m) h e = elim (Bool-cases (bytes_eq j k)) [
    | inl same ↦
        subst (λ x. P (k, x)) (some-injective (rw same at e))
          (subst (λ x. P (x, w)) ((bytes_eq_iff j k).0 same) h.0)
    | inr other ↦ lookup-All k v m h.1 (rw other at e)
  ]

  -- What holds of every value that is found holds of every entry.
  pub All-lookup :
      (m : GoMap V) → IsUnique m → ((k : Bytes) (v : V) → lookup k m ≡ some v → P (k, v)) → All P m
  unfolding lookup
  All-lookup [] u h = tt
  All-lookup ((j, w) ∷ m) u h = (
    h j w (rw (bytes_eq_refl j) refl),
    All-lookup m u.1 (λ k v e. h k v (ground (arith, e, u.0, bytes_eq_iff j k))),
  )

  pub insert-All : (k : Bytes) (v : V) (m : GoMap V) → All P m → P (k, v) → All P (insert k v m)
  unfolding insert
  insert-All k v [] h p = (p, tt)
  insert-All k v ((j, w) ∷ m) h p = elim (Bool-cases (bytes_eq j k)) [
    | inl same ↦ rw same (subst (λ x. P (x, v)) (sym ((bytes_eq_iff j k).0 same)) p, h.1)
    | inr other ↦ rw other (h.0, insert-All k v m h.1 p)
  ]

  pub erase-All : (k : Bytes) (m : GoMap V) → All P m → All P (erase k m)
  unfolding erase
  erase-All k [] h = tt
  erase-All k ((j, w) ∷ m) h = elim (Bool-cases (bytes_eq j k)) [
    | inl same ↦ rw same (erase-All k m h.1)
    | inr other ↦ rw other (h.0, erase-All k m h.1)
  ]
