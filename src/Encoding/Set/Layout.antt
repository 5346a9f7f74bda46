-- ===== src/Encoding/Set/Layout.antt =====
-- What a set stands for: its elements in the order of their insertion, and how they are laid out.
use sporedb.Common.{
  ℕ, ◌+◌, ◌≤◌, ◌≡◌, refl, sym, ap, ◌∙◌, Bool, false, Option, none, some, List, [], ◌∷◌, ◌++◌,
  append_assoc, arith, length, length-append, if◌then◌else◌, ◌||◌, Bytes, bytes_eq, bytes_eq_iff,
  is_some, ◌≢◌, lookup,
}
use sporedb.Encoding.Uint64.{uint64_to_bytes, length-uint64_to_bytes}
use sporedb.Encoding.Set.{GoSet}

abbrev pub member : Bytes → List Bytes → Bool
member e [] = false
member e (x ∷ xs) = bytes_eq x e || member e xs

abbrev pub remove_first : Bytes → List Bytes → List Bytes
remove_first e [] = []
remove_first e (x ∷ xs) = if bytes_eq x e then xs else x ∷ remove_first e xs

-- No element is empty, and none stands twice.
abbrev pub IsDistinct : List Bytes → Type 0
IsDistinct [] = Unit {0}
IsDistinct (x ∷ xs) = (length x ≢ 0) × (member x xs ≡ false) × IsDistinct xs

-- The record of one element, and the records of all.
unfoldable pub entry : Bytes → Bytes
entry x = uint64_to_bytes (length x) ++ x

unfoldable pub layout : List Bytes → Bytes
layout [] = []
layout (x ∷ xs) = entry x ++ layout xs

-- The place of an element's record, if the records begin at `i`.
unfoldable pub offset_of : Bytes → List Bytes → ℕ → Option ℕ
offset_of e [] i = none
offset_of e (x ∷ xs) i = if bytes_eq x e then some i else offset_of e xs (i + (length x + 8))

-- The set holds just these elements, inserted in this order.
pub record Represents (s : GoSet) (es : List Bytes) : Type 0 where
  pub laid_out : s.raw ≡ layout es
  pub indexed : (e : Bytes) → lookup e s.elements ≡ offset_of e es 0
  pub distinct : IsDistinct es

pub length-entry : (x : Bytes) → length (entry x) ≡ length x + 8
unfolding entry
length-entry x =
    omega
      (arith, length-append {0} (uint64_to_bytes (length x)) x, length-uint64_to_bytes (length x))

pub layout-append : (xs ys : List Bytes) → layout (xs ++ ys) ≡ layout xs ++ layout ys
unfolding layout
layout-append [] ys = refl
layout-append (x ∷ xs) ys =
    ap (λ t. entry x ++ t) (layout-append xs ys)
    ∙ sym (append_assoc (entry x) (layout xs) (layout ys))

pub is_some-offset_of :
    (e : Bytes) (xs : List Bytes) (i : ℕ) → is_some (offset_of e xs i) ≡ member e xs
unfolding offset_of
is_some-offset_of e [] i = refl
is_some-offset_of e (x ∷ xs) i = ground (arith, is_some-offset_of e xs (i + (length x + 8)))

pub offset_of-ge : (e : Bytes) (xs : List Bytes) (i p : ℕ) → offset_of e xs i ≡ some p → i ≤ p
unfolding offset_of
offset_of-ge e [] i p h = cc
offset_of-ge e (x ∷ xs) i p h = ground (arith, offset_of-ge e xs (i + (length x + 8)) p)

-- A place, moved up by `d`.
abbrev pub add_offset : ℕ → Option ℕ → Option ℕ
add_offset d none = none
add_offset d (some n) = some (n + d)

pub offset_of-add :
    (e : Bytes) (xs : List Bytes) (i d : ℕ)
    → offset_of e xs (i + d) ≡ add_offset d (offset_of e xs i)
unfolding offset_of
offset_of-add e [] i d = refl
offset_of-add e (x ∷ xs) i d =
    let moved : offset_of e xs (i + d + (length x + 8)) ≡ offset_of e xs (i + (length x + 8) + d) =
      ap (offset_of e xs) (omega arith) in
    rw moved (ground (arith, offset_of-add e xs (i + (length x + 8)) d))

-- An element that is added behind the others has its record behind theirs.
pub offset_of-append :
    (e x : Bytes) (xs : List Bytes) (i : ℕ)
    → member x xs ≡ false
    → offset_of e (xs ++ (x ∷ [])) i
      ≡ (if bytes_eq x e then some (i + length (layout xs)) else offset_of e xs i)
unfolding offset_of layout
offset_of-append e x [] i h = ground arith
offset_of-append e x (y ∷ xs) i h = ground (
  arith,
  bytes_eq_iff x e,
  bytes_eq_iff y e,
  bytes_eq_iff y x,
  length-append {0} (entry y) (layout xs),
  length-entry y,
  offset_of-append e x xs (i + (length y + 8)),
)

pub member-append :
    (e x : Bytes) (xs : List Bytes) → member e (xs ++ (x ∷ [])) ≡ (member e xs || bytes_eq x e)
member-append e x [] = ground arith
member-append e x (y ∷ xs) = ground (arith, member-append e x xs)

pub IsDistinct-append :
    (x : Bytes) (xs : List Bytes)
    → IsDistinct xs
    → length x ≢ 0
    → member x xs ≡ false
    → IsDistinct (xs ++ (x ∷ []))
IsDistinct-append x [] d nz h = ground arith
IsDistinct-append x (y ∷ xs) d nz h =
    ground (
      arith,
      IsDistinct-append x xs d.2 nz,
      member-append y x xs,
      bytes_eq_iff x y,
      bytes_eq_iff y x,
    )
