-- ===== src/Encoding/Set/Insert.antt =====
-- `NewSet`, `Add` and `Contains` against the list of elements that a set stands for.
use sporedb.Common.{
  ℕ, ◌+◌, ◌≡◌, refl, sym, ◌∙◌, Bool, true, false, Option, some, List, [], ◌∷◌, ◌++◌, append-nil,
  ◌≢◌, arith, ◌==◌, length, not, Bool-cases, inl, inr, if◌then◌else◌, Bytes, bytes_eq, is_some,
  lookup, lookup-insert, ok, err, Result, empty_element,
}
use sporedb.Encoding.Set.{GoSet, new_set, contains, add}
use sporedb.Encoding.Set.Layout.{
  member, Represents, layout, layout-append, entry, offset_of, is_some-offset_of, offset_of-append,
  IsDistinct-append,
}
use native.Mathlib.Nat.{zero-add}

pub new_set-Represents : Represents new_set []
unfolding new_set layout offset_of lookup
new_set-Represents = record { laid_out = refl; indexed = λ e. refl; distinct = tt }

-- The map of a set has an entry for the elements and for nothing else.
pub is_some-lookup :
    (e : Bytes) (s : GoSet) (es : List Bytes)
    → Represents s es
    → is_some (lookup e s.elements) ≡ member e es
is_some-lookup e s es r = rw (r.indexed e) (is_some-offset_of e es 0)

-- On a set that holds just `es`, `Contains` says whether an element is one of them, and no of the
-- empty element.
pub contains-eq-member :
    (e : Bytes) (s : GoSet) (es : List Bytes)
    → Represents s es
    → contains e s ≡ (if length e == 0 then false else member e es)
unfolding contains
contains-eq-member e s es r = rw (is_some-lookup e s es r)

-- The set after an element has been put behind the others.
abbrev appended : Bytes → GoSet → GoSet
appended e s = record {
  elements = sporedb.Common.insert e (length s.raw) s.elements;
  raw = s.raw ++ entry e;
}

layout_single : (e : Bytes) (es : List Bytes) → layout es ++ entry e ≡ layout es ++ layout (e ∷ [])
unfolding layout
layout_single e es = rw append-nil

appended-Represents :
    (e : Bytes) (s : GoSet) (es : List Bytes)
    → Represents s es
    → length e ≢ 0
    → member e es ≡ false
    → Represents (appended e s) (es ++ (e ∷ []))
appended-Represents e s es r nz new = record {
  laid_out = rw (r.laid_out, layout-append) (layout_single e es);
  indexed = λ x.
      lookup-insert e x (length s.raw) s.elements
      ∙ rw (r.indexed x, r.laid_out, offset_of-append x e es 0 new, zero-add);
  distinct = IsDistinct-append e es r.distinct nz new;
}

-- `Add` of an element that is not empty says whether it was new; an old one leaves the set alone,
-- and a new one stands behind the others.
pub add-Represents :
    (e : Bytes) (s : GoSet) (es : List Bytes)
    → Represents s es
    → length e ≢ 0
    → (s' : GoSet) × (add e s ≡ ok (not (member e es), s'))
      × Represents s' (if member e es then es else es ++ (e ∷ []))
unfolding add entry
add-Represents e s es r nz = elim (Bool-cases (member e es)) [
  | inl old ↦ (s, ground (arith, is_some-lookup e s es r), rw old r)
  | inr new ↦ (
    appended e s,
    ground (arith, is_some-lookup e s es r),
    rw new (appended-Represents e s es r nz new),
  )
]
