-- ===== src/Operations/Sets.antt =====
-- `SADD` and `SREM` against the elements that a value holds.
use sporedb.Common.{
  ◌≡◌, refl, ◌≢◌, ◌⊎◌, inl, inr, Bool, true, false, not, none, some, List, [], ◌∷◌, ◌++◌, arith,
  ◌+◌, ◌≤◌, length, length-append, Bool-cases, Bytes, bytes_eq, bytes_eq_iff, ok, if◌then◌else◌,
}
use sporedb.Encoding.Set.{GoSet, marshal_binary, add, remove}
use sporedb.Encoding.Set.Layout.{
  member, remove_first, IsDistinct, Represents, layout, layout-append, member-append, entry,
  length-entry, IsDistinct-append,
}
use sporedb.Encoding.Set.Insert.{add-Represents}
use sporedb.Encoding.Set.Remove.{remove-Represents, member-remove_first, remove_first-IsDistinct}
use sporedb.Encoding.Set.Unmarshal.{IsInMemory, unmarshal_binary-layout}
use sporedb.Operations.{Value, value_set, as_set, store_set, set_generic}

-- The value's bytes are those of a set of these elements, and its cached set, if it has one, is of
-- the same elements.
pub record HoldsSet {F : Type 0} (v : Value F) (es : List Bytes) : Type 0 where
  pub content : v.raw ≡ layout es
  pub fits : IsInMemory v.raw
  pub distinct : IsDistinct es
  pub cached : (v.vset ≡ none) ⊎ ((s : GoSet) × (v.vset ≡ some s) × Represents s es)

-- The elements after an insertion (`true`) or a removal.
abbrev pub after : Bool → Bytes → List Bytes → List Bytes
after true e es = if member e es then es else es ++ (e ∷ [])
after false e es = remove_first e es

module _ {F : Type 0} where
  value_set-Represents :
      (v : Value F) (es : List Bytes)
      → HoldsSet v es
      → (s : GoSet) × (value_set v ≡ ok s) × Represents s es
  unfolding value_set
  value_set-Represents v es h = elim h.cached [
    | inl fresh ↦
        let (s, e, r) = unmarshal_binary-layout v.raw es h.content h.distinct h.fits in
        (s, ground arith, r)
    | inr (s, e, r) ↦ (s, rw e, r)
  ]

  store_set-HoldsSet :
      (v : Value F) (b : Bool) (s : GoSet) (es : List Bytes)
      → Represents s es
      → IsInMemory (layout es)
      → HoldsSet (store_set v (b, s)) es
  unfolding store_set marshal_binary
  store_set-HoldsSet v b s es r fits = record {
    content = r.laid_out;
    fits = rw r.laid_out fits;
    distinct = r.distinct;
    cached = inr (s, refl, r);
  }

  run_set_generic :
      (e : Bytes) (v : Value F) (adding b : Bool) (s s' : GoSet)
      → value_set v ≡ ok s
      → (if adding then add e s else remove e s) ≡ ok (b, s')
      → set_generic e v adding ≡ ok (store_set v (b, s'))
  unfolding set_generic as_set
  run_set_generic e v adding b s s' read run = rw (read, run)

  -- One of the two operations, on a set value and an element that is not empty: it succeeds, and
  -- the value then holds the elements of the list operation, if they still fit.
  pub set_generic-HoldsSet :
      (adding : Bool) (e : Bytes) (v : Value F) (es : List Bytes)
      → HoldsSet v es
      → length e ≢ 0
      → IsInMemory (layout (after adding e es))
      → (v' : Value F) × (set_generic e v adding ≡ ok v') × HoldsSet v' (after adding e es)
  set_generic-HoldsSet true e v es h nz fits =
      let (s, read, r) = value_set-Represents v es h in
      let (s', run, r') = add-Represents e s es r nz in
      (
        store_set v (not (member e es), s'),
        run_set_generic e v true (not (member e es)) s s' read run,
        store_set-HoldsSet v (not (member e es)) s' _ r' fits,
      )
  set_generic-HoldsSet false e v es h nz fits =
      let (s, read, r) = value_set-Represents v es h in
      let (s', run, r') = remove-Represents e s es r nz in
      (
        store_set v (member e es, s'),
        run_set_generic e v false (member e es) s s' read run,
        store_set-HoldsSet v (member e es) s' _ r' fits,
      )

pub after-IsDistinct :
    (adding : Bool) (e : Bytes) (es : List Bytes)
    → IsDistinct es
    → length e ≢ 0
    → IsDistinct (after adding e es)
after-IsDistinct true e es d nz = elim (Bool-cases (member e es)) [
  | inl old ↦ rw old d
  | inr new ↦ rw new (IsDistinct-append e es d nz new)
]
after-IsDistinct false e es d nz = remove_first-IsDistinct e es d

-- After an insertion the element is there, after a removal it is not; the others are as before.
pub member-after :
    (adding : Bool) (e z : Bytes) (es : List Bytes)
    → IsDistinct es
    → member z (after adding e es) ≡ (if bytes_eq e z then adding else member z es)
member-after true e z es d = ground (arith, member-append z e es, bytes_eq_iff e z)
member-after false e z es d = member-remove_first e z es d

length-remove_first :
    (e : Bytes) (es : List Bytes) → length (layout (remove_first e es)) ≤ length (layout es)
unfolding layout
length-remove_first e [] = omega arith
length-remove_first e (x ∷ es) = ground (
  arith,
  length-remove_first e es,
  length-append {0} (entry x) (layout es),
  length-append {0} (entry x) (layout (remove_first e es)),
)

-- One operation adds one record at most.
pub length-after :
    (adding : Bool) (e : Bytes) (es : List Bytes)
    → length (layout (after adding e es)) ≤ length (layout es) + (length e + 8)
unfolding layout
length-after true e es = ground (
  arith,
  layout-append es (e ∷ []),
  length-append {0} (layout es) (entry e ++ []),
  length-append {0} (entry e) [],
  length-entry e,
)
length-after false e es = omega (arith, length-remove_first e es)
