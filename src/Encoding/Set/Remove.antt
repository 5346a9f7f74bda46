-- ===== src/Encoding/Set/Remove.antt =====
-- `Remove` against the list of elements that a set stands for.
use sporedb.Common.{
  ℕ, ◌+◌, ◌-◌, ◌≤◌, ◌<◌, ◌≡◌, refl, sym, ap, ◌∙◌, Bool, true, false, Option, none, some, List, [],
  ◌∷◌, ◌++◌, append_assoc, ◌≢◌, arith, ◌==◌, ltb, length, length-append, take, drop, take-append,
  drop-append, if◌then◌else◌, Bytes, bytes_eq, bytes_eq_iff, is_some, lookup, lookup-erase,
  lookup-map_values, ok, err, Result, inl, inr, Bool-cases, Option-cases,
}
use sporedb.Encoding.Set.{GoSet, cut_out, remove}
use sporedb.Encoding.Set.Layout.{
  member, remove_first, IsDistinct, Represents, layout, layout-append, entry, length-entry,
  offset_of, is_some-offset_of, offset_of-ge, offset_of-add,
}
use mathlib.Core.Option

-- An element of the list stands between those before it and those after it.
record Split (e : Bytes) (es : List Bytes) (i p : ℕ) : Type 0 where
  front : List Bytes
  back : List Bytes
  whole : es ≡ front ++ (e ∷ back)
  place : p ≡ i + length (layout front)
  without : remove_first e es ≡ front ++ back

offset_of-Split :
    (e : Bytes) (es : List Bytes) (i p : ℕ) → offset_of e es i ≡ some p → Split e es i p
unfolding offset_of layout
offset_of-Split e [] i p h = cc
offset_of-Split e (x ∷ xs) i p h = elim (Bool-cases (bytes_eq x e)) [
  | inl same ↦ record {
    front = [];
    back = xs;
    whole = ground (arith, bytes_eq_iff x e);
    place = ground arith;
    without = rw same;
  }
  | inr other ↦
      let t = offset_of-Split e xs (i + (length x + 8)) p (rw other at h) in
      record {
        front = x ∷ t.front;
        back = t.back;
        whole = ap (λ l. x ∷ l) t.whole;
        place =
            omega (arith, t.place, length-append {0} (entry x) (layout t.front), length-entry x);
        without = rw other (ap (λ l. x ∷ l) t.without);
      }
]

-- Where a record begins after the one at `p`, of `l` bytes, is gone.
abbrev moved : ℕ → ℕ → ℕ → ℕ
moved p l n = if ltb p n then n - l else n

abbrev moved_offset : ℕ → ℕ → Option ℕ → Option ℕ
moved_offset p l none = none
moved_offset p l (some n) = some (moved p l n)

map-moved : (p l : ℕ) (o : Option ℕ) → Option.map (moved p l) o ≡ moved_offset p l o
map-moved p l none = refl
map-moved p l (some n) = refl

pub member-remove_first :
    (e x : Bytes) (es : List Bytes)
    → IsDistinct es
    → member x (remove_first e es) ≡ (if bytes_eq e x then false else member x es)
member-remove_first e x [] d = ground arith
member-remove_first e x (y ∷ es) d =
    ground
      (arith, member-remove_first e x es d.2, bytes_eq_iff y e, bytes_eq_iff y x, bytes_eq_iff e x)

pub remove_first-IsDistinct :
    (e : Bytes) (es : List Bytes) → IsDistinct es → IsDistinct (remove_first e es)
remove_first-IsDistinct e [] d = tt
remove_first-IsDistinct e (y ∷ es) d =
    ground (arith, remove_first-IsDistinct e es d.2, member-remove_first e y es d.2)

offset_of-remove_first :
    (e x : Bytes) (es : List Bytes) (i p : ℕ)
    → IsDistinct es
    → offset_of e es i ≡ some p
    → offset_of x (remove_first e es) i
      ≡ (if bytes_eq e x then none else moved_offset p (length e + 8) (offset_of x es i))
unfolding offset_of
offset_of-remove_first e x [] i p d h = cc
offset_of-remove_first e x (y ∷ es) i p d h = elim (Bool-cases (bytes_eq y e)) [
  | inl same ↦ elim (Option-cases (offset_of x es i)) [
    | inl missing ↦ ground (
      arith,
      offset_of-add x es i (length y + 8),
      is_some-offset_of x es i,
      bytes_eq_iff y e,
      bytes_eq_iff y x,
      bytes_eq_iff e x,
    )
    | inr (q, found) ↦ ground (
      arith,
      offset_of-add x es i (length y + 8),
      offset_of-ge x es i q,
      is_some-offset_of x es i,
      bytes_eq_iff y e,
      bytes_eq_iff y x,
      bytes_eq_iff e x,
    )
  ]
  | inr other ↦ ground (
    arith,
    offset_of-remove_first e x es (i + (length y + 8)) p d.2,
    offset_of-ge e es (i + (length y + 8)) p,
    bytes_eq_iff y e,
    bytes_eq_iff y x,
    bytes_eq_iff e x,
  )
]

cut_append :
    (xs m ys : Bytes) (p q : ℕ)
    → p ≡ length xs
    → q ≡ length xs + length m
    → take p (xs ++ (m ++ ys)) ++ drop q (xs ++ (m ++ ys)) ≡ xs ++ ys
cut_append xs m ys p q hp hq =
    let front : take p (xs ++ (m ++ ys)) ≡ xs = rw hp (take-append xs (m ++ ys)) in
    let back : drop q (xs ++ (m ++ ys)) ≡ ys =
      rw (hq, ← length-append xs m, ← append_assoc xs m ys) (drop-append (xs ++ m) ys) in
    rw (front, back)

remove_first_missing : (e : Bytes) (es : List Bytes) → member e es ≡ false → remove_first e es ≡ es
remove_first_missing e [] h = refl
remove_first_missing e (x ∷ es) h = ground (arith, remove_first_missing e es)

-- The bytes without the record.
cut_layout :
    (e : Bytes) (es : List Bytes) (p : ℕ)
    → offset_of e es 0 ≡ some p
    → (length e + 8 + p ≤ length (layout es))
      × (take p (layout es) ++ drop (length e + 8 + p) (layout es) ≡ layout (remove_first e es))
cut_layout e es p h =
    let t = offset_of-Split e es 0 p h in
    let whole : layout es ≡ layout t.front ++ (entry e ++ layout t.back) =
      ap layout t.whole ∙ layout-append t.front (e ∷ t.back) ∙ (unfold layout in refl) in
    let rest : layout (remove_first e es) ≡ layout t.front ++ layout t.back =
      ap layout t.without ∙ layout-append t.front t.back in
    rw (whole, rest)
      (
        omega (
          arith,
          t.place,
          length-append {0} (layout t.front) (entry e ++ layout t.back),
          length-append {0} (entry e) (layout t.back),
          length-entry e,
        ),
        cut_append (layout t.front) (entry e) (layout t.back) p (length e + 8 + p)
            (omega (arith, t.place)) (omega (arith, t.place, length-entry e)),
      )

cut_out-Represents :
    (e : Bytes) (s : GoSet) (es : List Bytes) (p : ℕ)
    → Represents s es
    → offset_of e es 0 ≡ some p
    → Represents (cut_out e p (length e + 8) s) (remove_first e es)
unfolding cut_out
cut_out-Represents e s es p r h = record {
  laid_out = rw r.laid_out ((cut_layout e es p h).1);
  indexed = λ x.
      lookup-map_values (moved p (length e + 8)) x (sporedb.Common.erase e s.elements)
      ∙ map-moved p (length e + 8) _
      ∙ ap (moved_offset p (length e + 8)) (lookup-erase e x s.elements)
      ∙ ground (arith, r.indexed x, offset_of-remove_first e x es 0 p r.distinct h);
  distinct = remove_first-IsDistinct e es r.distinct;
}

-- `Remove` of an element that is not empty says whether it was there, never panics, and leaves the
-- other elements in their order.
pub remove-Represents :
    (e : Bytes) (s : GoSet) (es : List Bytes)
    → Represents s es
    → length e ≢ 0
    → (s' : GoSet) × (remove e s ≡ ok (member e es, s')) × Represents s' (remove_first e es)
unfolding remove
remove-Represents e s es r nz = elim (Option-cases (offset_of e es 0)) [
  | inl missing ↦ (
    s,
    ground (arith, r.indexed e, is_some-offset_of e es 0),
    rw (remove_first_missing e es (ground (arith, is_some-offset_of e es 0))) r,
  )
  | inr (p, h) ↦ (
    cut_out e p (length e + 8) s,
    ground (
      arith,
      r.indexed e,
      is_some-offset_of e es 0,
      (cut_layout e es p h).0,
      ap length r.laid_out,
    ),
    cut_out-Represents e s es p r h,
  )
]
