-- ===== src/Operation/Commute.antt =====
-- What the order of two operations that run in parallel changes of a set: nothing of its members.
use sporedb.Common.{
  ◌+◌, ◌<◌, ◌^◌, ◌≡◌, refl, ◌≢◌, ◌∙◌, Bool, true, false, List, arith, length, Bytes, bytes_eq,
  bytes_eq_iff, inl, inr, ◌⊎◌, ap, sym, ok, ◌>>=◌, if◌then◌else◌,
}
use sporedb.Encoding.Float.{BigFloat}
use sporedb.Encoding.Set.Layout.{member, layout, IsDistinct}
use sporedb.Operations.{Value, set_generic}
use sporedb.Operations.Sets.{
  HoldsSet, after, set_generic-HoldsSet, after-IsDistinct, member-after, length-after,
}
use sporedb.Operation.Parallel.{check_conflict_iff}
use sporedb.Operation.{Operation, op_sadd, op_srem, check_conflict, exec}

-- An insertion (`true`) or a removal, of an element that is not empty.
pub record IsSetOp (adding : Bool) (o : Operation) : Type 0 where
  pub code : o.op ≡ (if adding then op_sadd else op_srem)
  pub filled : length o.payload ≢ 0

module _ {F : Type 0} (fl : BigFloat F) where
  exec-set_generic :
      (adding : Bool) (o : Operation) (v : Value F)
      → o.op ≡ (if adding then op_sadd else op_srem)
      → exec fl o v ≡ set_generic o.payload v adding
  unfolding exec sporedb.Operations.sadd sporedb.Operations.srem
  exec-set_generic true o v c = rw c
  exec-set_generic false o v c = rw c

  pub exec-HoldsSet :
      (adding : Bool) (o : Operation) (v : Value F) (es : List Bytes)
      → IsSetOp adding o
      → HoldsSet v es
      → length (layout es) + (length o.payload + 8) < 2 ^ 62
      → (v' : Value F) × (exec fl o v ≡ ok v') × HoldsSet v' (after adding o.payload es)
  exec-HoldsSet adding o v es k h room =
      let (v', run, h') =
        set_generic-HoldsSet adding o.payload v es h k.filled
          (omega (arith, length-after adding o.payload es)) in
      (v', exec-set_generic adding o v k.code ∙ run, h')

  -- Two such operations one after the other.
  pub exec_both :
      (f g : Bool) (a b : Operation) (v : Value F) (es : List Bytes)
      → IsSetOp f a
      → IsSetOp g b
      → HoldsSet v es
      → length (layout es) + (length a.payload + 8) + (length b.payload + 8) < 2 ^ 62
      → (v' : Value F) × ((exec fl a v >>= exec fl b) ≡ ok v')
        × HoldsSet v' (after g b.payload (after f a.payload es))
  exec_both f g a b v es ka kb h room =
      let (v1, run1, h1) = exec-HoldsSet f a v es ka h (omega arith) in
      let (v2, run2, h2) =
        exec-HoldsSet g b v1 (after f a.payload es) kb h1
          (omega (arith, length-after f a.payload es)) in
      (v2, rw run1 run2, h2)

-- Set operations that may run in parallel are of one kind, or on different elements.
set_ops_apart :
    (f g : Bool) (a b : Operation)
    → IsSetOp f a
    → IsSetOp g b
    → a.key ≡ b.key
    → check_conflict a b ≡ ok tt
    → (f ≡ g) ⊎ (a.payload ≢ b.payload)
set_ops_apart true true a b ka kb same c = inl refl
set_ops_apart false false a b ka kb same c = inl refl
set_ops_apart true false a b ka kb same c =
    ground (arith, (check_conflict_iff a b).0, ka.code, kb.code)
set_ops_apart false true a b ka kb same c =
    ground (arith, (check_conflict_iff a b).0, ka.code, kb.code)

member-after-after :
    (f g : Bool) (x y z : Bytes) (es : List Bytes)
    → length x ≢ 0
    → IsDistinct es
    → member z (after g y (after f x es))
      ≡ (if bytes_eq y z then g else if bytes_eq x z then f else member z es)
member-after-after f g x y z es nz d =
    member-after g y z (after f x es) (after-IsDistinct f x es d nz)
    ∙ ap (λ t. if bytes_eq y z then g else t) (member-after f x z es d)

-- Two operations on one key that are set insertions or removals, of elements that are not empty,
-- and that `CheckConflict` lets run in parallel: on a value that holds a set they succeed in both
-- orders, if there is room for two records more, and the two results have the same members.
pub exec_both_comm :
    {F : Type 0} (fl : BigFloat F) (f g : Bool) (a b : Operation) (v : Value F) (es : List Bytes)
    → IsSetOp f a
    → IsSetOp g b
    → a.key ≡ b.key
    → check_conflict a b ≡ ok tt
    → HoldsSet v es
    → length (layout es) + (length a.payload + 8) + (length b.payload + 8) < 2 ^ 62
    → (v1 : Value F) × (v2 : Value F) × (xs : List Bytes) × (ys : List Bytes) × ((exec fl a v
          >>= exec fl b)
        ≡ ok v1)
      × ((exec fl b v >>= exec fl a) ≡ ok v2)
      × HoldsSet v1 xs
      × HoldsSet v2 ys
      × ((z : Bytes) → member z xs ≡ member z ys)
exec_both_comm fl f g a b v es ka kb same c h room =
    let (v1, run1, h1) = exec_both fl f g a b v es ka kb h room in
    let (v2, run2, h2) = exec_both fl g f b a v es kb ka h (omega arith) in
    (
      v1,
      v2,
      after g b.payload (after f a.payload es),
      after f a.payload (after g b.payload es),
      run1,
      run2,
      h1,
      h2,
      λ z.
          member-after-after f g a.payload b.payload z es ka.filled h.distinct
          ∙ overlap f g a.payload b.payload z (member z es) (set_ops_apart f g a b ka kb same c)
          ∙ sym (member-after-after g f b.payload a.payload z es kb.filled h.distinct),
    )
  where
    overlap :
        (f g : Bool) (x y z : Bytes) (m : Bool)
        → (f ≡ g) ⊎ (x ≢ y)
        → (if bytes_eq y z then g else if bytes_eq x z then f else m)
          ≡ (if bytes_eq x z then f else if bytes_eq y z then g else m)
    overlap f g x y z m (inl e) = ground arith
    overlap f g x y z m (inr ne) = ground (arith, bytes_eq_iff x z, bytes_eq_iff y z)
