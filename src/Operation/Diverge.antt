-- ===== src/Operation/Diverge.antt =====
-- What the order of two operations that run in parallel does change: the bytes that are stored.
use sporedb.Common.{
  ◌+◌, ◌<◌, ◌^◌, ◌≡◌, refl, ◌≢◌, ◌∙◌, true, false, List, [], ◌∷◌, ◌++◌, append_assoc, arith, length,
  Bytes, bytes_eq_iff, take, drop, take-append, drop-append, ok, ◌>>=◌, ap, sym,
}
use sporedb.Encoding.Float.{BigFloat}
use sporedb.Encoding.Uint64.{
  uint64_to_bytes, bytes_to_uint64, length-uint64_to_bytes, bytes_to_uint64-uint64_to_bytes,
}
use sporedb.Encoding.Set.Layout.{member, layout, layout-append, entry, member-append}
use sporedb.Operations.{Value}
use sporedb.Operations.Sets.{HoldsSet, after}
use sporedb.Operation.Parallel.{check_conflict_iff}
use sporedb.Operation.{Operation, exec, check_conflict}
use sporedb.Operation.Commute.{IsSetOp, exec_both}

drop_header : (w r : Bytes) → length w ≡ 8 → drop 8 (w ++ r) ≡ r
drop_header w r h = rw h at (drop-append w r)

-- The first element can be read off the records.
entry_injective :
    (x y s t : Bytes) → length x < 2 ^ 62 → length y < 2 ^ 62 → entry x ++ s ≡ entry y ++ t → x ≡ y
unfolding entry
entry_injective x y s t hx hy e =
    let size : length x ≡ length y = sym (read x s hx) ∙ ap bytes_to_uint64 e ∙ read y t hy in
    sym (body x s) ∙ ap (λ l. take (length x) (drop 8 l)) e ∙ rw size (body y t)
  where
    read :
        (u r : Bytes)
        → length u < 2 ^ 62
        → bytes_to_uint64 ((uint64_to_bytes (length u) ++ u) ++ r) ≡ length u
    read u r h = rw append_assoc (bytes_to_uint64-uint64_to_bytes (length u) (u ++ r) (omega arith))

    body : (u r : Bytes) → take (length u) (drop 8 ((uint64_to_bytes (length u) ++ u) ++ r)) ≡ u
    body u r =
        rw
          (
            append_assoc,
            drop_header (uint64_to_bytes (length u)) (u ++ r) (length-uint64_to_bytes (length u)),
          )
          (take-append u r)

layout_order :
    (es : List Bytes) (x y : Bytes)
    → length x < 2 ^ 62
    → length y < 2 ^ 62
    → layout ((es ++ (x ∷ [])) ++ (y ∷ [])) ≡ layout ((es ++ (y ∷ [])) ++ (x ∷ []))
    → x ≡ y
layout_order es x y hx hy e = entry_injective x y (entry y ++ []) (entry x ++ []) hx hy (
    sym (drop-append (layout es) _)
    ∙ ap (drop (length (layout es))) (sym (spread es x y) ∙ e ∙ spread es y x)
    ∙ drop-append (layout es) _)
  where
    spread :
        (es : List Bytes) (x y : Bytes)
        → layout ((es ++ (x ∷ [])) ++ (y ∷ [])) ≡ layout es ++ (entry x ++ (entry y ++ []))
    spread es x y =
        ap layout (append_assoc es (x ∷ []) (y ∷ []))
        ∙ layout-append es (x ∷ (y ∷ []))
        ∙ (unfold layout in refl)

after_new :
    (x y : Bytes) (es : List Bytes)
    → member x es ≡ false
    → member y es ≡ false
    → x ≢ y
    → after true y (after true x es) ≡ (es ++ (x ∷ [])) ++ (y ∷ [])
after_new x y es hx hy ne = rw hx (ground (arith, member-append y x es, bytes_eq_iff x y))

-- `CheckConflict` lets two insertions into one set run in parallel. If the elements are new and
-- differ, and there is room for both, both orders succeed, and the bytes that they leave differ.
pub sadd_orders_diverge :
    {F : Type 0} (fl : BigFloat F) (a b : Operation) (v : Value F) (es : List Bytes)
    → IsSetOp true a
    → IsSetOp true b
    → a.payload ≢ b.payload
    → member a.payload es ≡ false
    → member b.payload es ≡ false
    → HoldsSet v es
    → length (layout es) + (length a.payload + 8) + (length b.payload + 8) < 2 ^ 62
    → (v1 : Value F) × (v2 : Value F) × (check_conflict a b ≡ ok tt)
      × ((exec fl a v >>= exec fl b) ≡ ok v1)
      × ((exec fl b v >>= exec fl a) ≡ ok v2)
      × (v1.raw ≢ v2.raw)
sadd_orders_diverge fl a b v es ka kb ne ha hb h room =
    let (v1, run1, h1) = exec_both fl true true a b v es ka kb h room in
    let (v2, run2, h2) = exec_both fl true true b a v es kb ka h (omega arith) in
    (
      v1,
      v2,
      ground (arith, (check_conflict_iff a b).1, ka.code, kb.code),
      run1,
      run2,
      λ e. ne (
          layout_order es a.payload b.payload (omega arith) (omega arith) (
            ap layout (sym (after_new a.payload b.payload es ha hb ne))
            ∙ sym h1.content
            ∙ e
            ∙ h2.content
            ∙ ap layout (after_new b.payload a.payload es hb ha (λ q. ne (sym q))))),
    )
