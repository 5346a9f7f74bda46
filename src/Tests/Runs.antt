-- ===== src/Tests/Runs.antt =====
-- Operations, spores and calls of `Apply` at small inputs.
use sporedb.Common.{
  GoMap, ℕ, ◌≡◌, ◌≢◌, ◌↔◌, ◌⊎◌, inl, refl, arith, Bool, true, false, List, [], ◌∷◌, ◌++◌, length,
  Bytes, codes, lookup, lookup-insert, insert, Result, ok, err, ◌>>=◌, Option, none, some, All,
}
use sporedb.Encoding.Set.Layout.{member, layout}
use sporedb.Operations.{Value, new_value}
use sporedb.Operations.Sets.{HoldsSet}
use sporedb.Operation.{Operation, op_add, op_sadd, op_srem, check_conflict, exec}
use sporedb.Operation.Commute.{exec_both_comm}
use sporedb.Spore.{Spore, check_grace_period, spores_conflict}
use sporedb.BoltDb.{bolt_store, list, get}
use sporedb.BoltDb.Contract.{BucketLaws, bolt_store-StoreLaws}
use sporedb.World.{StoreLaws}
use sporedb.Db.{Db}
use sporedb.Db.Usage.{usage_key}
use sporedb.Db.Apply.{apply}
use sporedb.Db.Apply.Atomic.{apply_atomic, apply_once}
use sporedb.Db.Apply.Refine.{final_value, value_reply, apply-final_value}
use sporedb.Tests.{
  demo, map_bucket, bucket_get, bucket_put, length-fill, fill, two_of, spore, sum, node, op,
}

abbrev one : Operation
one = op op_sadd (codes "l") (1 ∷ [])

abbrev two : Operation
two = op op_sadd (codes "l") (2 ∷ [])

abbrev less : Operation
less = op op_srem (codes "l") (2 ∷ [])

empty-HoldsSet : HoldsSet {F = ℕ} (new_value []) []
unfolding layout new_value
empty-HoldsSet = record { content = refl; fits = omega arith; distinct = tt; cached = inl refl }

exec_both_comm_example :
    (v1 : Value ℕ) × (v2 : Value ℕ) × (xs : List Bytes) × (ys : List Bytes) × ((exec demo.floats one
          (new_value [])
        >>= exec demo.floats less)
      ≡ ok v1)
    × ((exec demo.floats less (new_value []) >>= exec demo.floats one) ≡ ok v2)
    × HoldsSet v1 xs
    × HoldsSet v2 ys
    × ((z : Bytes) → member z xs ≡ member z ys)
unfolding check_conflict sporedb.Common.bytes_eq layout
exec_both_comm_example =
    exec_both_comm demo.floats true false one less (new_value []) []
      (record { code = refl; filled = omega arith }) (record { code = refl; filled = omega arith })
      refl refl empty-HoldsSet (omega arith)

-- Another spore that sums on the key.
abbrev sum2 : Spore
sum2 = spore (codes "t") (op op_add (codes "k") (9 ∷ []) ∷ [])

map_bucket-BucketLaws : BucketLaws map_bucket
unfolding bucket_get bucket_put
map_bucket-BucketLaws = record { get-put = λ b b' k v j h. ground (arith, lookup-insert k j v b) }

demo_laws : StoreLaws demo.store
demo_laws = bolt_store-StoreLaws map_bucket map_bucket-BucketLaws

abbrev start : Db demo
start = node (two_of ∷ []) [] []

sum_applied : (apply 100 sum start).1 ≡ ok tt
unfolding apply lookup sporedb.Common.bytes_eq sporedb.Spore.check_grace_period exec new_value
    sporedb.Encoding.Float.unmarshal_binary sporedb.Common.insert sporedb.Operations.sadd
    sporedb.Encoding.Set.unmarshal_binary sporedb.Encoding.Set.add
    sporedb.Db.Usage.update_policy_usage get bucket_get sporedb.BoltDb.set_batch
    sporedb.Version.marshal_binary bucket_put sporedb.Version.new fill
    sporedb.Encoding.Set.marshal_binary sporedb.Encoding.Uint64.uint64_to_bytes
sum_applied = refl

apply_atomic_example : (apply 100 sum (node [] [] [])).0 ≡ node [] [] []
unfolding apply lookup
apply_atomic_example = apply_atomic 100 sum (node [] [] []) (λ e. ground arith)

apply_once_example :
    ((apply 200 sum (apply 100 sum start).0).1 ≢ ok tt)
    × ((apply 200 sum (apply 100 sum start).0).0 ≡ (apply 100 sum start).0)
apply_once_example = apply_once 100 200 sum sum start sum_applied refl

apply-final_value_example :
    (o : Option (Value ℕ)) × (final_value demo.floats
        (codes "k")
        sum.operations
        (demo.store.get start.store (codes "k"))
        none
      ≡ ok o)
    × (demo.store.get (apply 100 sum start).0.store (codes "k")
        ≡ value_reply demo.sha512 (codes "k") (demo.store.get start.store (codes "k")) o)
apply-final_value_example =
    apply-final_value demo_laws (λ b. length-fill 64 b) 100 sum start (codes "k") sum_applied
      (λ e. ground arith)

bolt_store-StoreLaws_example : StoreLaws (bolt_store map_bucket)
bolt_store-StoreLaws_example = bolt_store-StoreLaws map_bucket map_bucket-BucketLaws

-- A bucket with a version and a value, and with bytes that are no version.
abbrev two_pairs : GoMap Bytes
two_pairs = (codes "k", fill 65 (1 ∷ [])) ∷ ((codes "l", 2 ∷ []) ∷ [])
