-- ===== src/Operations.antt =====
-- The package db/operations: what each operation does to the value of a key.
pub mod Sets
use sporedb.Common.{
  ℕ, ◌≡◌, Bool, true, false, Option, none, some, [], ◌++◌, Bytes, Result, ok, err, panic, stuck,
  ◌>>=◌, not_numeric, not_valid_set, if◌then◌else◌,
}
use sporedb.Encoding.Set.{GoSet, unmarshal_binary, marshal_binary, add, remove}
use sporedb.Encoding.Float
use sporedb.Encoding.Float.{BigFloat}

-- db/operations/value.go: the bytes, and the number or the set that they have been read as.
pub record Value (F : Type 0) : Type 0 where
  pub raw : Bytes
  pub vfloat : Option F
  pub vset : Option GoSet

-- `ErrNotValidSet` for whatever error the reading gives; a panic stays one.
unfoldable pub as_set : Result GoSet → Result GoSet
as_set (ok s) = ok s
as_set (err e) = err not_valid_set
as_set panic = panic
as_set stuck = stuck

module _ {F : Type 0} where
  unfoldable pub new_value : Bytes → Value F
  new_value b = record { raw = b; vfloat = none; vset = none }

  unfoldable pub reset : Value F → Value F
  reset v = record v { vfloat = none; vset = none }

  -- `Value.Set`: the cached set, or the bytes read as one.
  unfoldable pub value_set : Value F → Result GoSet
  value_set v = elim v.vset [ none ↦ unmarshal_binary v.raw | some s ↦ ok s ]

  -- `set.go`, `Set`
  unfoldable pub set : Bytes → Value F → Result (Value F)
  unfolding reset
  set input v = ok (record (reset v) { raw = input })

  unfoldable pub append : Bytes → Value F → Result (Value F)
  unfolding reset
  append input v = ok (record (reset v) { raw = v.raw ++ input })

  -- The value keeps the set that the operation has changed.
  unfoldable pub store_set : Value F → Bool × GoSet → Value F
  store_set v (_, s) = record v { raw = marshal_binary s; vset = some s }

  unfoldable pub set_generic : Bytes → Value F → Bool → Result (Value F)
  unfolding as_set value_set store_set
  set_generic input v adding = do
    s ← as_set (value_set v)
    r ← if adding then add input s else remove input s
    ok (store_set v r)

  unfoldable pub sadd : Bytes → Value F → Result (Value F)
  unfolding set_generic
  sadd input v = set_generic input v true

  unfoldable pub srem : Bytes → Value F → Result (Value F)
  unfolding set_generic
  srem input v = set_generic input v false

module _ {F : Type 0} (fl : BigFloat F) where
  -- `Value.Float`: the cached number, or the bytes read as one.
  unfoldable pub value_float : Value F → Option F
  value_float v = elim v.vfloat [ none ↦ Float.unmarshal_binary fl v.raw | some f ↦ some f ]

  unfoldable pub store_float : Value F → F → Value F
  store_float v f = record v { raw = fl.print f; vfloat = some f }

  unfoldable pub float_generic : Bytes → Value F → Bool → Result (Value F)
  unfolding value_float store_float
  float_generic input v adding = elim (value_float v) [
    | none ↦ err not_numeric
    | some b ↦ elim (Float.unmarshal_binary fl input) [
      | none ↦ err not_numeric
      | some a ↦ ok (store_float v (if adding then fl.add a b else fl.mul a b))
    ]
  ]

  -- `float.go`, `Add` and `Mul`
  unfoldable pub add_float : Bytes → Value F → Result (Value F)
  unfolding float_generic
  add_float input v = float_generic input v true

  unfoldable pub mul_float : Bytes → Value F → Result (Value F)
  unfolding float_generic
  mul_float input v = float_generic input v false
