-- ===== src/Encoding/Float.antt =====
-- db/encoding/float.go: numbers as decimal text. The arithmetic is that of `big.Float`, which the
-- file only calls: it is a parameter, a type with its operations.
use sporedb.Common.{ℕ, Option, some, Bytes, length, if◌then◌else◌, ◌==◌}

pub record BigFloat (F : Type 0) : Type 0 where
  -- `big.NewFloat(0)`
  pub zero_float : F
  -- `UnmarshalText` on such a number, `none` for an error
  pub parse : Bytes → Option F
  -- `MarshalText`
  pub print : F → Bytes
  pub add : F → F → F
  pub mul : F → F → F
  -- `SetUint64` on such a number, and the first result of `Uint64`
  pub of_uint64 : ℕ → F
  pub to_uint64 : F → ℕ

module _ {F : Type 0} (fl : BigFloat F) where
  -- `Float.MarshalBinary`
  unfoldable pub marshal_binary : F → Bytes
  marshal_binary f = fl.print f

  -- `Float.UnmarshalBinary`: no text is the number 0.
  unfoldable pub unmarshal_binary : Bytes → Option F
  unmarshal_binary b = if length b == 0 then some fl.zero_float else fl.parse b
