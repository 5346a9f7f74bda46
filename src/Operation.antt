-- ===== src/Operation.antt =====
-- db/operation.go: an operation of a spore, its execution, and which two may run in parallel.
pub mod Parallel
pub mod Commute
pub mod Diverge
use sporedb.Common.{
  ℕ, ◌/◌, ◌%◌, Bool, true, false, not, ◌&&◌, ◌||◌, ◌==◌, ltb, Bytes, bytes_eq, Result, ok, err,
  non_parallel, not_implemented, if◌then◌else◌,
}
use sporedb.Encoding.Float.{BigFloat}
use sporedb.Operations
use sporedb.Operations.{Value}

-- `Operation_Op`, an open enumeration: the wire may carry any number.
abbrev pub OpCode : Type 0
OpCode = ℕ

abbrev pub op_set : OpCode
op_set = 0

abbrev pub op_concat : OpCode
op_concat = 1

abbrev pub op_add : OpCode
op_add = 10

abbrev pub op_mul : OpCode
op_mul = 11

abbrev pub op_sadd : OpCode
op_sadd = 20

abbrev pub op_srem : OpCode
op_srem = 21

-- `data` is `payload` here.
pub record Operation : Type 0 where
  pub key : Bytes
  pub op : OpCode
  pub payload : Bytes
  pub metadata : Bytes

abbrev pub parallel_default : ℕ
parallel_default = 1

abbrev pub parallel_disallow_different : ℕ
parallel_disallow_different = 2

abbrev pub parallel_disallow_equal : ℕ
parallel_disallow_equal = 4

-- Does `ParallelMatrix` have a row for the operation?
unfoldable pub has_row : OpCode → Bool
has_row a = a == op_set || (a == op_add || (a == op_mul || (a == op_sadd || a == op_srem)))

-- `ParallelMatrix[a][b]`, 0 on a missing entry
unfoldable pub parallel_matrix : OpCode → OpCode → ℕ
parallel_matrix a b =
    if a == op_set
    then if b == op_set then parallel_disallow_different else 0
    else if a == op_add
    then if b == op_add then parallel_default else 0
    else if a == op_mul
    then if b == op_mul then parallel_default else 0
    else if a == op_sadd
    then if b == op_sadd
      then parallel_default
      else if b == op_srem
      then parallel_disallow_equal
      else 0
    else if a == op_srem
    then if b == op_srem
      then parallel_default
      else if b == op_sadd
      then parallel_disallow_equal
      else 0
    else 0

-- `flag & t > 0` for a flag of one bit, given as that bit's number
abbrev pub has_flag : ℕ → ℕ → Bool
has_flag flag t = ltb 0 (t / flag % 2)

unfoldable pub check_conflict : Operation → Operation → Result (Unit {0})
unfolding has_row parallel_matrix
check_conflict o o2 =
    let t = parallel_matrix o.op o2.op in
    let equal = bytes_eq o.payload o2.payload in
    if not (bytes_eq o.key o2.key)
    then ok tt
    else if not (has_row o.op)
    then err non_parallel
    else if t == 0
    then err non_parallel
    else if has_flag parallel_default t
    then ok tt
    else if equal && has_flag parallel_disallow_equal t
    then err non_parallel
    else if not equal && has_flag parallel_disallow_different t
    then err non_parallel
    else ok tt

module _ {F : Type 0} (fl : BigFloat F) where
  -- `Exec`, with the table `runners`
  unfoldable pub exec : Operation → Value F → Result (Value F)
  unfolding Operations.set Operations.append Operations.add_float Operations.mul_float
  exec o v =
      if o.op == op_set
      then Operations.set o.payload v
      else if o.op == op_concat
      then Operations.append o.payload v
      else if o.op == op_add
      then Operations.add_float fl o.payload v
      else if o.op == op_mul
      then Operations.mul_float fl o.payload v
      else if o.op == op_sadd
      then Operations.sadd o.payload v
      else if o.op == op_srem
      then Operations.srem o.payload v
      else err not_implemented
