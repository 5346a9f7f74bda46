-- ===== src/Operation/Parallel.antt =====
-- Which operations `CheckConflict` lets run in parallel.
use sporedb.Common.{◌≡◌, ◌≢◌, ◌↔◌, ◌⊎◌, ok, arith, bytes_eq_iff, bytes_eq_comm}
use sporedb.Operation.{Operation, op_set, op_add, op_mul, op_sadd, op_srem, check_conflict}

-- Two operations that may run in parallel: on different keys, two sums, two products, two
-- insertions into or removals from a set, one of each with different elements, or two
-- assignments of the same bytes.
abbrev pub Compatible : Operation → Operation → Type 0
Compatible a b =
    (a.key ≢ b.key)
    ⊎ ((a.op ≡ op_add) × (b.op ≡ op_add))
    ⊎ ((a.op ≡ op_mul) × (b.op ≡ op_mul))
    ⊎ ((a.op ≡ op_sadd) × (b.op ≡ op_sadd))
    ⊎ ((a.op ≡ op_srem) × (b.op ≡ op_srem))
    ⊎ ((a.op ≡ op_sadd) × (b.op ≡ op_srem) × (a.payload ≢ b.payload))
    ⊎ ((a.op ≡ op_srem) × (b.op ≡ op_sadd) × (a.payload ≢ b.payload))
    ⊎ ((a.op ≡ op_set) × (b.op ≡ op_set) × (a.payload ≡ b.payload))

-- `CheckConflict` answers the same for two operations in either order.
pub check_conflict_comm : (a b : Operation) → check_conflict a b ≡ check_conflict b a
unfolding check_conflict
check_conflict_comm a b =
    ground (arith, bytes_eq_comm a.key b.key, bytes_eq_comm a.payload b.payload)

-- `CheckConflict` accepts two operations exactly if they are on different keys, both sums, both
-- products, both insertions into a set or both removals, one of each with different elements, or
-- two assignments of the same bytes.
pub check_conflict_iff : (a b : Operation) → (check_conflict a b ≡ ok tt) ↔ Compatible a b
unfolding check_conflict
check_conflict_iff a b = (
  ground (arith, bytes_eq_iff a.key b.key, bytes_eq_iff a.payload b.payload),
  ground (arith, bytes_eq_iff a.key b.key, bytes_eq_iff a.payload b.payload),
)
