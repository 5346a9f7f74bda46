-- ===== src/Tests/Sets.antt =====
-- Sets and set operations at small inputs.
use sporedb.Common.{
  ◌≡◌, ◌≢◌, refl, ◌^◌, arith, true, [], ◌∷◌, ◌++◌, length-append, bytes_eq, lookup, ok, panic,
  stuck, ◌-◌, List, Bytes, codes, length, ◌==◌, false, if◌then◌else◌,
}
use sporedb.Encoding.Uint64.{uint64_to_bytes, length-uint64_to_bytes}
use sporedb.Encoding.Set.{
  GoSet, new_set, contains, add, remove, unmarshal_binary, marshal_binary, slice,
}
use sporedb.Encoding.Set.Layout.{member, remove_first, Represents, layout, offset_of}
use sporedb.Encoding.Set.Unmarshal.{unmarshal_binary-ne-stuck}
use sporedb.Db
use sporedb.Db.{Db}
use sporedb.Db.Server
use sporedb.Db.Server.{members_and_contains}
use sporedb.Tests.{demo, node, fill}

-- The set of one element.
abbrev seven : GoSet
seven = record {
  elements = (7 ∷ [], 0) ∷ [];
  raw = 1 ∷ (0 ∷ (0 ∷ (0 ∷ (0 ∷ (0 ∷ (0 ∷ (0 ∷ (7 ∷ []))))))));
}

seven-Represents : Represents seven ((7 ∷ []) ∷ [])
unfolding layout offset_of lookup sporedb.Encoding.Set.Layout.entry uint64_to_bytes
seven-Represents = record {
  laid_out = refl;
  indexed = λ e. ground arith;
  distinct = (ground arith, refl, tt);
}

-- A node that has this set under `k`
abbrev has_seven : Db demo
has_seven = record (node [] [] []) { store = (codes "k", fill 64 [] ++ seven.raw) ∷ [] }

-- The same node, asked for one element
contains_run : Server.contains demo (codes "k") (7 ∷ []) has_seven ≡ ok true
unfolding Server.contains Db.get sporedb.BoltDb.get sporedb.Tests.bucket_get lookup bytes_eq fill
    unmarshal_binary sporedb.Encoding.Uint64.bytes_to_uint64 contains sporedb.Common.insert
contains_run = refl

unmarshal_binary-ne-stuck_example : unmarshal_binary (3 ∷ (4 ∷ [])) ≢ stuck
unmarshal_binary-ne-stuck_example = unmarshal_binary-ne-stuck (3 ∷ (4 ∷ [])) (omega arith)
