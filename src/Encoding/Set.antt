-- ===== src/Encoding/Set.antt =====
-- db/encoding/set.go: a set of byte strings, kept as the bytes that are stored and a map from each
-- element to the place of its record in them. A record is the element's length, then the element.
pub mod Layout
pub mod Insert
pub mod Remove
pub mod Unmarshal
use sporedb.Common.{
  ℕ, zero, suc, ◌+◌, ◌-◌, Bool, true, false, none, some, [], ◌++◌, ltb, length, take, drop,
  if◌then◌else◌, is_some, Bytes, GoMap, lookup, insert, erase, map_values, add64, int_ltb, Result,
  ok, err, panic, stuck, empty_element, unexpected_eof, ◌==◌,
}
use sporedb.Encoding.Uint64.{uint64_to_bytes, bytes_to_uint64}

pub record GoSet : Type 0 where
  pub elements : GoMap ℕ
  pub raw : Bytes

-- A `nil` slice is the empty one: `MarshalBinary` turns the first into the second.
unfoldable pub new_set : GoSet
new_set = record { elements = []; raw = [] }

unfoldable pub contains : Bytes → GoSet → Bool
contains element s = if length element == 0 then false else is_some (lookup element s.elements)

-- The result is `inserted`, with the set after the call.
unfoldable pub add : Bytes → GoSet → Result (Bool × GoSet)
add element s =
    if length element == 0
    then err empty_element
    else if is_some (lookup element s.elements)
    then ok (false, s)
    else ok (
      true,
      record {
        elements = insert element (length s.raw) s.elements;
        raw = s.raw ++ (uint64_to_bytes (length element) ++ element);
      },
    )

-- `append(s.raw[:p], s.raw[l+p:]...)`, and the offsets behind `p` moved down by `l`.
unfoldable pub cut_out : Bytes → ℕ → ℕ → GoSet → GoSet
cut_out element p l s = record {
  elements = map_values (λ n. if ltb p n then n - l else n) (erase element s.elements);
  raw = take p s.raw ++ drop (l + p) s.raw;
}

-- The slice expression panics if it reaches behind the end.
unfoldable pub remove : Bytes → GoSet → Result (Bool × GoSet)
unfolding cut_out
remove element s =
    let l = length element + 8 in
    if length element == 0 then err empty_element else elim (lookup element s.elements) [
      | none ↦ ok (false, s)
      | some p ↦ if ltb (length s.raw) (l + p) then panic else ok (true, cut_out element p l s)
    ]

unfoldable pub marshal_binary : GoSet → Bytes
marshal_binary s = s.raw

-- `data[i:j]`
abbrev pub slice : Bytes → ℕ → ℕ → Bytes
slice data' i j = take (j - i) (drop i data')

-- The loop of `UnmarshalBinary` at index `i`. Every sum is one of `int`s, and wraps; a slice
-- expression whose end lies before its start panics.
unfoldable pub unmarshal_loop : ℕ → Bytes → ℕ → GoMap ℕ → Result (GoMap ℕ)
unmarshal_loop zero data' i m = stuck
unmarshal_loop (suc fuel) data' i m =
    let start = add64 i 8 in
    let end' = add64 start (bytes_to_uint64 (slice data' i start)) in
    let rest = unmarshal_loop fuel data' end' (insert (slice data' start end') i m) in
    if int_ltb i (length data')
    then if int_ltb (length data') start
      then err unexpected_eof
      else if int_ltb (length data') end'
      then err unexpected_eof
      else if int_ltb end' start
      then panic
      else rest
    else ok m

-- On an error the callers drop the set.
unfoldable pub unmarshal_binary : Bytes → Result GoSet
unfolding unmarshal_loop
unmarshal_binary data' = elim (unmarshal_loop (suc (length data')) data' 0 []) [
  | ok m ↦ ok (record { elements = m; raw = data' })
  | err e ↦ err e
  | panic ↦ panic
  | stuck ↦ stuck
]
