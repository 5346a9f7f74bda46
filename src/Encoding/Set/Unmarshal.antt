-- ===== src/Encoding/Set/Unmarshal.antt =====
-- `UnmarshalBinary`: it ends, it reads back what a set has laid out, and it panics on a length that
-- is negative as an `int`.
use sporedb.Common.{
  ℕ, zero, suc, ◌+◌, ◌-◌, ◌^◌, ◌≤◌, ◌<◌, ◌≡◌, refl, ap, ◌∙◌, ◌≢◌, List, [], ◌∷◌, ◌++◌, append_assoc,
  append-nil, arith, length, length-append, take-append, drop-append, if◌then◌else◌, Bytes,
  bytes_eq_iff, GoMap, lookup, insert, lookup-insert, ok, panic, stuck, add64,
}
use sporedb.Encoding.Uint64.{
  uint64_to_bytes, bytes_to_uint64, length-uint64_to_bytes, bytes_to_uint64-uint64_to_bytes,
}
use sporedb.Encoding.Set.{GoSet, slice, unmarshal_loop, unmarshal_binary, marshal_binary}
use sporedb.Encoding.Set.Layout.{
  member, IsDistinct, Represents, layout, entry, length-entry, offset_of, is_some-offset_of,
}

-- A slice that Go can hold, with room for the sums of the loop.
abbrev pub IsInMemory : Bytes → Type 0
IsInMemory b = length b < 2 ^ 62

-- Every round moves on by eight bytes at least.
unmarshal_loop-ne-stuck :
    (fuel : ℕ) (b : Bytes) (i : ℕ) (m : GoMap ℕ)
    → IsInMemory b
    → i ≤ length b
    → length b - i < fuel
    → unmarshal_loop fuel b i m ≢ stuck
unfolding unmarshal_loop
unmarshal_loop-ne-stuck zero b i m hb hi hf = absurd (omega arith)
unmarshal_loop-ne-stuck (suc fuel) b i m hb hi hf =
    let start = add64 i 8 in
    let end' = add64 start (bytes_to_uint64 (slice b i start)) in
    ground (arith, unmarshal_loop-ne-stuck fuel b end' (insert (slice b start end') i m) hb)

-- The loop ends on every slice of fewer than 2 ^ 62 bytes: one round more than there are bytes is
-- enough.
pub unmarshal_binary-ne-stuck : (b : Bytes) → IsInMemory b → unmarshal_binary b ≢ stuck
unfolding unmarshal_binary
unmarshal_binary-ne-stuck b h = ground (arith, unmarshal_loop-ne-stuck (suc (length b)) b 0 [] h)

slice-append :
    (xs m ys : Bytes) (i j : ℕ)
    → i ≡ length xs
    → j ≡ length xs + length m
    → slice (xs ++ (m ++ ys)) i j ≡ m
slice-append xs m ys i j hi hj =
    let width : j - i ≡ length m = omega arith in
    rw (width, hi, drop-append xs (m ++ ys)) (take-append m ys)

-- One round at a record: its length is `n`, and its element `x`.
loop_round :
    (fuel : ℕ) (b : Bytes) (i n : ℕ) (x : Bytes) (m : GoMap ℕ)
    → IsInMemory b
    → i + (n + 8) ≤ length b
    → bytes_to_uint64 (slice b i (i + 8)) ≡ n
    → slice b (i + 8) (i + (n + 8)) ≡ x
    → unmarshal_loop (suc fuel) b i m ≡ unmarshal_loop fuel b (i + (n + 8)) (insert x i m)
unfolding unmarshal_loop
loop_round fuel b i n x m hb room hn hx =
    let start : add64 i 8 ≡ i + 8 = omega arith in
    let finish : add64 (i + 8) n ≡ i + (n + 8) = omega arith in
    rw (start, hn, finish, hx) (ground arith)

loop_step :
    (fuel : ℕ) (pre x rest : Bytes) (m : GoMap ℕ)
    → IsInMemory (pre ++ (entry x ++ rest))
    → unmarshal_loop (suc fuel) (pre ++ (entry x ++ rest)) (length pre) m
      ≡ unmarshal_loop fuel
          (pre ++ (entry x ++ rest))
          (length pre + (length x + 8))
          (insert x (length pre) m)
loop_step fuel pre x rest m h =
    let w = uint64_to_bytes (length x) in
    let size : length (pre ++ (entry x ++ rest)) ≡ length pre + (length x + 8 + length rest) =
      omega (
        arith,
        length-append {0} pre (entry x ++ rest),
        length-append {0} (entry x) rest,
        length-entry x,
      ) in
    let header : slice (pre ++ (entry x ++ rest)) (length pre) (length pre + 8) ≡ w =
      unfold entry in
      rw (append_assoc w x rest) (
        slice-append pre w (x ++ rest) _ _ refl
          (omega (arith, length-uint64_to_bytes (length x)))) in
    let value : bytes_to_uint64 w ≡ length x =
      rw (append-nil w) at (bytes_to_uint64-uint64_to_bytes (length x) [] (omega (arith, size))) in
    let body : slice (pre ++ (entry x ++ rest)) (length pre + 8) (length pre + (length x + 8)) ≡ x =
      unfold entry in
      rw (append_assoc w x rest, ← append_assoc pre w (x ++ rest))
        (slice-append (pre ++ w) x rest _ _
          (omega (arith, length-append {0} pre w, length-uint64_to_bytes (length x)))
          (omega (arith, length-append {0} pre w, length-uint64_to_bytes (length x)))) in
    loop_round fuel _ (length pre) (length x) x m h (omega (arith, size)) (rw header value) body

-- The map after the records of `es`, which begin at `i`, have been read.
abbrev indexed_from : List Bytes → ℕ → GoMap ℕ → GoMap ℕ
indexed_from [] i m = m
indexed_from (x ∷ es) i m = indexed_from es (i + (length x + 8)) (insert x i m)

lookup-indexed_from :
    (e : Bytes) (es : List Bytes) (i : ℕ) (m : GoMap ℕ)
    → IsDistinct es
    → lookup e (indexed_from es i m) ≡ (if member e es then offset_of e es i else lookup e m)
unfolding offset_of
lookup-indexed_from e [] i m d = refl
lookup-indexed_from e (x ∷ es) i m d = ground (
  arith,
  lookup-indexed_from e es (i + (length x + 8)) (insert x i m) d.2,
  lookup-insert x e i m,
  bytes_eq_iff x e,
)

unmarshal_loop-layout :
    (es : List Bytes) (fuel : ℕ) (pre : Bytes) (m : GoMap ℕ)
    → IsInMemory (pre ++ layout es)
    → length (layout es) < fuel
    → unmarshal_loop fuel (pre ++ layout es) (length pre) m ≡ ok (indexed_from es (length pre) m)
unmarshal_loop-layout es zero pre m h hf = absurd (omega arith)
unmarshal_loop-layout [] (suc fuel) pre m h hf =
    unfold layout unmarshal_loop in rw append-nil (ground arith)
unmarshal_loop-layout (x ∷ es) (suc fuel) pre m h hf =
    let cons : layout (x ∷ es) ≡ entry x ++ layout es = unfold layout in refl in
    let here : IsInMemory (pre ++ (entry x ++ layout es)) = rw cons at h in
    let size : length (pre ++ entry x) ≡ length pre + (length x + 8) =
      omega (arith, length-append {0} pre (entry x), length-entry x) in
    rw cons (
      loop_step fuel pre x (layout es) m here
      ∙ (rw (append_assoc pre (entry x) (layout es), size) at
          (unmarshal_loop-layout es fuel (pre ++ entry x) (insert x (length pre) m)
            (rw (append_assoc pre (entry x) (layout es)) here)
            (omega
              (arith, ap length cons, length-append {0} (entry x) (layout es), length-entry x)))))

-- Bytes that lay out distinct elements are read as the set of those elements.
pub unmarshal_binary-layout :
    (b : Bytes) (es : List Bytes)
    → b ≡ layout es
    → IsDistinct es
    → IsInMemory b
    → (s : GoSet) × (unmarshal_binary b ≡ ok s) × Represents s es
unfolding unmarshal_binary
unmarshal_binary-layout b es laid d h =
    let read : unmarshal_loop (suc (length b)) b 0 [] ≡ ok (indexed_from es 0 []) =
      rw laid
        (unmarshal_loop-layout es (suc (length (layout es))) [] [] (rw laid at h) (omega arith)) in
    (
      record { elements = indexed_from es 0 []; raw = b },
      rw (read, unmarshal_binary),
      record {
        laid_out = laid;
        indexed = λ e.
            unfold lookup in
            ground (arith, lookup-indexed_from e es 0 [] d, is_some-offset_of e es 0);
        distinct = d;
      },
    )

-- What `MarshalBinary` gives of a set of fewer than 2 ^ 62 bytes, `UnmarshalBinary` reads back as a
-- set of the same elements in the same order.
pub unmarshal_binary-marshal_binary :
    (s : GoSet) (es : List Bytes)
    → Represents s es
    → IsInMemory s.raw
    → (s' : GoSet) × (unmarshal_binary (marshal_binary s) ≡ ok s') × Represents s' es
unfolding marshal_binary
unmarshal_binary-marshal_binary s es r h = unmarshal_binary-layout s.raw es r.laid_out r.distinct h

-- A round at a length whose record would end before it starts.
loop_panics :
    (fuel : ℕ) (b : Bytes) (i u : ℕ) (m : GoMap ℕ)
    → IsInMemory b
    → i + 8 ≤ length b
    → bytes_to_uint64 (slice b i (i + 8)) ≡ u
    → 2 ^ 63 ≤ i + 8 + u
    → u < 2 ^ 64
    → unmarshal_loop (suc fuel) b i m ≡ panic
unfolding unmarshal_loop
loop_panics fuel b i u m hb room hu lo hi =
    let start : add64 i 8 ≡ i + 8 = omega arith in rw (start, hu) (ground arith)

-- A first record whose length reads as a negative `int`, or passes the largest when the eight bytes
-- before it are added, makes a slice expression panic: no error is returned.
pub unmarshal_binary-panics :
    (u : ℕ) (rest : Bytes)
    → 2 ^ 63 - 8 ≤ u
    → u < 2 ^ 64
    → IsInMemory (uint64_to_bytes u ++ rest)
    → unmarshal_binary (uint64_to_bytes u ++ rest) ≡ panic
unfolding unmarshal_binary
unmarshal_binary-panics u rest lo hi h =
    let size = length-append {0} (uint64_to_bytes u) rest in
    let header : slice (uint64_to_bytes u ++ rest) 0 8 ≡ uint64_to_bytes u =
      slice-append [] (uint64_to_bytes u) rest 0 8 refl (omega (arith, length-uint64_to_bytes u)) in
    let value : bytes_to_uint64 (uint64_to_bytes u) ≡ u =
      rw append-nil at (bytes_to_uint64-uint64_to_bytes u [] hi) in
    rw (
      loop_panics (length (uint64_to_bytes u ++ rest)) (uint64_to_bytes u ++ rest) 0 u [] h
          (omega (arith, size, length-uint64_to_bytes u)) (rw header value) (omega arith) hi,
      unmarshal_binary,
    )
