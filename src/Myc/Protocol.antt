-- ===== src/Myc/Protocol.antt =====
-- myc/protocol/protocol.go: how a call stands on the wire: the function, the length of the message
-- and the message.
use sporedb.Common.{
  ℕ, zero, suc, ◌+◌, ◌-◌, ◌*◌, ◌/◌, ◌%◌, ◌^◌, ◌≤◌, ◌<◌, ◌≡◌, Bool-cases, inl, inr, arith, Bool,
  true, false, ◌&&◌, ◌||◌, ◌==◌, ltb, leb, [], ◌∷◌, ◌++◌, append_assoc, Bytes, length,
  length-append, take, drop, take-append, drop-append, Result, ok, err, ◌>>=◌, external,
  if◌then◌else◌,
}
use native.Mathlib.Nat.{pow-suc}

-- `fnTypes`: the functions from `FnHELLO`, 1, to `FnCATALOG`, 8, have a type of messages.
unfoldable pub has_type : ℕ → Bool
has_type f = ltb 0 f && leb f 8

-- `binary.PutUvarint`; ten bytes are enough for 64 bits.
unfoldable pub put_uvarint : ℕ → ℕ → Bytes
put_uvarint zero x = []
put_uvarint (suc fuel) x =
    if ltb x 128 then x ∷ [] else (x % 128 + 128) ∷ put_uvarint fuel (x / 128)

-- `binary.ReadUvarint` from the byte at `i` on: the number, and what is left of the stream.
unfoldable pub read_uvarint : ℕ → Bytes → Result (ℕ × Bytes)
read_uvarint i [] = err (external 4)
read_uvarint i (b ∷ s) =
    let rest = read_uvarint (suc i) s in
    if ltb b 128
    then if ltb 9 i || (i == 9 && ltb 1 b) then err (external 5) else ok (b, s)
    else rest >>= λ (v, s1). ok (b - 128 + 128 * v, s1)

-- `Call`, over the messages
pub record Call (M : Type 0) : Type 0 where
  pub f : ℕ
  pub m : M

-- The package protobuf, on the messages that a function names.
pub record Wire (M : Type 0) : Type 0 where
  pub marshal : M → Result Bytes
  pub unmarshal : ℕ → Bytes → Result M

module _ {M : Type 0} (wire : Wire M) where
  -- `Call.Pack`
  unfoldable pub pack : Call M → Result Bytes
  unfolding put_uvarint
  pack c = wire.marshal c.m >>= λ raw. ok (c.f ∷ (put_uvarint 10 (length raw) ++ raw))

  -- The end of `Call.Unpack`, at a length
  unfoldable pub unpack_data : ℕ → ℕ × Bytes → Result (Call M × Bytes)
  unpack_data f (l, s) =
      if ltb (2 ^ 30) l
      then err (external 6)
      else if ltb (length s) l
      then err (external 7)
      else wire.unmarshal f (take l s) >>= λ m. ok (record { f = f; m = m }, drop l s)

  -- `Call.Unpack`: the call, and what is left of the stream.
  unfoldable pub unpack : Bytes → Result (Call M × Bytes)
  unfolding has_type read_uvarint unpack_data
  unpack [] = err (external 4)
  unpack (b ∷ s) =
      if has_type b then (read_uvarint 0 s >>= λ l. unpack_data b l) else err (external 8)

-- A number of `suc k` digits to the base 128, read at a byte from which on no overflow is possible.
read_uvarint-put_uvarint :
    (k fuel i x : ℕ) (rest : Bytes)
    → x < 128 ^ suc k
    → k < fuel
    → k + i ≤ 8
    → read_uvarint i (put_uvarint fuel x ++ rest) ≡ ok (x, rest)
unfolding read_uvarint put_uvarint
read_uvarint-put_uvarint k zero i x rest small enough room = absurd (omega arith)
read_uvarint-put_uvarint zero (suc fuel) i x rest small enough room =
    let one_byte : x < 128 = omega (arith, pow-suc 128 0) in ground arith
read_uvarint-put_uvarint (suc k) (suc fuel) i x rest small enough room =
    elim (Bool-cases (ltb x 128)) [
      | inl one_byte ↦ rw one_byte (ground (arith, one_byte))
      | inr more ↦
          let onward =
            read_uvarint-put_uvarint k fuel (suc i) (x / 128) rest
              (omega (arith, pow-suc 128 (suc k))) (omega arith) (omega arith) in
          rw more (ground (arith, onward))
    ]

module _ {M : Type 0} (wire : Wire M) where
  unpack_data-append :
      (c : Call M) (raw rest : Bytes)
      → wire.unmarshal c.f raw ≡ ok c.m
      → length raw ≤ 2 ^ 30
      → unpack_data wire c.f (length raw, raw ++ rest) ≡ ok (c, rest)
  unfolding unpack_data
  unpack_data-append c raw rest read small =
      let fits : ltb (2 ^ 30) (length raw) ≡ false = ground (arith, small) in
      let whole : ltb (length (raw ++ rest)) (length raw) ≡ false =
        ground (arith, length-append {0} raw rest) in
      rw (fits, whole, take-append raw rest, read, drop-append raw rest)

  -- A call of a known function, whose message has at most 2 ^ 30 bytes and is read back by protobuf
  -- as it was, is read back by `Unpack` from what `Pack` makes of it, whatever follows on the stream,
  -- and nothing of what follows is read.
  pub unpack-pack :
      (c : Call M) (raw rest : Bytes)
      → has_type c.f ≡ true
      → wire.marshal c.m ≡ ok raw
      → wire.unmarshal c.f raw ≡ ok c.m
      → length raw ≤ 2 ^ 30
      → (packed : Bytes) × (pack wire c ≡ ok packed) × (unpack wire (packed ++ rest) ≡ ok (c, rest))
  unpack-pack c raw rest known marshalled read small =
      let size = put_uvarint 10 (length raw) in
      let header =
        read_uvarint-put_uvarint 4 10 0 (length raw) (raw ++ rest) (omega arith) (omega arith)
          (omega arith) in
      (
        c.f ∷ (size ++ raw),
        (unfold pack in rw marshalled),
        (unfold unpack in
            rw (known, append_assoc size raw rest, header)
              (unpack_data-append c raw rest read small)),
      )
