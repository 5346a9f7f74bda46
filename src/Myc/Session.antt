-- ===== src/Myc/Session.antt =====
-- myc/protocol/ecdhe.go: a session between two nodes, with a key that they agree on and whose
-- messages of greeting the key ring verifies.
pub mod Greeting
pub mod Channel
pub mod Handshake
use sporedb.Common.{
  ℕ, ◌+◌, ◌-◌, ◌%◌, int_ltb, sub64, ◌==◌, Bool, true, false, not, Option, none, some, List, [], ◌∷◌,
  ◌++◌, length, Bytes, Result, Error, ok, err, panic, stuck, if◌then◌else◌, invalid_signature,
  old_timestamp, invalid_session_key,
}
use sporedb.Version.{zeros}
use sporedb.World.{KeyRing}

-- `Hello`; the time is in seconds, the pattern of an int64.
pub record Hello : Type 0 where
  pub version : ℕ
  pub identity : Bytes
  pub seconds : ℕ
  pub public_key : Bytes
  pub signature : Bytes

-- The packages curve25519, and crypto/aes with crypto/cipher: the bytes of a stream in counter mode
-- from an offset on. The text of a greeting, which protobuf makes.
pub record SessionCrypto : Type 0 where
  pub base_mult : Bytes → Bytes
  pub mult : Bytes → Bytes → Bytes
  pub xor_key_stream : Bytes → Bytes → ℕ → Bytes → Bytes
  pub marshal_hello : Hello → Result Bytes

-- A stream in one direction: its key and its first block, and how far it is.
pub record Stream : Type 0 where
  pub key : Bytes
  pub iv : Bytes
  pub offset : ℕ

-- `ecdhe`
pub record Session : Type 0 where
  pub reader : Option Stream
  pub writer : Option Stream
  pub identity : Bytes
  pub self_private : Bytes
  pub self_public : Bytes
  pub peer_public : Bytes
  pub trusted : Bool

-- `NewECDHESession`
unfoldable pub new_session : Bytes → Session
new_session identity = record {
  reader = none;
  writer = none;
  identity = identity;
  self_private = zeros 32;
  self_public = zeros 32;
  peer_public = zeros 32;
  trusted = false;
}

-- The last byte of a private key: its highest bit is cleared and the one below it is set.
unfoldable pub clamp_last : Bytes → Bytes
clamp_last [] = []
clamp_last (x ∷ []) = (x % 64 + 64) ∷ []
clamp_last (x ∷ (y ∷ b)) = x ∷ clamp_last (y ∷ b)

-- The bytes of a private key, given random ones
unfoldable pub clamp : Bytes → Bytes
unfolding clamp_last
clamp [] = []
clamp (x ∷ b) = clamp_last ((x - x % 8) ∷ b)

-- `err == sec.ErrInvalidSignature`
abbrev pub is_invalid_signature : Error → Bool
is_invalid_signature invalid_signature = true
is_invalid_signature _ = false

abbrev pub protocol_version : ℕ
protocol_version = 1

module _ {K : Type 0} (c : SessionCrypto) (keys : KeyRing K) where
  -- `Hello`, given the random bytes: the session, the greeting and the error. A greeting that cannot
  -- be signed is returned beside the error.
  unfoldable pub hello : ℕ → Result Bytes → K → Session → Session × Option Hello × Result (Unit {0})
  unfolding clamp
  hello now random k s = elim random [
    | ok bytes ↦
        let s1 = record s { self_private = clamp bytes; self_public = c.base_mult (clamp bytes) } in
        let h : Hello = record {
          version = protocol_version;
          identity = s.identity;
          seconds = now;
          public_key = s1.self_public;
          signature = [];
        } in
        elim (c.marshal_hello h) [
          | ok raw ↦ elim (keys.sign k raw) [
            | ok signature ↦ (s1, some (record h { signature = signature }), ok tt)
            | err e ↦ (s1, some h, err e)
            | panic ↦ (s1, none, panic)
            | stuck ↦ (s1, none, stuck)
          ]
          | err e ↦ (s1, none, err e)
          | panic ↦ (s1, none, panic)
          | stuck ↦ (s1, none, stuck)
        ]
    | err e ↦ (s, none, err e)
    | panic ↦ (s, none, panic)
    | stuck ↦ (s, none, stuck)
  ]

  -- The end of `Verify`, given what the key ring says
  unfoldable pub accept : Hello → Result (Unit {0}) → Session → Session × Result (Unit {0})
  accept h (ok _) s = (record s { trusted = true; peer_public = h.public_key }, ok tt)
  accept h (err e) s =
      if is_invalid_signature e
      then (s, err e)
      else (record s { peer_public = h.public_key }, ok tt)
  accept h panic s = (s, panic)
  accept h stuck s = (s, stuck)

  -- `Verify`
  unfoldable pub verify : ℕ → Option Hello → K → Session → Session × Result (Unit {0})
  unfolding accept
  verify now none k s = (s, err invalid_session_key)
  verify now (some h) k s =
      if not (length h.public_key == 32)
      then (s, err invalid_session_key)
      else if int_ltb h.seconds (sub64 now 30)
      then (s, err old_timestamp)
      else elim (c.marshal_hello (record h { signature = [] })) [
        | ok raw ↦ accept h (keys.verify k h.identity raw h.signature) s
        | err e ↦ (s, err e)
        | panic ↦ (s, panic)
        | stuck ↦ (s, stuck)
      ]

-- The stream that `Open` starts, in either direction
abbrev pub opened : SessionCrypto → Session → Stream
opened c s = record { key = c.mult s.self_private s.peer_public; iv = zeros 16; offset = 0 }

-- `Open`
unfoldable pub open_session : SessionCrypto → Session → Session
open_session c s = record s { reader = some (opened c s); writer = some (opened c s) }

-- What a stream makes of bytes, and the stream after them
abbrev pub run_stream : SessionCrypto → Stream → Bytes → Stream × Bytes
run_stream c t b =
    (record t { offset = t.offset + length b }, c.xor_key_stream t.key t.iv t.offset b)

-- `Write` of the embedded `StreamWriter`: what goes to the transport. Before `Open` it is a nil
-- pointer.
unfoldable pub write : SessionCrypto → Bytes → Session → Session × Result Bytes
write c b s = elim s.writer [
  | none ↦ (s, panic)
  | some t ↦ let (t1, sent) = run_stream c t b in (record s { writer = some t1 }, ok sent)
]

-- `Read` of the embedded `StreamReader`, given what the transport has
unfoldable pub read : SessionCrypto → Bytes → Session → Session × Result Bytes
read c b s = elim s.reader [
  | none ↦ (s, panic)
  | some t ↦ let (t1, got) = run_stream c t b in (record s { reader = some t1 }, ok got)
]
