-- ===== src/Myc/Session/Channel.antt =====
-- What two sessions that have greeted each other read of what they write.
use sporedb.Common.{
  ℕ, ◌+◌, ◌≡◌, refl, some, List, [], ◌∷◌, length, Bytes, Result, ok, ◌>>=◌, ap, sym, ◌∙◌,
}
use sporedb.Version.{zeros}
use sporedb.Myc.Session.{
  SessionCrypto, Session, Stream, opened, open_session, run_stream, write, read,
}

-- What the packages document: the shared key is the same on both sides, and a stream in counter mode is
-- its own inverse and keeps the length.
pub record SessionLaws (c : SessionCrypto) : Type 0 where
  pub mult_comm : (a b : Bytes) → c.mult a (c.base_mult b) ≡ c.mult b (c.base_mult a)
  pub involutive :
      (k iv : Bytes) (o : ℕ) (b : Bytes) → c.xor_key_stream k iv o (c.xor_key_stream k iv o b) ≡ b
  pub length-xor_key_stream :
      (k iv : Bytes) (o : ℕ) (b : Bytes) → length (c.xor_key_stream k iv o b) ≡ length b

-- The messages are written one after the other.
abbrev pub write_all : SessionCrypto → List Bytes → Session → Result (List Bytes)
write_all c [] s = ok []
write_all c (b ∷ bs) s = do
  sent ← (write c b s).1
  rest ← write_all c bs (write c b s).0
  ok (sent ∷ rest)

abbrev pub read_all : SessionCrypto → List Bytes → Session → Result (List Bytes)
read_all c [] s = ok []
read_all c (b ∷ bs) s = do
  got ← (read c b s).1
  rest ← read_all c bs (read c b s).0
  ok (got ∷ rest)

-- A message through a stream, and back through one at the same place: the streams are at one place
-- again.
write-next :
    (c : SessionCrypto) (t : Stream) (x : Bytes) (a : Session)
    → a.writer ≡ some t
    → ((write c x a).1 ≡ ok (run_stream c t x).1)
      × ((write c x a).0.writer ≡ some (run_stream c t x).0)
unfolding write
write-next c t x a e = rw (e, write) (refl, refl)

read-next :
    (c : SessionCrypto) (laws : SessionLaws c) (t : Stream) (x : Bytes) (b : Session)
    → b.reader ≡ some t
    → ((read c (run_stream c t x).1 b).1 ≡ ok x)
      × ((read c (run_stream c t x).1 b).0.reader ≡ some (run_stream c t x).0)
unfolding read
read-next c laws t x b e =
    rw (e, read)
      (
        ap ok (laws.involutive t.key t.iv t.offset x),
        ap (λ n. some (record t { offset = t.offset + n }))
            (laws.length-xor_key_stream t.key t.iv t.offset x),
      )

read_all-write_all :
    (c : SessionCrypto) (laws : SessionLaws c) (t : Stream) (bs : List Bytes) (a b : Session)
    → a.writer ≡ some t
    → b.reader ≡ some t
    → (sent : List Bytes) × (write_all c bs a ≡ ok sent) × (read_all c sent b ≡ ok bs)
read_all-write_all c laws t [] a b ea eb = ([], refl, refl)
read_all-write_all c laws t (x ∷ bs) a b ea eb =
    let (wrote, wa) = write-next c t x a ea in
    let (got, rb) = read-next c laws t x b eb in
    let (sent, ws, rs) =
      read_all-write_all c laws (run_stream c t x).0 bs (write c x a).0
        (read c (run_stream c t x).1 b).0 wa rb in
    ((run_stream c t x).1 ∷ sent, rw (wrote, ws) refl, rw (got, rs) refl)

-- Two sessions, each with the other's public key of a pair that it made: whatever messages one of
-- them writes after `Open`, the other reads, in their order.
pub open_session-delivers :
    (c : SessionCrypto) (bs : List Bytes) (a b : Session)
    → SessionLaws c
    → a.self_public ≡ c.base_mult a.self_private
    → b.self_public ≡ c.base_mult b.self_private
    → a.peer_public ≡ b.self_public
    → b.peer_public ≡ a.self_public
    → (sent : List Bytes) × (write_all c bs (open_session c a) ≡ ok sent)
      × (read_all c sent (open_session c b) ≡ ok bs)
unfolding open_session
open_session-delivers c bs a b laws pa pb qa qb =
    read_all-write_all c laws (opened c a) bs (open_session c a) (open_session c b) refl (
      ap (λ k. some (record { key = k; iv = zeros 16; offset = 0 }))
        (ap (c.mult b.self_private) (qb ∙ pa)
          ∙ (laws.mult_comm b.self_private a.self_private
              ∙ sym (ap (c.mult a.self_private) (qa ∙ pb)))))

-- The two directions have one key and one first block: what a session writes after `Open`, it takes
-- for the messages of its peer when it is sent back.
pub open_session-reflects :
    (c : SessionCrypto) (bs : List Bytes) (a : Session)
    → SessionLaws c
    → (sent : List Bytes) × (write_all c bs (open_session c a) ≡ ok sent)
      × (read_all c sent (open_session c a) ≡ ok bs)
unfolding open_session
open_session-reflects c bs a laws =
    read_all-write_all c laws (opened c a) bs (open_session c a) (open_session c a) refl refl
