-- ===== src/Myc/Session/Handshake.antt =====
-- The handshake of a client and a server, as `Bind` and `handler` of myc/mycelium.go do it.
use sporedb.Common.{
  ℕ, ◌≡◌, arith, some, List, [], Bytes, Result, Result-cases, ok, ap, sym, ◌∙◌, inl, inr,
}
use sporedb.World.{KeyRing}
use sporedb.Myc.Session.{Hello, SessionCrypto, Session, accept, hello, verify, open_session}
use sporedb.Myc.Session.Channel.{SessionLaws, write_all, read_all, open_session-delivers}

module _ {K : Type 0} (c : SessionCrypto) (keys : KeyRing K) where
  hello-public :
      (now : ℕ) (random : Result Bytes) (k : K) (s : Session) (h : Hello)
      → (hello c keys now random k s).1 ≡ some h
      → let s1 = (hello c keys now random k s).0 in
        (s1.self_public ≡ c.base_mult s1.self_private)
        × (h.public_key ≡ s1.self_public)
        × (s1.peer_public ≡ s.peer_public)
  unfolding hello
  hello-public now random k s h e = ground arith

  accept-public :
      (h : Hello) (r : Result (Unit {0})) (s : Session)
      → (accept c keys h r s).1 ≡ ok tt
      → let s1 = (accept c keys h r s).0 in
        (s1.peer_public ≡ h.public_key)
        × (s1.self_public ≡ s.self_public)
        × (s1.self_private ≡ s.self_private)
  unfolding accept
  accept-public h r s e = ground arith

  verify-public :
      (now : ℕ) (h : Hello) (k : K) (s : Session)
      → (verify c keys now (some h) k s).1 ≡ ok tt
      → let s1 = (verify c keys now (some h) k s).0 in
        (s1.peer_public ≡ h.public_key)
        × (s1.self_public ≡ s.self_public)
        × (s1.self_private ≡ s.self_private)
  unfolding verify
  verify-public now h k s e = elim (Result-cases (c.marshal_hello (record h { signature = [] }))) [
    | inl (raw, z) ↦ ground (arith, z, accept-public h (keys.verify k h.identity raw h.signature) s)
    | inr (inl (x, z)) ↦ ground (arith, z)
    | inr (inr (inl z)) ↦ ground (arith, z)
    | inr (inr (inr z)) ↦ ground (arith, z)
  ]

  -- The client greets, the server verifies the greeting and greets back, and the client verifies that.
  abbrev client_greeted : ℕ → Result Bytes → K → Session → Session
  client_greeted now random k a = (hello c keys now random k a).0

  abbrev server_done : ℕ → Hello → Result Bytes → K → Session → Session
  server_done now ha random k b = (hello c keys now random k (verify c keys now (some ha) k b).0).0

  abbrev client_done : ℕ → ℕ → Result Bytes → Hello → K → Session → Session
  client_done now later random hb k a =
      (verify c keys later (some hb) k (client_greeted now random k a)).0

  -- A client and a server whose greetings reach each other, and which do not refuse them: after `Open` each of
  -- them reads the messages that the other writes, in their order.
  pub handshake-delivers :
      (n1 n2 n3 : ℕ) (ra rb : Result Bytes) (ka kb : K) (a b : Session) (ha hb : Hello)
      (bs cs : List Bytes)
      → SessionLaws c
      → (hello c keys n1 ra ka a).1 ≡ some ha
      → (verify c keys n2 (some ha) kb b).1 ≡ ok tt
      → (hello c keys n2 rb kb (verify c keys n2 (some ha) kb b).0).1 ≡ some hb
      → (verify c keys n3 (some hb) ka (client_greeted n1 ra ka a)).1 ≡ ok tt
      → let client = open_session c (client_done n1 n3 ra hb ka a) in
        let server = open_session c (server_done n2 ha rb kb b) in
        ((sent : List Bytes) × (write_all c bs client ≡ ok sent) × (read_all c sent server ≡ ok bs))
        × ((sent : List Bytes) × (write_all c cs server ≡ ok sent)
            × (read_all c sent client ≡ ok cs))
  handshake-delivers n1 n2 n3 ra rb ka kb a b ha hb bs cs laws ga va gb vb =
      let (pa, sa, _) = hello-public n1 ra ka a ha ga in
      let (qb, _, _) = verify-public n2 ha kb b va in
      let (pb, sb, kept) = hello-public n2 rb kb (verify c keys n2 (some ha) kb b).0 hb gb in
      let (qa, same, own) = verify-public n3 hb ka (client_greeted n1 ra ka a) vb in
      let client = client_done n1 n3 ra hb ka a in
      let server = server_done n2 ha rb kb b in
      let made_a : client.self_public ≡ c.base_mult client.self_private =
        same ∙ (pa ∙ ap c.base_mult (sym own)) in
      let has_b : client.peer_public ≡ server.self_public = qa ∙ sb in
      let has_a : server.peer_public ≡ client.self_public = kept ∙ (qb ∙ (sa ∙ sym same)) in
      (
        open_session-delivers c bs client server laws made_a pb has_b has_a,
        open_session-delivers c cs server client laws pb made_a has_a has_b,
      )
