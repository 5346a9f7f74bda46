-- ===== src/Myc/Transport/Paired.antt =====
-- Questions and answers between the routine of a connection and its users.
use sporedb.Common.{
  ◌≢◌, ℕ, zero, suc, ◌<◌, ◌≡◌, ◌⊎◌, refl, arith, Bool, true, false, not, ◌&&◌, ◌||◌, some, List, [],
  ◌∷◌, length, map, inl, inr, some-injective,
}
use sporedb.Myc.Transport.{
  Routine, dialing, reporting, giving_up, unbinding, watching, gone, Conn, running, reads, writes,
  is_asking, is_failing, Step, dialed, failed, asked, answered, unbound, session_opened,
  closed_elsewhere, bound, accepted, close_conn, step, run,
}

-- Does the routine owe an answer?
abbrev pub owes : Routine → Bool
owes (dialing n) = true
owes reporting = true
owes giving_up = true
owes unbinding = false
owes watching = false
owes gone = false

-- The two users never wait for an answer together; as long as nobody has closed the connection, one
-- of them waits exactly if the routine owes an answer; afterwards none waits, and none is about to ask.
pub record IsPaired (c : Conn) : Type 0 where
  pub one : (is_asking c.reader && is_asking c.writer) ≡ false
  pub owed : (is_asking c.reader || is_asking c.writer) ≡ (owes c.routine && not c.closed)
  pub calm : (c.closed && (is_failing c.reader || is_failing c.writer)) ≡ false

close_conn-IsPaired : (c c' : Conn) → IsPaired c → close_conn c ≡ running c' → IsPaired c'
unfolding close_conn
close_conn-IsPaired c c' h e = ground arith

step-IsPaired : (e : Step) (c c' : Conn) → IsPaired c → step e c ≡ some (running c') → IsPaired c'
unfolding step
step-IsPaired (dialed true) c c' h e = ground arith
step-IsPaired (dialed false) c c' h e = ground arith
step-IsPaired (failed reads) c c' h e = ground arith
step-IsPaired (failed writes) c c' h e = ground arith
step-IsPaired (asked reads) c c' h e = ground arith
step-IsPaired (asked writes) c c' h e = ground arith
step-IsPaired (answered reads) c c' h e = ground arith
step-IsPaired (answered writes) c c' h e = ground arith
step-IsPaired unbound c c' h e = ground arith
step-IsPaired session_opened c c' h e = ground arith
step-IsPaired closed_elsewhere c c' h e = close_conn-IsPaired c c' h (some-injective e)

-- The states that a connection comes to without a panic, by whatever steps
pub data Reach (start : Conn) : Conn → Type 0 where
  here : Reach start start
  next : {c c' : Conn} (e : Step) → Reach start c → step e c ≡ some (running c') → Reach start c'

bound-IsPaired : IsPaired bound
unfolding bound
bound-IsPaired = record { one = refl; owed = refl; calm = refl }

accepted-IsPaired : IsPaired accepted
unfolding accepted
accepted-IsPaired = record { one = refl; owed = refl; calm = refl }

Reach-step : (start c : Conn) → IsPaired start → Reach start c → IsPaired c
Reach-step start c h here = h
Reach-step start c h (next {c = before} {c' = after} e r s) =
    step-IsPaired e before after (Reach-step start before h r) s

-- For a connection that `Bind` or `Listen` made, in every state that comes without a panic: reader
-- and writer never wait for an answer together; while the connection is not closed, one of them
-- waits exactly if the routine is about to answer or dials for it; and once it is closed none waits
-- and none is about to send.
pub Reach-IsPaired : (c : Conn) → Reach bound c ⊎ Reach accepted c → IsPaired c
Reach-IsPaired c (inl r) = Reach-step bound c bound-IsPaired r
Reach-IsPaired c (inr r) = Reach-step accepted c accepted-IsPaired r

-- More dials in a row than there are attempts cannot happen: by then one has succeeded, or the
-- routine has given up or panicked.
pub dials-bounded :
    (bs : List Bool) (n : ℕ) (c : Conn)
    → c.routine ≡ dialing (suc n)
    → suc n < length bs
    → (c' : Conn) → run (map dialed bs) c ≢ some (running c')
unfolding run step
dials-bounded [] n c at long c' h = absurd (omega arith)
dials-bounded (true ∷ []) n c at long c' h = absurd (omega arith)
dials-bounded (true ∷ (b ∷ bs)) n c at long c' h = ground arith
dials-bounded (false ∷ []) n c at long c' h = absurd (omega arith)
dials-bounded (false ∷ (b ∷ bs)) zero c at long c' h = ground arith
dials-bounded (false ∷ (b ∷ bs)) (suc n) c at long c' h =
    ground (
      arith,
      dials-bounded (b ∷ bs) n (record c { routine = dialing (suc n) }) refl (omega arith) c',
    )
