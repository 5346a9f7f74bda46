-- ===== src/Tests/Transports.antt =====
-- A connection that comes and goes.
use sporedb.Common.{◌≡◌, ◌≢◌, refl, arith, true, false, some, List, [], ◌∷◌, map, inl}
use sporedb.Myc.Transport.{
  Conn, Step, unbinding, unbound, idle, watching, dialing, reporting, running, crashed, reads,
  dialed, bound, step, run,
}
use sporedb.Myc.Transport.Lost.{losing, losing-crashes}
use sporedb.Myc.Transport.Paired.{IsPaired, here, next, Reach-IsPaired, dials-bounded}

-- A connection that works, of a peer whose session is open
abbrev working : Conn
working = record {
  routine = watching;
  reader = idle;
  writer = idle;
  closed = false;
  dials = true;
  opened = true;
}

losing-crashes_example :
    (c1 : Conn) × (run (losing reads true) working ≡ some (running c1))
    × ((es : List Step) (c2 : Conn)
        → run es c1 ≡ some (running c2)
        → (c2.routine ≡ unbinding) × (step unbound c2 ≡ some crashed))
losing-crashes_example = losing-crashes reads working refl refl refl refl

-- The first connection fails once, and then is made.
abbrev made : Conn
made = record bound { routine = reporting }

Reach-IsPaired_example : IsPaired made
unfolding bound step
Reach-IsPaired_example = Reach-IsPaired made (
    inl (
      next {c = record bound { routine = dialing 2 }} (dialed true) (next (dialed false) here refl)
        refl))

dials-bounded_example :
    run (map dialed (false ∷ (false ∷ (true ∷ (true ∷ []))))) bound ≢ some (running bound)
unfolding bound
dials-bounded_example =
    dials-bounded (false ∷ (false ∷ (true ∷ (true ∷ [])))) 2 bound refl (omega arith) bound
