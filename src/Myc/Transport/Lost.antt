-- ===== src/Myc/Transport/Lost.antt =====
-- A connection that is lost for good.
use sporedb.Common.{
  ℕ, zero, suc, ◌≡◌, refl, arith, Bool, true, false, ◌⊎◌, inl, inr, Option, none, some, List, [],
  ◌∷◌, ◌++◌, subst, sym,
}
use sporedb.Myc.Transport.{
  User, idle, failing, asking, Routine, dialing, giving_up, watching, Conn, Outcome, crashed,
  running, unbinding, gone, close_conn, session_opened, closed_elsewhere, Side, reads, writes, user,
  set_user, Step, dialed, failed, asked, answered, unbound, later_attempts, step, run,
}

-- So many dials that fail
abbrev pub dials_fail : ℕ → List Step
dials_fail zero = []
dials_fail (suc n) = dialed false ∷ dials_fail n

-- A connection that nobody has closed
abbrev open_conn : Routine → User → User → Bool → Bool → Conn
open_conn routine reader writer dials opened = record {
  routine = routine;
  reader = reader;
  writer = writer;
  closed = false;
  dials = dials;
  opened = opened;
}

run-dials_fail :
    (n : ℕ) (es : List Step) (reader writer : User) (opened : Bool)
    → run (dials_fail (suc n) ++ es) (open_conn (dialing (suc n)) reader writer true opened)
      ≡ run es (open_conn giving_up reader writer true opened)
unfolding run step
run-dials_fail zero es reader writer opened = refl
run-dials_fail (suc n) es reader writer opened = run-dials_fail n es reader writer opened

-- The side has an error, no dial succeeds, the side has the answer, and has an error again.
abbrev pub losing : Side → Bool → List Step
losing s true = failed s ∷ (asked s ∷ (dials_fail later_attempts ++ (answered s ∷ (failed s ∷ []))))
losing s false = failed s ∷ (asked s ∷ (answered s ∷ (failed s ∷ [])))

-- The routine has given up and is about to take the peer off, while a side sends it an error.
abbrev pub doomed : Side → Bool → User → Conn
doomed s dials other = set_user s failing (open_conn unbinding other other dials true)

losing-doomed :
    (s : Side) (dials : Bool) (other : User)
    → run (losing s dials) (set_user s idle (open_conn watching other other dials true))
      ≡ some (running (doomed s dials other))
unfolding run step
losing-doomed reads true idle = refl
losing-doomed reads true failing = refl
losing-doomed reads true asking = refl
losing-doomed reads false idle = refl
losing-doomed reads false failing = refl
losing-doomed reads false asking = refl
losing-doomed writes true idle = refl
losing-doomed writes true failing = refl
losing-doomed writes true asking = refl
losing-doomed writes false idle = refl
losing-doomed writes false failing = refl
losing-doomed writes false asking = refl

-- The same, by its parts
abbrev pub IsDoomed : Side → Conn → Type 0
IsDoomed s c =
    (c.routine ≡ unbinding) × (user s c ≡ failing) × (c.closed ≡ false) × (c.opened ≡ true)

doomed-IsDoomed : (s : Side) (dials : Bool) (other : User) → IsDoomed s (doomed s dials other)
doomed-IsDoomed reads dials other = (refl, refl, refl, refl)
doomed-IsDoomed writes dials other = (refl, refl, refl, refl)

close_conn-crashes :
    (s : Side) (c : Conn) → user s c ≡ failing → c.closed ≡ false → close_conn c ≡ crashed
unfolding close_conn
close_conn-crashes reads c f live = ground (arith, f, live)
close_conn-crashes writes c f live = ground (arith, f, live)

-- A step of a doomed connection is a panic, or leaves it doomed.
step-IsDoomed :
    (s : Side) (e : Step) (c c1 : Conn)
    → IsDoomed s c
    → step e c ≡ some (running c1)
    → IsDoomed s c1
unfolding step
step-IsDoomed s (dialed b) c c1 h e = let z = rw (h.0, step) at e in cc
step-IsDoomed reads (failed reads) c c1 h e = ground (arith, h, e)
step-IsDoomed reads (failed writes) c c1 h e = ground (arith, h, e)
step-IsDoomed writes (failed reads) c c1 h e = ground (arith, h, e)
step-IsDoomed writes (failed writes) c c1 h e = ground (arith, h, e)
step-IsDoomed s (asked reads) c c1 h e = ground (arith, h, e)
step-IsDoomed s (asked writes) c c1 h e = ground (arith, h, e)
step-IsDoomed s (answered reads) c c1 h e = ground (arith, h, e)
step-IsDoomed s (answered writes) c c1 h e = ground (arith, h, e)
step-IsDoomed reads unbound c c1 h e =
    ground (arith, h, e, close_conn-crashes reads (record c { routine = gone }) h.1 h.2)
step-IsDoomed writes unbound c c1 h e =
    ground (arith, h, e, close_conn-crashes writes (record c { routine = gone }) h.1 h.2)
step-IsDoomed reads session_opened c c1 h e = ground (arith, h, e)
step-IsDoomed writes session_opened c c1 h e = ground (arith, h, e)
step-IsDoomed s closed_elsewhere c c1 h e = ground (arith, h, e, close_conn-crashes s c h.1 h.2)

outcome_cases :
    (o : Option Outcome) → (o ≡ none) ⊎ (o ≡ some crashed) ⊎ ((c : Conn) × (o ≡ some (running c)))
outcome_cases none = inl refl
outcome_cases (some crashed) = inr (inl refl)
outcome_cases (some (running c)) = inr (inr (c, refl))

run-IsDoomed :
    (s : Side) (es : List Step) (c c1 : Conn)
    → IsDoomed s c
    → run es c ≡ some (running c1)
    → IsDoomed s c1
unfolding run
run-IsDoomed s [] c c1 h e = ground (arith, h, e)
run-IsDoomed s (x ∷ es) c c1 h e = elim (outcome_cases (step x c)) [
  | inl y ↦ let z = rw (y, run) at e in cc
  | inr (inl y) ↦ let z = rw (y, run) at e in cc
  | inr (inr (c2, y)) ↦ run-IsDoomed s es c2 c1 (step-IsDoomed s x c c2 h y) (rw (y, run) at e)
]

unbound-crashes : (s : Side) (c : Conn) → IsDoomed s c → step unbound c ≡ some crashed
unfolding step
unbound-crashes reads c h =
    ground (arith, h, close_conn-crashes reads (record c { routine = gone }) h.1 h.2)
unbound-crashes writes c h =
    ground (arith, h, close_conn-crashes writes (record c { routine = gone }) h.1 h.2)

other_user : Side → Conn → User
other_user reads c = c.writer
other_user writes c = c.reader

same_conn :
    (s : Side) (c : Conn)
    → c.routine ≡ watching
    → user s c ≡ idle
    → c.closed ≡ false
    → c.opened ≡ true
    → c ≡ set_user s idle (open_conn watching (other_user s c) (other_user s c) c.dials true)
unfolding other_user
same_conn reads c at free live opened = ground arith
same_conn writes c at free live opened = ground arith

-- A connection whose session is open and that works, whether it was dialed or accepted. It is lost,
-- every attempt to dial again fails, and the routine that noticed, which gets the answer, has an
-- error again before the peer is taken off, while the other routine of the peer takes no step so
-- far: this can happen. From then on, whatever both routines, the network and anyone else do, in any
-- order, the peer is still to be taken off as long as the node runs, and taking it off panics,
-- whenever that happens.
pub losing-crashes :
    (s : Side) (c : Conn)
    → c.routine ≡ watching
    → user s c ≡ idle
    → c.closed ≡ false
    → c.opened ≡ true
    → (c1 : Conn) × (run (losing s c.dials) c ≡ some (running c1))
      × ((es : List Step) (c2 : Conn)
          → run es c1 ≡ some (running c2)
          → (c2.routine ≡ unbinding) × (step unbound c2 ≡ some crashed))
losing-crashes s c at free live opened =
    let other = other_user s c in
    (
      doomed s c.dials other,
      subst (λ x. run (losing s c.dials) x ≡ some (running (doomed s c.dials other)))
          (sym (same_conn s c at free live opened)) (losing-doomed s c.dials other),
      λ es c2 e.
          let h = run-IsDoomed s es _ c2 (doomed-IsDoomed s c.dials other) e in
          (h.0, unbound-crashes s c2 h),
    )
