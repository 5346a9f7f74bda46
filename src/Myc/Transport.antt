-- ===== src/Myc/Transport.antt =====
-- myc/transport_tcp.go: a connection, the routine that dials or watches it, and the two routines of a
-- peer that use it, one by reading (`router`) and one by writing (`emitter`). The channels have no
-- buffer, so that a send and a receive are one step; a send on a closed channel is a panic, which
-- ends the node.
pub mod Lost
pub mod Paired
use sporedb.Common.{
  ℕ, zero, suc, ◌==◌, Bool, true, false, not, ◌&&◌, ◌||◌, Option, none, some, List, [], ◌∷◌,
  if◌then◌else◌,
}

-- Where `Read` or `Write` is: not in an error, about to send it on `errChan`, or receiving from `connChan`.
pub data User : Type 0 where
  idle failing asking : User

-- Where `connect` is, or the watch routine of `Listen`: dialing with some attempts left; sending on `connChan`
-- and going on afterwards, or giving up afterwards; calling `unbindFn` or `hook`; receiving from
-- `errChan`; or gone.
pub data Routine : Type 0 where
  dialing : ℕ → Routine
  reporting giving_up unbinding watching gone : Routine

-- `connTCP`. `dials` is whether it was made by `Bind`; `opened` is whether the session of the peer
-- was opened on it, so that `Peer.Close` closes it.
pub record Conn : Type 0 where
  pub routine : Routine
  pub reader : User
  pub writer : User
  pub closed : Bool
  pub dials : Bool
  pub opened : Bool

pub data Outcome : Type 0 where
  running : Conn → Outcome
  crashed : Outcome

-- Which of the two routines of the peer
pub data Side : Type 0 where
  reads writes : Side

abbrev pub user : Side → Conn → User
user reads c = c.reader
user writes c = c.writer

abbrev pub set_user : Side → User → Conn → Conn
set_user reads u c = record c { reader = u }
set_user writes u c = record c { writer = u }

-- Attempts of `connect` before the first connection, and after one that was lost
abbrev pub first_attempts : ℕ
first_attempts = 3

abbrev pub later_attempts : ℕ
later_attempts = 10

-- `Bind`, which waits for the first connection itself
unfoldable pub bound : Conn
bound = record {
  routine = dialing first_attempts;
  reader = asking;
  writer = idle;
  closed = false;
  dials = true;
  opened = false;
}

-- A connection that `Listen` has accepted
unfoldable pub accepted : Conn
accepted = record {
  routine = watching;
  reader = idle;
  writer = idle;
  closed = false;
  dials = false;
  opened = false;
}

abbrev pub is_failing : User → Bool
is_failing idle = false
is_failing failing = true
is_failing asking = false

-- Is the routine sending on `connChan`?
abbrev pub is_sending : Routine → Bool
is_sending (dialing n) = false
is_sending reporting = true
is_sending giving_up = true
is_sending unbinding = false
is_sending watching = false
is_sending gone = false

-- A receive from a closed channel comes back.
abbrev pub after_close : Routine → Routine
after_close (dialing n) = dialing n
after_close reporting = reporting
after_close giving_up = giving_up
after_close unbinding = unbinding
after_close watching = gone
after_close gone = gone

abbrev pub released : User → User
released idle = idle
released failing = failing
released asking = idle

-- `connTCP.Close`: whoever is sending on one of the channels panics.
unfoldable pub close_conn : Conn → Outcome
close_conn c =
    if c.closed
    then running c
    else if is_failing c.reader || is_failing c.writer || is_sending c.routine
    then crashed
    else running (record c {
      closed = true;
      routine = after_close c.routine;
      reader = released c.reader;
      writer = released c.writer;
    })

-- An attempt to dial, with some left
unfoldable pub dial : Bool → ℕ → Conn → Outcome
dial success n c =
    if success
    then if c.closed then crashed else running (record c { routine = reporting })
    else elim n [
      | zero ↦ running (record c { routine = dialing zero })
      | suc zero ↦ if c.closed then crashed else running (record c { routine = giving_up })
      | suc (suc k) ↦ running (record c { routine = dialing (suc k) })
    ]

-- What can happen
pub data Step : Type 0 where
  -- the network answers a dial
  dialed : Bool → Step
  -- a side has an error of the network, and sees that the connection is not closed
  failed : Side → Step
  -- the error is received, and the answer to it
  asked answered : Side → Step
  -- the routine calls `unbindFn` or `hook`
  unbound : Step
  -- the session of the peer is opened, or `Close` is called by anyone else
  session_opened closed_elsewhere : Step

-- The routine goes on after its answer; a dial that has succeeded sets the attempts for the next time.
abbrev pub next_routine : Routine → Routine
next_routine (dialing n) = dialing n
next_routine reporting = watching
next_routine giving_up = unbinding
next_routine unbinding = unbinding
next_routine watching = watching
next_routine gone = gone

abbrev pub is_watching : Routine → Bool
is_watching (dialing n) = false
is_watching reporting = false
is_watching giving_up = false
is_watching unbinding = false
is_watching watching = true
is_watching gone = false

abbrev pub is_asking : User → Bool
is_asking idle = false
is_asking failing = false
is_asking asking = true

abbrev pub is_idle : User → Bool
is_idle idle = true
is_idle failing = false
is_idle asking = false

-- One step, `none` if it cannot happen
unfoldable pub step : Step → Conn → Option Outcome
unfolding close_conn dial
step (dialed success) c = elim c.routine [
  | dialing n ↦ some (dial success n c)
  | reporting ↦ none
  | giving_up ↦ none
  | unbinding ↦ none
  | watching ↦ none
  | gone ↦ none
]
step (failed s) c =
    if is_idle (user s c) && not c.closed then some (running (set_user s failing c)) else none
step (asked s) c =
    if is_failing (user s c) && is_watching c.routine
    then some (
        running (record (set_user s asking c) {
          routine = if c.dials then dialing later_attempts else giving_up;
        }))
    else none
step (answered s) c =
    if is_asking (user s c) && is_sending c.routine
    then some (running (record (set_user s idle c) { routine = next_routine c.routine }))
    else none
step unbound c = elim c.routine [
  | unbinding ↦
      let c1 = record c { routine = gone } in some (if c.opened then close_conn c1 else running c1)
  | dialing n ↦ none
  | reporting ↦ none
  | giving_up ↦ none
  | watching ↦ none
  | gone ↦ none
]
step session_opened c = some (running (record c { opened = true }))
step closed_elsewhere c = some (close_conn c)

-- Steps one after the other
unfoldable pub run : List Step → Conn → Option Outcome
run [] c = some (running c)
run (e ∷ es) c = elim (step e c) [
  | none ↦ none
  | some crashed ↦ some crashed
  | some (running c1) ↦ run es c1
]
