-- ===== src/Myc/Rounds.antt =====
-- `membershipBroadcaster` of myc/membership.go, and the mutex of myc/mycelium.go that it shares with
-- all who read and write the list of peers.
pub mod Blocked
use sporedb.Common.{
  ℕ, zero, suc, ◌-◌, ◌==◌, ltb, leb, Bool, true, false, not, ◌&&◌, ◌||◌, Option, none, some, List,
  [], ◌∷◌, ◌++◌, get_elem?, if◌then◌else◌,
}
use sporedb.Myc.Nodes.{Node}

-- The loop over the permutation, from its entry `i` on: the nodes of a round
unfoldable pub choose_nodes : ℕ → List Node → ℕ → List ℕ → List Node
choose_nodes fanout nodes i [] = []
choose_nodes fanout nodes i (j ∷ order) =
    let rest = choose_nodes fanout nodes (suc i) order in
    if leb fanout i then [] else elim (get_elem? nodes j) [ none ↦ rest | some n ↦ n ∷ rest ]

-- Where the round is: between two ticks, with the mutex and the nodes that it has chosen, or in
-- `Broadcast`, which has taken the mutex as well
pub data Round : Type 0 where
  idle : Round
  reading sending : List Node → Round

-- A `sync.RWMutex` and the round. `readers` counts the others who read, a writer is `pending` from its
-- call of `Lock` until it has the mutex, and `writing` then; `sent` has the nodes that were broadcast.
pub record Mutex : Type 0 where
  pub round : Round
  pub readers : ℕ
  pub pending : Bool
  pub writing : Bool
  pub nodes : List Node
  pub fanout : ℕ
  pub sent : List (List Node)

pub data Event : Type 0 where
  -- the ticker, with the permutation; the end of the round without nodes; `Broadcast`, and its end
  tick : List ℕ → Event
  skip start finish : Event
  -- the others: `RLock` and `RUnlock`, the call of `Lock`, its return, and `Unlock`
  read read_end ask acquire release : Event

-- `RLock` returns while no writer has the mutex or waits for it.
abbrev pub can_read : Mutex → Bool
can_read s = not s.pending && not s.writing

-- `Lock` returns when nobody reads.
abbrev pub can_write : Mutex → Bool
can_write s = elim s.round [
  | idle ↦ s.pending && s.readers == 0
  | reading nodes ↦ false
  | sending nodes ↦ false
]

-- What happens, if it can
unfoldable pub step : Event → Mutex → Option Mutex
unfolding choose_nodes
step (tick order) s = elim s.round [
  | idle ↦
      if can_read s
      then some (record s { round = reading (choose_nodes s.fanout s.nodes 0 order) })
      else none
  | reading nodes ↦ none
  | sending nodes ↦ none
]
step skip s = elim s.round [
  | idle ↦ none
  | reading nodes ↦ elim nodes [ [] ↦ some (record s { round = idle }) | n ∷ ns ↦ none ]
  | sending nodes ↦ none
]
step start s = elim s.round [
  | idle ↦ none
  | reading nodes ↦ elim nodes [
    | [] ↦ none
    | n ∷ ns ↦ if can_read s then some (record s { round = sending (n ∷ ns) }) else none
  ]
  | sending nodes ↦ none
]
step finish s = elim s.round [
  | idle ↦ none
  | reading nodes ↦ none
  | sending nodes ↦ some (record s { round = idle; sent = s.sent ++ (nodes ∷ []) })
]
step read s = if can_read s then some (record s { readers = suc s.readers }) else none
step read_end s = if ltb 0 s.readers then some (record s { readers = s.readers - 1 }) else none
step ask s = if can_read s then some (record s { pending = true }) else none
step acquire s = if can_write s then some (record s { pending = false; writing = true }) else none
step release s = if s.writing then some (record s { writing = false }) else none

-- A row of events
unfoldable pub run : List Event → Mutex → Option Mutex
unfolding step
run [] s = some s
run (e ∷ events) s = elim (step e s) [ none ↦ none | some s1 ↦ run events s1 ]
