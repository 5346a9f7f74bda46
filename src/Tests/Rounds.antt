-- ===== src/Tests/Rounds.antt =====
-- A round of nodes at the mutex.
use sporedb.Common.{◌≡◌, refl, true, false, none, some, [], ◌∷◌, codes}
use sporedb.Myc.Nodes.{Node}
use sporedb.Myc.Rounds.{
  Mutex, idle, reading, tick, start, read, read_end, ask, acquire, choose_nodes, step, run,
}
use sporedb.Myc.Rounds.Blocked.{tick-ask-blocked}

abbrev known_node : Node
known_node = record { address = codes "a"; identity = [] }

-- One reader, and a node to tell of
abbrev quiet : Mutex
quiet = record {
  round = idle;
  readers = 1;
  pending = false;
  writing = false;
  nodes = known_node ∷ [];
  fanout = 10;
  sent = [];
}

abbrev waiting : Mutex
waiting = record quiet { round = reading (known_node ∷ []); readers = 0; pending = true }

tick-ask-blocked_example :
    (waiting.round ≡ reading (known_node ∷ []))
    × (waiting.sent ≡ quiet.sent)
    × (waiting.pending ≡ true)
    × (waiting.writing ≡ false)
    × (step start waiting ≡ none)
    × (step read waiting ≡ none)
    × (step ask waiting ≡ none)
    × (step acquire waiting ≡ none)
unfolding run choose_nodes
tick-ask-blocked_example =
    tick-ask-blocked (0 ∷ []) known_node [] (read_end ∷ []) quiet waiting refl refl refl refl refl

-- Without the writer the round ends.
round_run :
    run (tick (0 ∷ []) ∷ (start ∷ (sporedb.Myc.Rounds.finish ∷ []))) quiet
    ≡ some (record quiet { sent = (known_node ∷ []) ∷ [] })
unfolding run choose_nodes
round_run = refl
