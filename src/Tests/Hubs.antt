-- ===== src/Tests/Hubs.antt =====
-- Connections at small inputs.
use sporedb.Common.{◌≡◌, refl, List, ◌++◌, true, false, [], ◌∷◌, bytes_eq, codes, ok, stuck}
use sporedb.Myc.Nodes.{Node, is_zero}
use sporedb.Myc.Hub.{Hub, new_link, ready_link, is_bound, bind}
use sporedb.Myc.Hub.Bound.{HubEvent, binds, ends, greets, on_event, on_events, bind_again-stuck}

abbrev near : Node
near = record { address = codes "a"; identity = [] }

abbrev alone : Hub
alone = record { links = []; nodes = near ∷ []; self = codes "me"; locked = false }

-- A third `Bind`, and the greeting of another node
abbrev afterwards : List HubEvent
afterwards =
    binds 3 near (ok tt) (ok (codes "x", true))
    ∷ (greets (new_link 4 near) (ok (codes "y", true)) true true ∷ [])

bind_again-stuck_example :
    let once = (bind 1 near (ok tt) (ok (codes "x", true)) alone).0 in
    let twice = bind 2 near (ok tt) (ok (codes "x", true)) once in
    (twice.1 ≡ ok tt)
    × (twice.0.links ≡ [] ++ (ready_link (new_link 1 near) (codes "x") true ∷ []))
    × (on_events afterwards twice.0 ≡ twice.0)
    × ((on_event (ends (new_link 1 near)) (on_events afterwards twice.0)).1 ≡ stuck)
unfolding is_zero is_bound bytes_eq
bind_again-stuck_example =
    bind_again-stuck 1 2 near (codes "x") true (ok tt) (ok (codes "x", true)) alone afterwards
      (ends (new_link 1 near)) tt refl refl refl refl
