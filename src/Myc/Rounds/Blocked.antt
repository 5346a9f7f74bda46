-- ===== src/Myc/Rounds/Blocked.antt =====
-- A writer that comes between the two times that a round takes the mutex.
use sporedb.Common.{
  ℕ, ◌≡◌, refl, ltb, Bool-cases, true, false, none, some, Option-cases, List, [], ◌∷◌, subst, inl,
  inr, some-injective,
}
use sporedb.Myc.Nodes.{Node}
use sporedb.Myc.Rounds.{
  idle, reading, Mutex, Event, tick, skip, start, finish, read, read_end, ask, acquire, release,
  choose_nodes, step, run,
}

-- The round has the mutex and nodes to broadcast, and a writer waits.
pub record IsBlocked (n : Node) (ns : List Node) (sent : List (List Node)) (s : Mutex)
    : Type 0 where
  pub round : s.round ≡ reading (n ∷ ns)
  pub pending : s.pending ≡ true
  pub writing : s.writing ≡ false
  pub sent_before : s.sent ≡ sent

module _ (n : Node) (ns : List Node) (sent : List (List Node)) where
  step-IsBlocked :
      (e : Event) (s s1 : Mutex)
      → IsBlocked n ns sent s
      → step e s ≡ some s1
      → IsBlocked n ns sent s1
  unfolding step
  step-IsBlocked (tick order) s s1 h e = let z = rw (h.round, step) at e in cc
  step-IsBlocked skip s s1 h e = let z = rw (h.round, step) at e in cc
  step-IsBlocked start s s1 h e = let z = rw (h.round, h.pending, step) at e in cc
  step-IsBlocked finish s s1 h e = let z = rw (h.round, step) at e in cc
  step-IsBlocked read s s1 h e = let z = rw (h.pending, step) at e in cc
  step-IsBlocked read_end s s1 h e = elim (Bool-cases (ltb 0 s.readers)) [
    | inl x ↦ subst (IsBlocked n ns sent) (some-injective (rw (x, step) at e)) (record {
      round = h.round;
      pending = h.pending;
      writing = h.writing;
      sent_before = h.sent_before;
    })
    | inr x ↦ let z = rw (x, step) at e in cc
  ]
  step-IsBlocked ask s s1 h e = let z = rw (h.pending, step) at e in cc
  step-IsBlocked acquire s s1 h e = let z = rw (h.round, step) at e in cc
  step-IsBlocked release s s1 h e = let z = rw (h.writing, step) at e in cc

  run-IsBlocked :
      (events : List Event) (s s1 : Mutex)
      → IsBlocked n ns sent s
      → run events s ≡ some s1
      → IsBlocked n ns sent s1
  unfolding run
  run-IsBlocked [] s s1 h e = subst (IsBlocked n ns sent) (some-injective e) h
  run-IsBlocked (event ∷ events) s s1 h e = elim (Option-cases (step event s)) [
    | inl x ↦ let z = rw (x, run) at e in cc
    | inr (s2, x) ↦ run-IsBlocked events s2 s1 (step-IsBlocked event s s2 h x) (rw (x, run) at e)
  ]

-- A round that has chosen nodes, a call of `Lock` before its `Broadcast`, and then any events: the
-- nodes are not broadcast, the round does not end, and the writer still waits, as does, from then on,
-- whoever calls `RLock` or `Lock`.
pub tick-ask-blocked :
    (order : List ℕ) (n : Node) (ns : List Node) (events : List Event) (s s1 : Mutex)
    → s.round ≡ idle
    → s.pending ≡ false
    → s.writing ≡ false
    → choose_nodes s.fanout s.nodes 0 order ≡ n ∷ ns
    → run (tick order ∷ (ask ∷ events)) s ≡ some s1
    → (s1.round ≡ reading (n ∷ ns))
      × (s1.sent ≡ s.sent)
      × (s1.pending ≡ true)
      × (s1.writing ≡ false)
      × (step start s1 ≡ none)
      × (step read s1 ≡ none)
      × (step ask s1 ≡ none)
      × (step acquire s1 ≡ none)
unfolding run step
tick-ask-blocked order n ns events s s1 between quiet free chosen e =
    let held = record s { round = reading (n ∷ ns); pending = true; writing = false } in
    let rest : run events held ≡ some s1 = rw (between, quiet, free, chosen, run, step) at e in
    let h =
      run-IsBlocked n ns s.sent events held s1
        (record { round = refl; pending = refl; writing = refl; sent_before = refl }) rest in
    (
      h.round,
      h.sent_before,
      h.pending,
      h.writing,
      rw (h.round, h.pending, step) refl,
      rw (h.pending, step) refl,
      rw (h.pending, step) refl,
      rw (h.round, step) refl,
    )
