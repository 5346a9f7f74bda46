-- ===== src/Myc/Relay/Chosen.antt =====
-- To whom `Broadcast` sends.
use sporedb.Common.{
  ℕ, suc, ◌≤◌, ◌<◌, ◌≡◌, arith, ◌==◌, Bool, not, ◌&&◌, Option, List, [], ◌∷◌, length, Bool-cases,
  inl, inr, if◌then◌else◌, leb, ◌-◌,
}
use sporedb.Myc.Relay.{is_from, is_ready, choose}

-- How often a peer stands in a list
abbrev pub times : ℕ → List ℕ → ℕ
times i [] = 0
times i (j ∷ l) = if j == i then suc (times i l) else times i l

-- A peer that may get a message
abbrev pub is_open : Option ℕ → List Bool → ℕ → Bool
is_open from ready i = not (is_from from i) && is_ready ready i

-- The peers that may get a message, of a list
abbrev pub open_peers : Option ℕ → List Bool → List ℕ → ℕ
open_peers from ready [] = 0
open_peers from ready (i ∷ l) =
    if is_open from ready i then suc (open_peers from ready l) else open_peers from ready l

-- Below the fan-out the message goes to open peers only, to each as often at most as it stands in the
-- permutation, and to as many as there are, up to the fan-out.
pub choose_lem :
    (from : Option ℕ) (ready : List Bool) (fanout sent : ℕ) (order : List ℕ) (i : ℕ)
    → sent < fanout
    → (times i (choose from ready fanout sent order)
        ≤ (if is_open from ready i then times i order else 0))
      × (length (choose from ready fanout sent order) ≡ (
          if leb (open_peers from ready order) (fanout - sent)
          then open_peers from ready order
          else fanout - sent))
unfolding choose
choose_lem from ready fanout sent [] i h = ground arith
choose_lem from ready fanout sent (j ∷ order) i h = elim (Bool-cases (suc sent == fanout)) [
  | inl last ↦ ground (arith, choose_lem from ready fanout sent order i h, last)
  | inr more ↦ ground (
    arith,
    choose_lem from ready fanout sent order i h,
    choose_lem from ready fanout (suc sent) order i (ground (arith, more)),
    more,
  )
]
