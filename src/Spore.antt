-- ===== src/Spore.antt =====
-- db/spore.go: a spore, a transaction that the nodes agree on.
pub mod Conflict
use sporedb.Common.{
  ℕ, ◌+◌, ◌/◌, ◌%◌, Bool, true, false, Option, none, some, List, [], ◌∷◌, Bytes, bytes_eq, GoMap,
  codes, Result, ok, err, ◌>>◌, not, add64, int_ltb, if◌then◌else◌,
}
use sporedb.Version.{Version}
use sporedb.Operation.{Operation, check_conflict}

-- `timestamp.Timestamp`; the seconds are an `int64`.
pub record Timestamp : Type 0 where
  pub seconds : ℕ
  pub nanos : ℕ

pub record Spore : Type 0 where
  pub uuid : Bytes
  pub policy : Bytes
  pub emitter : Bytes
  pub deadline : Option Timestamp
  pub requirements : GoMap Version
  pub operations : List Operation
  pub signature : Bytes

-- `NewSpore`, given the random identifier
unfoldable pub new_spore : Bytes → Spore
new_spore uuid = record {
  uuid = uuid;
  policy = codes "none";
  emitter = [];
  deadline = none;
  requirements = [];
  operations = [];
  signature = [];
}

-- `SetTimeout`, given the time of the call; times and durations are in nanoseconds.
unfoldable pub set_timeout : ℕ → ℕ → Spore → Spore
set_timeout now t s = record s {
  deadline =
      some (record { seconds = (now + t) / 1_000_000_000; nanos = (now + t) % 1_000_000_000 });
}

-- The inner loop of `CheckConflict`: one operation against those of the other spore.
unfoldable pub check_conflict_all : Operation → List Operation → Result (Unit {0})
check_conflict_all o [] = ok tt
check_conflict_all o (o2 ∷ ops2) = check_conflict o o2 >> check_conflict_all o ops2

unfoldable pub check_conflict_loop : List Operation → List Operation → Result (Unit {0})
unfolding check_conflict_all
check_conflict_loop [] ops2 = ok tt
check_conflict_loop (o ∷ ops) ops2 = check_conflict_all o ops2 >> check_conflict_loop ops ops2

-- `Spore.CheckConflict`
unfoldable pub spores_conflict : Spore → Spore → Result (Unit {0})
unfolding check_conflict_loop
spores_conflict s s2 =
    if not (bytes_eq s.policy s2.policy)
    then ok tt
    else check_conflict_loop s.operations s2.operations

-- `checkDeadline`; `now` is `time.Now().Unix()`.
unfoldable pub check_deadline : ℕ → Spore → Bool
check_deadline now s = elim s.deadline [ none ↦ true | some d ↦ not (int_ltb d.seconds now) ]

-- `checkGracePeriod`: is the spore alive, and the second of its death. Only the seconds of the
-- grace period count, and a nil one is 0.
unfoldable pub check_grace_period : ℕ → Option ℕ → Spore → Bool × ℕ
check_grace_period now grace s = elim s.deadline [
  | none ↦ (true, 0)
  | some d ↦
      let unix_time = add64 d.seconds (elim grace [ none ↦ 0 | some g ↦ g ]) in
      (not (int_ltb unix_time now), unix_time)
]
