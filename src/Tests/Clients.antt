-- ===== src/Tests/Clients.antt =====
-- Lines that a user types at a node that has a set.
use sporedb.Common.{
  ℕ, ◌≡◌, refl, arith, Bool, true, false, some, List, [], ◌∷◌, ◌++◌, Bytes, codes, length, ◌==◌,
  Result, ok, panic, not_found, if◌then◌else◌,
}
use sporedb.Operation.{op_sadd}
use sporedb.Encoding.Uint64.{uint64_to_bytes}
use sporedb.Encoding.Set.Layout.{member, layout}
use sporedb.Db.{Db}
use sporedb.Db.Client.{Shell, element_lines, answer_line, failure_line, to_upper, run_line}
use sporedb.Db.Client.Typed.{
  printed, sadd_word, server_api, run_line-generic, set_commands, scontains-panics,
}
use sporedb.Tests.{demo, node, fill}

-- A node that has the set of one element under `k`
abbrev holder : Db demo
holder = record (node [] [] []) {
  store = (codes "k", fill 64 [] ++ (uint64_to_bytes 1 ++ (7 ∷ []))) ∷ [];
}

abbrev shell : Shell (Db demo)
shell = record { policy = codes "p"; node = holder }

run_line-generic_example :
    let api = server_api demo (codes "s") 5 in
    let sent =
      api.submit
        (record {
          policy = codes "p";
          requirements = [];
          operations =
              record { key = codes "k"; op = op_sadd; payload = codes "a b"; metadata = [] } ∷ [];
        })
        holder in
    run_line api (codes "sAdd" ++ (b' ' ∷ (codes "k" ++ (b' ' ∷ codes "a b")))) shell
    ≡ (record shell { node = sent.0 }, printed api sent.1)
unfolding to_upper
run_line-generic_example =
    run_line-generic (server_api demo (codes "s") 5) (codes "sAdd") (codes "k") (codes "a b")
      sadd_word shell refl refl refl

set_commands_example :
    let api = server_api demo (codes "s") 5 in
    ((e : Bytes)
      → run_line api (codes "SCONTAINS" ++ (b' ' ∷ (codes "k" ++ (b' ' ∷ e)))) shell
        ≡ (shell, ok (answer_line (if length e == 0 then false else member e ((7 ∷ []) ∷ [])))))
    × ((l : List Bytes) × (run_line api (codes "SMEMBERS" ++ (b' ' ∷ codes "k")) shell
          ≡ (shell, ok (element_lines l)))
        × ((e : Bytes) → member e l ≡ member e ((7 ∷ []) ∷ [])))
unfolding layout sporedb.Db.get sporedb.BoltDb.get sporedb.Tests.bucket_get sporedb.Common.lookup
    sporedb.Common.bytes_eq fill uint64_to_bytes sporedb.Encoding.Set.Layout.entry
set_commands_example =
    set_commands (codes "s") 5 (codes "k") ((7 ∷ []) ∷ []) shell refl refl (ground arith, refl, tt)
      (omega arith) refl

scontains-panics_example :
    (run_line (server_api demo (codes "s") 5) (codes "SMEMBERS" ++ (b' ' ∷ codes "j")) shell
      ≡ (shell, ok (failure_line not_found)))
    × ((run_line
          (server_api demo (codes "s") 5)
          (codes "SCONTAINS" ++ (b' ' ∷ (codes "j" ++ (b' ' ∷ codes "e"))))
          shell).1
        ≡ panic)
unfolding layout sporedb.Db.get sporedb.BoltDb.get sporedb.Tests.bucket_get sporedb.Common.lookup
    sporedb.Common.bytes_eq
scontains-panics_example =
    scontains-panics (codes "s") 5 (codes "j") (codes "e") not_found shell refl refl
