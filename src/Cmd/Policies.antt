-- ===== src/Cmd/Policies.antt =====
-- cmd/policy.go: the policies that `policy create` makes, and those that a node loads.
use sporedb.Common.{
  ℕ, ◌+◌, ◌-◌, ◌*◌, ◌/◌, ◌^◌, ◌%◌, ◌≤◌, ◌<◌, ◌≡◌, arith, Bool, false, Option, none, some, List, [],
  ◌∷◌, ◌++◌, Bytes, codes, length, ◌==◌, Result, ok, err, panic, stuck, ◌>>=◌, Error, external,
  add64, int_ltb, ltb, if◌then◌else◌, >>=-eq-ok, ok-injective, subst,
}
use sporedb.Policy.{Policy, Endorser, regex}
use sporedb.World.{World}
use sporedb.Db.{Db, add_policy}

-- `read`: the answer to a question, or its default if the line is empty.
unfoldable pub read : Bytes → Bytes → Bytes
read d l = if length l == 0 then d else l

-- `/ 2` on `int`, which rounds towards zero
unfoldable pub half_int : ℕ → ℕ
half_int n = if ltb n (2 ^ 63) then n / 2 else (2 ^ 64 - (2 ^ 64 - n) / 2) % 2 ^ 64

-- The quorum that is asked for, given the number of endorsers and that of the faulty ones
unfoldable pub least_quorum : ℕ → ℕ → ℕ
unfolding half_int
least_quorum n f = add64 1 (half_int (add64 n f))

-- The loop over the names of endorsers, given what `GetPublic` answers; a name that is not known is
-- asked again, and the end of the input ends the program.
unfoldable pub read_endorsers : (Bytes → Result Bytes) → List Bytes → Result (List Endorser)
read_endorsers get_public [] = err (external 4)
read_endorsers get_public (l ∷ lines) =
    let rest = read_endorsers get_public lines in
    if length l == 0 then ok [] else elim (get_public l) [
      | ok data' ↦ rest >>= λ es. ok (record { public = data'; comment = l } ∷ es)
      | err _ ↦ rest
      | panic ↦ panic
      | stuck ↦ stuck
    ]

-- What the user answers; numbers are `int`s, and `quorum` is `none` for the default.
pub record Answers : Type 0 where
  pub name : Bytes
  pub comment : Bytes
  pub is_endorser : Bool
  pub endorsers : List Bytes
  pub faulty : ℕ
  pub quorum : Option ℕ

-- An error of `check`, by which the program ends
abbrev pub insufficient : Error
insufficient = external 5

-- The checks of the quorum
unfoldable pub choose_quorum : ℕ → ℕ → Option ℕ → Result ℕ
unfolding least_quorum
choose_quorum n f answer =
    let quorum = least_quorum n f in
    let user_quorum : ℕ = elim answer [ none ↦ quorum | some q ↦ q ] in
    if int_ltb user_quorum quorum
    then err insufficient
    else if int_ltb n user_quorum
    then err insufficient
    else ok user_quorum

-- `pub, _, _ := keyRing.GetPublic("")`, where an error leaves nil
abbrev pub own_data : Result Bytes → Bytes
own_data (ok b) = b
own_data (err _) = []
own_data panic = []
own_data stuck = []

-- `policy create`, given the identifier that is made as a default; what it writes into a file.
unfoldable pub create_policy : (Bytes → Result Bytes) → Bytes → Answers → Result Policy
unfolding read read_endorsers choose_quorum
create_policy get_public uuid a = do
  others ← read_endorsers get_public a.endorsers
  let own =
      if a.is_endorser then record { public = own_data (get_public []); comment = [] } ∷ [] else []
  let endorsers = own ++ others
  quorum ← choose_quorum (length endorsers) a.faulty a.quorum
  ok (record {
    uuid = read uuid a.name;
    comment = read [] a.comment;
    endorsers = endorsers;
    quorum = quorum;
    timeout = none;
    grace_period = none;
    max_size = 0;
    max_op_size = 0;
    specs = record { key = regex (codes ".*"); max_size = 0; allowed_operations = [] } ∷ [];
  })

-- `loadPolicies`, on what is read of each file: those that cannot be read or enabled are skipped.
module _ (w : World) where
  unfoldable pub load_policies : List (Result Policy) → Db w → Result (Db w)
  load_policies [] db = ok db
  load_policies (f ∷ files) db = elim f [
    | ok p ↦
        let (db1, r) = add_policy w p db in
        elim r [
          | ok _ ↦ load_policies files db1
          | err _ ↦ load_policies files db1
          | panic ↦ panic
          | stuck ↦ stuck
        ]
    | err _ ↦ load_policies files db
    | panic ↦ panic
    | stuck ↦ stuck
  ]

least_quorum_lem : (n f : ℕ) → n + f < 2 ^ 63 → least_quorum n f ≡ 1 + (n + f) / 2
unfolding least_quorum
least_quorum_lem n f small = let sum : add64 n f ≡ n + f = omega arith in rw sum (ground arith)

int_le : (a b : ℕ) → a < 2 ^ 63 → b < 2 ^ 64 → int_ltb b a ≡ false → (a ≤ b) × (b < 2 ^ 63)
int_le a b ha hb h = ground arith

int_le_small : (a b : ℕ) → a < 2 ^ 63 → b < 2 ^ 63 → int_ltb b a ≡ false → a ≤ b
int_le_small a b ha hb h = ground arith

choose_quorum_outcome :
    (n f : ℕ) (answer : Option ℕ) (q : ℕ)
    → choose_quorum n f answer ≡ ok q
    → (int_ltb q (least_quorum n f) ≡ false) × (int_ltb n q ≡ false)
unfolding choose_quorum
choose_quorum_outcome n f none q h = (ground arith, ground arith)
choose_quorum_outcome n f (some u) q h = (ground arith, ground arith)

choose_quorum-ok :
    (n f : ℕ) (answer : Option ℕ) (q : ℕ)
    → n + f < 2 ^ 63
    → q < 2 ^ 64
    → choose_quorum n f answer ≡ ok q
    → (n + f < 2 * q) × (q ≤ n)
choose_quorum-ok n f answer q small word h =
    let (least, most) = choose_quorum_outcome n f answer q h in
    let (enough, low) =
      int_le (1 + (n + f) / 2) q (omega arith) word (rw (least_quorum_lem n f small) at least) in
    (omega (arith, enough), int_le_small q n (omega arith) (omega arith) most)

create_policy-choose_quorum :
    (get_public : Bytes → Result Bytes) (uuid : Bytes) (a : Answers) (p : Policy)
    → create_policy get_public uuid a ≡ ok p
    → choose_quorum (length p.endorsers) a.faulty a.quorum ≡ ok p.quorum
unfolding create_policy
create_policy-choose_quorum get_public uuid a p made =
    let (others, all_read, rest) = >>=-eq-ok (read_endorsers get_public a.endorsers) _ p made in
    let (q, chosen, last) = >>=-eq-ok (choose_quorum _ a.faulty a.quorum) _ p rest in
    subst (λ x. choose_quorum (length x.endorsers) a.faulty a.quorum ≡ ok x.quorum)
      (ok-injective last) chosen

-- A policy that `policy create` makes for a number of faulty endorsers that is not negative and not beyond an
-- `int`: twice its quorum is more than its endorsers and the faulty ones together, and its quorum
-- is at most the number of its endorsers.
pub create_policy_quorum :
    (get_public : Bytes → Result Bytes) (uuid : Bytes) (a : Answers) (p : Policy)
    → create_policy get_public uuid a ≡ ok p
    → p.quorum < 2 ^ 64
    → length p.endorsers + a.faulty < 2 ^ 63
    → (length p.endorsers + a.faulty < 2 * p.quorum) × (p.quorum ≤ length p.endorsers)
create_policy_quorum get_public uuid a p made word small =
    choose_quorum-ok (length p.endorsers) a.faulty a.quorum p.quorum small word
      (create_policy-choose_quorum get_public uuid a p made)
