-- ===== src/Db/Client.antt =====
-- db/client: the client that a user types commands into, over the service of a node.
pub mod Typed
use sporedb.Common.{
  ℕ, ◌-◌, ◌==◌, ◌&&◌, ◌||◌, ltb, leb, Bool, true, false, Option, none, some, List, [], ◌∷◌, ◌++◌,
  Bytes, bytes_eq, codes, map, Result, Error, ok, err, panic, stuck, if◌then◌else◌,
}
use sporedb.Version
use sporedb.Version.{Version, no_version}
use sporedb.Operation.{Operation, OpCode, op_set, op_concat, op_add, op_mul, op_sadd, op_srem}
use sporedb.Db.Server.{Transaction}

-- The service as gRPC gives it to a client; an error comes without a value.
pub record Api (S : Type 0) : Type 0 where
  pub get : Bytes → S → Result (Version × Bytes)
  pub members : Bytes → S → Result (Version × List Bytes)
  pub contains : Bytes → Bytes → S → Result Bool
  pub submit : Transaction → S → S × Result Bytes

-- What a command prints
pub data Output : Type 0 where
  value_line : Bytes → Output
  zero_version : Output
  version_line : Bytes → Output
  element_lines : List Bytes → Output
  answer_line : Bool → Output
  transaction_line : Bytes → Output
  policy_line : Bytes → Output
  failure_line : Error → Output
  failure_and_answer_line : Error → Bool → Output
  two_arguments_expected invalid_command : Output

-- `strings.SplitN(line, " ", 2)`: the part before the first space, and the part behind it, if any
unfoldable pub split2 : Bytes → Bytes × Option Bytes
split2 [] = ([], none)
split2 (c ∷ line) =
    let (first, rest) = split2 line in if c == b' ' then ([], some line) else (c ∷ first, rest)

-- `strings.ToUpper`, on ASCII
unfoldable pub to_upper : Bytes → Bytes
to_upper = map (λ c. if leb b'a' c && leb c b'z' then c - 32 else c)

-- The handlers of `getCLIMap`
pub data Command : Type 0 where
  get_command version_command members_command contains_command policy_command : Command
  generic_command : OpCode → Command

-- `m[cmd]` of `CLI`, with `Operation_Op_value`
unfoldable pub command_of : Bytes → Option Command
command_of name =
    if bytes_eq name (codes "GET")
    then some get_command
    else if bytes_eq name (codes "VERSION")
    then some version_command
    else if bytes_eq name (codes "SET")
    then some (generic_command op_set)
    else if bytes_eq name (codes "CONCAT")
    then some (generic_command op_concat)
    else if bytes_eq name (codes "ADD")
    then some (generic_command op_add)
    else if bytes_eq name (codes "MUL")
    then some (generic_command op_mul)
    else if bytes_eq name (codes "SADD")
    then some (generic_command op_sadd)
    else if bytes_eq name (codes "SREM")
    then some (generic_command op_srem)
    else if bytes_eq name (codes "SMEMBERS")
    then some members_command
    else if bytes_eq name (codes "SCONTAINS")
    then some contains_command
    else if bytes_eq name (codes "POL")
    then some policy_command
    else none

-- The order of `sort.Strings`
unfoldable pub before : Bytes → Bytes → Bool
before [] b = true
before (x ∷ a) [] = false
before (x ∷ a) (y ∷ b) = ltb x y || (x == y && before a b)

unfoldable pub insert_sorted : Bytes → List Bytes → List Bytes
insert_sorted b [] = b ∷ []
insert_sorted b (x ∷ l) =
    let rest = insert_sorted b l in if before b x then b ∷ (x ∷ l) else x ∷ rest

unfoldable pub sort_strings : List Bytes → List Bytes
unfolding insert_sorted before
sort_strings [] = []
sort_strings (b ∷ l) = insert_sorted b (sort_strings l)

-- `args[1]`, if there is one
abbrev pub arg_of : Option Bytes → Bytes
arg_of none = []
arg_of (some a) = a

-- The client between two commands: the policy, and the state of the node
pub record Shell (S : Type 0) : Type 0 where
  pub policy : Bytes
  pub node : S

module _ {S : Type 0} (api : Api S) where
  -- `processGET`
  unfoldable pub process_get : Bytes → S → Result Output
  process_get key s = elim (api.get key s) [
    | ok (v, data') ↦ ok (value_line data')
    | err e ↦ ok (failure_line e)
    | panic ↦ panic
    | stuck ↦ stuck
  ]

  -- `processVERSION`
  unfoldable pub process_version : Bytes → S → Result Output
  process_version key s = elim (api.get key s) [
    | ok (v, data') ↦ elim (Version.matches v no_version) [
      | ok _ ↦ ok zero_version
      | err _ ↦ ok (version_line (Version.hash v))
      | panic ↦ panic
      | stuck ↦ stuck
    ]
    | err e ↦ ok zero_version
    | panic ↦ panic
    | stuck ↦ stuck
  ]

  -- `processMEMBERS`
  unfoldable pub process_members : Bytes → S → Result Output
  unfolding sort_strings
  process_members key s = elim (api.members key s) [
    | ok (v, l) ↦ ok (element_lines (sort_strings l))
    | err e ↦ ok (failure_line e)
    | panic ↦ panic
    | stuck ↦ stuck
  ]

  -- `Client.Contains`, which reads a field of the answer before it looks at the error: then the
  -- answer is nil.
  unfoldable pub client_contains : Bytes → Bytes → S → Result Bool
  client_contains key value s = elim (api.contains key value s) [
    | ok b ↦ ok b
    | err e ↦ panic
    | panic ↦ panic
    | stuck ↦ stuck
  ]

  -- `processCONTAINS`, on the parts of its argument
  unfoldable pub contains_parts : Bytes × Option Bytes → S → Result Output
  unfolding client_contains
  contains_parts (key, none) s = ok two_arguments_expected
  contains_parts (key, some element) s = elim (client_contains key element s) [
    | ok b ↦ ok (answer_line b)
    | err e ↦ ok (failure_and_answer_line e false)
    | panic ↦ panic
    | stuck ↦ stuck
  ]

  -- `processCONTAINS`
  unfoldable pub process_contains : Bytes → S → Result Output
  unfolding split2 contains_parts
  process_contains arg s = contains_parts (split2 arg) s

  -- The transaction of `processGeneric2`
  abbrev pub transaction_of : Bytes → OpCode → Bytes → Bytes → Transaction
  transaction_of policy op key data' = record {
    policy = policy;
    requirements = [];
    operations = record { key = key; op = op; payload = data'; metadata = [] } ∷ [];
  }

  -- `processGeneric2`, on the parts of its argument
  unfoldable pub generic_parts : Bytes → OpCode → Bytes × Option Bytes → S → S × Result Output
  generic_parts policy op (key, none) s = (s, ok two_arguments_expected)
  generic_parts policy op (key, some data') s =
      let (s1, r) = api.submit (transaction_of policy op key data') s in
      elim r [
        | ok uuid ↦ (s1, ok (transaction_line uuid))
        | err e ↦ (s1, ok (failure_line e))
        | panic ↦ (s1, panic)
        | stuck ↦ (s1, stuck)
      ]

  -- `processGeneric2`
  unfoldable pub process_generic : Bytes → OpCode → Bytes → S → S × Result Output
  unfolding split2 generic_parts
  process_generic policy op arg s = generic_parts policy op (split2 arg) s

  -- A command on its argument
  unfoldable pub process : Command → Bytes → Shell S → Shell S × Result Output
  unfolding process_get process_version process_members process_contains process_generic
  process get_command arg c = (c, process_get arg c.node)
  process version_command arg c = (c, process_version arg c.node)
  process members_command arg c = (c, process_members arg c.node)
  process contains_command arg c = (c, process_contains arg c.node)
  process policy_command arg c = (record c { policy = arg }, ok (policy_line arg))
  process (generic_command op) arg c =
      let (s1, r) = process_generic c.policy op arg c.node in (record c { node = s1 }, r)

  -- The handler of a command, if there is one
  abbrev pub call : Option Command → Bytes → Shell S → Shell S × Result Output
  call none arg c = (c, ok invalid_command)
  call (some m) arg c = process m arg c

  -- One round of the loop of `CLI`
  unfoldable pub run_line : Bytes → Shell S → Shell S × Result Output
  run_line line c =
      let (name, rest) = split2 line in call (command_of (to_upper name)) (arg_of rest) c
