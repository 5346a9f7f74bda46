-- ===== src/Db/Client/Typed.antt =====
-- What the commands that a user types do at a node.
use sporedb.Common.{
  ℕ, ◌≡◌, refl, arith, ◌==◌, Bool, false, none, some, List, [], ◌∷◌, ◌++◌, Bytes, any, codes,
  length, bytes_eq, Error, Result, ok, err, panic, stuck, ◌>>◌, if◌then◌else◌, ◌∙◌, ap,
}
use sporedb.Operation.{OpCode, op_set, op_concat, op_add, op_mul, op_sadd, op_srem}
use sporedb.Encoding.Set.Layout.{member, IsDistinct, layout}
use sporedb.Encoding.Set.Unmarshal.{IsInMemory}
use sporedb.World.{World}
use sporedb.Db
use sporedb.Db.{Db}
use sporedb.Db.Server
use sporedb.Db.Server.{Transaction, members_and_contains}
use sporedb.Db.Client.{
  Api, Output, Command, element_lines, answer_line, transaction_line, failure_line, split2,
  to_upper, command_of, generic_command, contains_command, members_command, insert_sorted,
  sort_strings, Shell, transaction_of, process_generic, process_contains, process_members,
  client_contains, process, run_line, call, arg_of, generic_parts, contains_parts,
}

-- No byte is a space.
abbrev pub has_space : Bytes → Bool
has_space b = any (λ c. c == b' ') b

split2-append :
    (first rest : Bytes)
    → has_space first ≡ false
    → split2 (first ++ (b' ' ∷ rest)) ≡ (first, some rest)
unfolding split2
split2-append [] rest h = refl
split2-append (c ∷ first) rest h = ground (arith, split2-append first rest)

member-insert_sorted :
    (e b : Bytes) (l : List Bytes) → member e (insert_sorted b l) ≡ member e (b ∷ l)
unfolding insert_sorted
member-insert_sorted e b [] = refl
member-insert_sorted e b (x ∷ l) = ground (arith, member-insert_sorted e b l)

member-sort_strings : (e : Bytes) (l : List Bytes) → member e (sort_strings l) ≡ member e l
unfolding sort_strings
member-sort_strings e [] = refl
member-sort_strings e (b ∷ l) =
    ground (arith, member-insert_sorted e b (sort_strings l), member-sort_strings e l)

-- The operations that can be typed, with their words and the codes that the words mean
pub data Word : Type 0 where
  set_word concat_word add_word mul_word sadd_word srem_word : Word

abbrev pub word_of : Word → Bytes
word_of set_word = codes "SET"
word_of concat_word = codes "CONCAT"
word_of add_word = codes "ADD"
word_of mul_word = codes "MUL"
word_of sadd_word = codes "SADD"
word_of srem_word = codes "SREM"

abbrev pub code_of : Word → OpCode
code_of set_word = op_set
code_of concat_word = op_concat
code_of add_word = op_add
code_of mul_word = op_mul
code_of sadd_word = op_sadd
code_of srem_word = op_srem

command_of-word_of : (o : Word) → command_of (word_of o) ≡ some (generic_command (code_of o))
unfolding command_of bytes_eq
command_of-word_of set_word = refl
command_of-word_of concat_word = refl
command_of-word_of add_word = refl
command_of-word_of mul_word = refl
command_of-word_of sadd_word = refl
command_of-word_of srem_word = refl

module _ {S : Type 0} (api : Api S) where
  run_line-process :
      (name arg : Bytes) (m : Command) (c : Shell S)
      → command_of (to_upper name) ≡ some m
      → has_space name ≡ false
      → run_line api (name ++ (b' ' ∷ arg)) c ≡ process api m arg c
  unfolding run_line
  run_line-process name arg m c known one =
      ap (λ x. call api (command_of (to_upper x.0)) (arg_of x.1) c) (split2-append name arg one)
      ∙ ap (λ m. call api m arg c) known

  -- What is printed for the answer to a transaction
  abbrev pub printed : Result Bytes → Result Output
  printed (ok uuid) = ok (transaction_line uuid)
  printed (err e) = ok (failure_line e)
  printed panic = panic
  printed stuck = stuck

  process_generic_lem :
      (policy key data' : Bytes) (op : OpCode) (s : S)
      → has_space key ≡ false
      → process_generic api policy op (key ++ (b' ' ∷ data')) s ≡ (
        (api.submit (transaction_of api policy op key data') s).0,
        printed (api.submit (transaction_of api policy op key data') s).1,
      )
  unfolding process_generic generic_parts
  process_generic_lem policy key data' op s two =
      ap (λ x. generic_parts api policy op x s) (split2-append key data' two) ∙ ground arith

  process_contains_lem :
      (key element : Bytes) (s : S)
      → has_space key ≡ false
      → process_contains api (key ++ (b' ' ∷ element)) s ≡ elim (api.contains key element s) [
        | ok b ↦ ok (answer_line b)
        | err e ↦ panic
        | panic ↦ panic
        | stuck ↦ stuck
      ]
  unfolding process_contains contains_parts client_contains
  process_contains_lem key element s one =
      ap (λ x. contains_parts api x s) (split2-append key element one) ∙ ground arith

  -- A line of the word of an operation in any case, a key without spaces, and data that may have
  -- some: what is submitted is the transaction of this one operation, of the code that the word
  -- means, on this key with these data, under the policy that is in use and without requirements;
  -- and what the node answers is printed.
  pub run_line-generic :
      (name key data' : Bytes) (o : Word) (c : Shell S)
      → to_upper name ≡ word_of o
      → has_space name ≡ false
      → has_space key ≡ false
      → let sent =
          api.submit
            (record {
              policy = c.policy;
              requirements = [];
              operations =
                  record { key = key; op = code_of o; payload = data'; metadata = [] } ∷ [];
            })
            c.node in
        run_line api (name ++ (b' ' ∷ (key ++ (b' ' ∷ data')))) c
        ≡ (record c { node = sent.0 }, printed sent.1)
  unfolding process
  run_line-generic name key data' o c named one two =
      run_line-process name (key ++ (b' ' ∷ data')) (generic_command (code_of o)) c
        (ap command_of named ∙ command_of-word_of o) one
      ∙ ap (λ r. (record c { node = r.0 }, r.1))
          (process_generic_lem c.policy key data' (code_of o) c.node two)

-- The service of a node; the identifier of the next spore and the time are given.
abbrev pub server_api : (w : World) → Bytes → ℕ → Api (Db w)
server_api w uuid now = record {
  get = λ key db.
      let reply = Server.get w key db in
      elim reply.failed [ none ↦ ok (reply.version, reply.value) | some e ↦ err e ];
  members = λ key db. Server.members w key db;
  contains = λ key value db. Server.contains w key value db;
  submit =
      λ tx db. let (db1, (receipt, r)) = Server.submit w uuid now tx db in (db1, r >> ok receipt);
}

module _ {w : World} where
  -- A value that is the record form of distinct elements, of fewer than 2 ^ 62 bytes, under a key
  -- without spaces: for what is typed behind the key and a space, `SCONTAINS` prints whether it is
  -- among them, and for nothing that it is not; `SMEMBERS` prints a list of the same elements; neither
  -- changes the node.
  pub set_commands :
      (uuid : Bytes) (now : ℕ) (key : Bytes) (es : List Bytes) (c : Shell (Db w))
      → (Db.get w key c.node).failed ≡ none
      → (Db.get w key c.node).value ≡ layout es
      → IsDistinct es
      → IsInMemory (Db.get w key c.node).value
      → has_space key ≡ false
      → ((e : Bytes)
          → run_line (server_api w uuid now) (codes "SCONTAINS" ++ (b' ' ∷ (key ++ (b' ' ∷ e)))) c
            ≡ (c, ok (answer_line (if length e == 0 then false else member e es))))
        × ((l : List Bytes) × (run_line (server_api w uuid now) (codes "SMEMBERS" ++ (b' ' ∷ key)) c
              ≡ (c, ok (element_lines l)))
            × ((e : Bytes) → member e l ≡ member e es))
  unfolding process process_contains process_members command_of to_upper bytes_eq
  set_commands uuid now key es c found content distinct fits one =
      let (has, (l, listed, same)) =
        members_and_contains key c.node es found content distinct fits in
      (
        (λ e.
            run_line-process (server_api w uuid now) (codes "SCONTAINS") (key ++ (b' ' ∷ e))
              contains_command c refl refl
            ∙ ap (λ r. (c, r))
                (process_contains_lem (server_api w uuid now) key e c.node one ∙ rw (has e) refl)),
        (
          sort_strings l,
          run_line-process (server_api w uuid now) (codes "SMEMBERS") key members_command c refl
                refl
              ∙ rw (listed, process_members) refl,
          λ e. member-sort_strings e l ∙ same e,
        ),
      )

  server_missing :
      (key element : Bytes) (x : Error) (db : Db w)
      → (Db.get w key db).failed ≡ some x
      → (Server.members w key db ≡ err x) × (Server.contains w key element db ≡ err x)
  unfolding Server.members Server.contains
  server_missing key element x db missing = ground arith

  -- A key that the node does not have, without spaces: `SMEMBERS` prints the error, but `SCONTAINS`
  -- panics, which ends the client.
  pub scontains-panics :
      (uuid : Bytes) (now : ℕ) (key element : Bytes) (x : Error) (c : Shell (Db w))
      → (Db.get w key c.node).failed ≡ some x
      → has_space key ≡ false
      → (run_line (server_api w uuid now) (codes "SMEMBERS" ++ (b' ' ∷ key)) c
          ≡ (c, ok (failure_line x)))
        × ((run_line
              (server_api w uuid now)
              (codes "SCONTAINS" ++ (b' ' ∷ (key ++ (b' ' ∷ element))))
              c).1
            ≡ panic)
  unfolding process process_contains process_members command_of to_upper bytes_eq
  scontains-panics uuid now key element x c missing one =
      let (lists, asks) = server_missing key element x c.node missing in
      (
        run_line-process (server_api w uuid now) (codes "SMEMBERS") key members_command c refl refl
            ∙ rw (lists, process_members) refl,
        ap (λ r. r.1)
              (run_line-process (server_api w uuid now) (codes "SCONTAINS")
                (key ++ (b' ' ∷ element)) contains_command c refl refl)
            ∙ process_contains_lem (server_api w uuid now) key element c.node one
            ∙ rw asks refl,
      )
