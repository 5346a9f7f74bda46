-- ===== src/Tests.antt =====
-- A small world for the runs: numbers for floats, words for regular expressions, a map for a
-- store, and a message as its own hash and signature.
pub mod Sets
pub mod Runs
pub mod Nodes
pub mod Myc
pub mod Sec
pub mod Sessions
pub mod Hubs
pub mod Quorums
pub mod Clients
pub mod KeyFiles
pub mod Transports
pub mod Rounds
pub mod Network
pub mod Reuse
use sporedb.Common.{
  zero, suc, length, ◌==◌, ℕ, ◌+◌, ◌*◌, ◌≡◌, refl, arith, Bool, Option, none, some, List, [], ◌∷◌,
  Bytes, bytes_eq, codes, contains_bytes, GoMap, lookup, insert, lookup-insert, Result, ok, err,
  panic, if◌then◌else◌, external,
}
use sporedb.Version.{no_version}
use sporedb.Operation.{Operation, op_add, op_sadd}
use sporedb.Spore.{Spore}
use sporedb.Policy.{Policy}
use sporedb.World.{World}
use sporedb.BoltDb.{Bucket, bolt_store}
use sporedb.Db.{Db, Trigger, Endorsement}

abbrev parse_number : Bytes → Option ℕ
parse_number [] = none
parse_number (n ∷ _) = some n

-- A bucket that is a map.
unfoldable pub bucket_get : GoMap Bytes → Bytes → Option Bytes
bucket_get b k = lookup k b

unfoldable pub bucket_put : GoMap Bytes → Bytes → Bytes → Result (GoMap Bytes)
bucket_put b k v = if length k == 0 then err (external 3) else ok (insert k v b)

abbrev pub map_bucket : Bucket (GoMap Bytes)
map_bucket = record { get = bucket_get; put = bucket_put; entries = λ b. b }

-- A message cut or filled to 64 bytes stands for its hash.
unfoldable pub fill : ℕ → Bytes → Bytes
fill zero b = []
fill (suc n) [] = 0 ∷ fill n []
fill (suc n) (x ∷ b) = x ∷ fill n b

pub length-fill : (n : ℕ) (b : Bytes) → length (fill n b) ≡ n
unfolding fill
length-fill zero b = refl
length-fill (suc n) [] = omega (arith, length-fill n [])
length-fill (suc n) (x ∷ b) = omega (arith, length-fill n b)

abbrev pub demo : World
demo = record {
  F = ℕ;
  R = Bytes;
  S = GoMap Bytes;
  K = Unit {0};
  C = GoMap Bytes;
  floats = record {
    zero_float = 0;
    parse = parse_number;
    print = λ n. n ∷ [];
    add = λ a b. a + b;
    mul = λ a b. a * b;
    of_uint64 = λ n. n;
    to_uint64 = λ n. n;
  };
  regexp = record { compile = some; quote_meta = λ b. b; match_string = λ r k. contains_bytes k r };
  store = bolt_store map_bucket;
  keys = record {
    sign = λ _ h. ok h;
    get_public = λ _ n. ok n;
    verify = λ _ _ h signature. if bytes_eq h (fill 64 signature) then ok tt else err (external 2);
  };
  lru = record { new = []; get = λ c k. lookup k c; add = λ c k h. insert k h c };
  sha512 = λ b. fill 64 b;
  marshal_spore = λ s. s.uuid;
}

-- A sum and two insertions, under a policy of a quorum of two.
abbrev pub op : ℕ → Bytes → Bytes → Operation
op code key payload = record { key = key; op = code; payload = payload; metadata = [] }

abbrev pub two_of : Policy
two_of = record {
  uuid = codes "p";
  comment = [];
  endorsers =
      record { public = codes "x"; comment = [] }
      ∷ (record { public = codes "y"; comment = [] } ∷ []);
  quorum = 2;
  timeout = none;
  grace_period = none;
  max_size = 0;
  max_op_size = 0;
  specs = [];
}

abbrev pub spore : Bytes → List Operation → Spore
spore uuid ops = record {
  uuid = uuid;
  policy = codes "p";
  emitter = codes "x";
  deadline = none;
  requirements = [];
  operations = ops;
  signature = uuid;
}

abbrev pub sum : Spore
sum = spore (codes "s") (op op_add (codes "k") (5 ∷ []) ∷ (op op_sadd (codes "l") (7 ∷ []) ∷ []))

abbrev named : List Policy → GoMap Policy
named [] = []
named (p ∷ ps) = (p.uuid, p) ∷ named ps

abbrev pub node : List Policy → GoMap Trigger → GoMap ℕ → Db demo
node ps staging applied = record {
  store = [];
  identity = codes "me";
  keyring = tt;
  messages = [];
  policies = named ps;
  policies_reg = [];
  waiting = [];
  staging = staging;
  applied = applied;
  cache = [];
  tasks = [];
}

abbrev pub endorsement : Bytes → Bytes → Endorsement
endorsement emitter uuid = record { emitter = emitter; uuid = uuid; signature = uuid }
