-- ===== src/Policy.antt =====
-- db/policy.go, db/policy.proto: who may endorse what, and how much of it.
use sporedb.Common.{
  ℕ, Bool, Option, none, some, List, [], ◌∷◌, Bytes, bytes_eq, Result, ok, err, panic, ◌>>=◌, ◌==◌,
  length, op_not_allowed, invalid_key_spec, if◌then◌else◌, any, codes, external,
}
use sporedb.Operation.{Operation, OpCode}

pub record Endorser : Type 0 where
  pub public : Bytes
  pub comment : Bytes

-- The oneof `key` of an `OSpec`.
pub data KeySpec : Type 0 where
  name regex : Bytes → KeySpec
  unset : KeySpec

pub record OSpec : Type 0 where
  pub key : KeySpec
  pub max_size : ℕ
  pub allowed_operations : List OpCode

-- Of a duration only the seconds are read.
pub record Policy : Type 0 where
  pub uuid : Bytes
  pub comment : Bytes
  pub endorsers : List Endorser
  pub quorum : ℕ
  pub timeout : Option ℕ
  pub grace_period : Option ℕ
  pub max_size : ℕ
  pub max_op_size : ℕ
  pub specs : List OSpec

abbrev pub internal_key_prefix : Bytes
internal_key_prefix = codes "__internal"

abbrev pub global_policy_size_key_prefix : Bytes
global_policy_size_key_prefix = codes "__internal/size"

-- `NonePolicy`; the comment is not repeated here.
abbrev pub none_policy : Policy
none_policy = record {
  uuid = codes "none";
  comment = codes "Allows everything on every key. Should only used for testing purposes.";
  endorsers = [];
  quorum = 0;
  timeout = none;
  grace_period = none;
  max_size = 0;
  max_op_size = 0;
  specs = record { key = regex (codes ".*"); max_size = 0; allowed_operations = [] } ∷ [];
}

-- The package regexp, which the file only calls: compiled expressions, and what they match.
pub record Regexp (R : Type 0) : Type 0 where
  -- `Compile`, `none` for an error
  pub compile : Bytes → Option R
  pub quote_meta : Bytes → Bytes
  pub match_string : R → Bytes → Bool

abbrev pub get_name : OSpec → Bytes
get_name s = elim s.key [ name n ↦ n | regex _ ↦ [] | unset ↦ [] ]

abbrev pub get_regex : OSpec → Bytes
get_regex s = elim s.key [ name _ ↦ [] | regex r ↦ r | unset ↦ [] ]

module _ {R : Type 0} (re : Regexp R) where
  -- One round of `compileRegexes`; `MustCompile` panics on an error.
  unfoldable pub compile_spec : OSpec → Result R
  compile_spec s =
      if length (get_name s) == 0
      then if length (get_regex s) == 0
        then err invalid_key_spec
        else elim (re.compile (get_regex s)) [ none ↦ err (external 0) | some r ↦ ok r ]
      else elim (re.compile (re.quote_meta (get_name s))) [ none ↦ panic | some r ↦ ok r ]

  unfoldable pub compile_regexes : List OSpec → Result (List R)
  unfolding compile_spec
  compile_regexes [] = ok []
  compile_regexes (s ∷ specs) = do r ← compile_spec s; rs ← compile_regexes specs; ok (r ∷ rs)

-- `pubToEndorser`; a nil policy has no endorser.
unfoldable pub find_endorser : List Endorser → Bytes → Option Endorser
find_endorser [] pub_key = none
find_endorser (e ∷ es) pub_key =
    if bytes_eq e.public pub_key then some e else find_endorser es pub_key

unfoldable pub pub_to_endorser : Option Policy → Bytes → Option Endorser
unfolding find_endorser
pub_to_endorser none pub_key = none
pub_to_endorser (some p) pub_key = find_endorser p.endorsers pub_key

-- `checkOp`
unfoldable pub check_op : OSpec → Operation → Result (Unit {0})
check_op s o =
    if length s.allowed_operations == 0
    then ok tt
    else if any (λ ao. o.op == ao) s.allowed_operations
    then ok tt
    else err op_not_allowed
