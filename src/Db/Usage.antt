-- ===== src/Db/Usage.antt =====
-- db/policy.go, the methods of `DB`: what a policy allows an operation to do, and the space that
-- the keys written under a policy take.
use sporedb.Common.{
  ℕ, ◌&&◌, ◌++◌, Bool, true, false, none, some, List, [], ◌∷◌, Bytes, GoMap, lookup, Result, ok,
  err, panic, ◌>>=◌, ◌>>◌, length, ltb, codes, has_prefix, add64, sub64, if◌then◌else◌,
  unknown_policy, op_system_key, op_too_large, op_disabled_key, policy_quota_exceeded,
}
use sporedb.Operations.{Value, new_value, value_float}
use sporedb.Operation.{Operation}
use sporedb.Policy.{OSpec, Regexp, check_op, internal_key_prefix, global_policy_size_key_prefix}
use sporedb.World.{World}
use sporedb.Db.{Db}

-- The loop of `Check` over the specifications and their expressions, from the value of `valid`
-- on. A missing expression is an index out of range.
unfoldable pub check_specs :
    {R : Type 0} → Regexp R → List OSpec → List R → Operation → Bool → Result Bool
check_specs re [] regs o valid = ok valid
check_specs re (s ∷ specs) [] o valid = panic
check_specs re (s ∷ specs) (r ∷ regs) o valid =
    if re.match_string r o.key
    then check_op s o >> check_specs re specs regs o true
    else check_specs re specs regs o valid

-- `globalPolicySizeKeyPrefix + "/" + policy`
abbrev pub usage_key : Bytes → Bytes
usage_key policy = global_policy_size_key_prefix ++ (codes "/" ++ policy)

-- The bytes of all values together.
unfoldable pub size_of : {F : Type 0} → GoMap (Value F) → ℕ
size_of [] = 0
size_of ((_, v) ∷ values) = add64 (length v.raw) (size_of values)

abbrev pub usage_test : ℕ → ℕ → Result (Unit {0})
usage_test quota size = if ltb 0 quota && ltb quota size then err policy_quota_exceeded else ok tt

module _ {w : World} where
  -- `policiesReg[policy]`, nil on a missing key
  abbrev pub regexes_of : Bytes → Db w → List w.R
  regexes_of policy db = elim (lookup policy db.policies_reg) [ none ↦ [] | some rs ↦ rs ]

  -- `Check`
  unfoldable pub check : Bytes → Operation → Value w.F → Db w → Result (Unit {0})
  unfolding check_specs
  check policy o value db = elim (lookup policy db.policies) [
    | none ↦ err unknown_policy
    | some p ↦
        if has_prefix o.key internal_key_prefix
        then err op_system_key
        else if ltb 0 p.max_op_size && ltb p.max_op_size (length value.raw)
        then err op_too_large
        else do
          valid ← check_specs w.regexp p.specs (regexes_of policy db) o false
          if valid then ok tt else err op_disabled_key
  ]

  -- `getCurrentPolicyUsage`: the usage and the quota. A stored usage that is no number gives a nil
  -- `Float`, and a missing policy is nil: reading either panics.
  unfoldable pub get_current_policy_usage : Bytes → Db w → Result (ℕ × ℕ)
  get_current_policy_usage policy db =
      elim (value_float w.floats (new_value (w.store.get db.store (usage_key policy)).value)) [
        | none ↦ panic
        | some usage ↦ elim (lookup policy db.policies) [
          | none ↦ panic
          | some p ↦ ok (w.floats.to_uint64 usage, p.max_size)
        ]
      ]

  -- `updatePolicyUsage`: the key and the value to write.
  unfoldable pub update_policy_usage : ℕ → ℕ → Bytes → Db w → Result (Bytes × Bytes)
  unfolding get_current_policy_usage
  update_policy_usage old_size new_size policy db = do
    (usage, _) ← get_current_policy_usage policy db
    ok (
      usage_key policy,
      w.floats.print (w.floats.of_uint64 (add64 (sub64 usage old_size) new_size)),
    )

  -- `checkCurrentPolicyUsage`; a quota of 0 is none.
  unfoldable pub check_current_policy_usage :
      ℕ → Bytes → GoMap (Value w.F) → Db w → Result (Unit {0})
  unfolding get_current_policy_usage size_of
  check_current_policy_usage old_size policy values db = do
    (usage, quota) ← get_current_policy_usage policy db
    usage_test quota (add64 (sub64 usage old_size) (size_of values))
