-- ===== src/Tests/Quorums.antt =====
-- Policies, quorums and the endorsements that are behind them, at small inputs.
use sporedb.Common.{
  ◌+◌, ◌*◌, ◌<◌, ◌≤◌, ◌≢◌, ℕ, ◌≡◌, refl, arith, Bool, true, false, none, some, List, [], ◌∷◌, Bytes,
  bytes_eq, codes, lookup, ok, err, duplicated_endorsement, Result,
}
use sporedb.Policy.{Policy}
use sporedb.Spore.{Spore}
use sporedb.Db.{Db, Trigger, Endorsement}
use sporedb.Db.Collect.{with_endorsement, key_name, add_endorsement_map}
use sporedb.Db.Collect.Replay.{anonymous, anonymous-counted_twice}
use sporedb.Db.Upkeep.{received, endorsed, handle, here, next}
use sporedb.Cmd.Policies.{Answers, create_policy, create_policy_quorum}
use sporedb.Quorum.Decided.{Decides, IsBehind}
use sporedb.Quorum.Meet.{quorums_meet}
use sporedb.Tests.{demo, spore, node, endorsement, fill}

-- A key ring in which every name is its own key
abbrev own_names : Bytes → Result Bytes
own_names n = ok n

abbrev answers : Answers
answers = record {
  name = codes "p";
  comment = [];
  is_endorser = false;
  endorsers = codes "x" ∷ (codes "y" ∷ ([] ∷ []));
  faulty = 0;
  quorum = none;
}

abbrev pub made : Policy
made = record {
  uuid = codes "p";
  comment = [];
  endorsers =
      record { public = codes "x"; comment = codes "x" }
      ∷ (record { public = codes "y"; comment = codes "y" } ∷ []);
  quorum = 2;
  timeout = none;
  grace_period = none;
  max_size = 0;
  max_op_size = 0;
  specs =
      record { key = sporedb.Policy.regex (codes ".*"); max_size = 0; allowed_operations = [] }
      ∷ [];
}

made_run : create_policy own_names [] answers ≡ ok made
unfolding create_policy
made_run = refl

create_policy_quorum_example : (2 + 0 < 2 * made.quorum) × (made.quorum ≤ 2)
create_policy_quorum_example =
    create_policy_quorum own_names [] answers made made_run (omega arith) (omega arith)

abbrev pub blank : Spore
blank = spore (codes "s") []

abbrev pub start : Db demo
start = node (made ∷ []) [] []

abbrev pub of_x : Endorsement
of_x = endorsement (codes "x") (codes "s")

abbrev pub of_y : Endorsement
of_y = endorsement (codes "y") (codes "s")

abbrev half_way : Db demo
half_way = (handle 101 (endorsed of_x) (handle 100 (received blank) start).0).0

abbrev full : Trigger
full = record { armed = true; endorsements = of_x ∷ (of_y ∷ []); spore = blank }

full-taken : (add_endorsement_map of_y half_way.staging half_way).1 ≡ ok full
unfolding handle add_endorsement_map lookup sporedb.Db.Collect.add_endorsement
    sporedb.Db.Endorse.endorse sporedb.Db.Endorse.verify_spore_signature bytes_eq fill
    sporedb.Db.Endorse.can_endorse sporedb.Spore.check_deadline
    sporedb.Db.Usage.check_current_policy_usage sporedb.Operations.value_float
    sporedb.Operations.new_value sporedb.Encoding.Float.unmarshal_binary sporedb.BoltDb.get
    sporedb.Tests.bucket_get sporedb.Db.Endorse.execute_endorsement sporedb.Policy.pub_to_endorser
    sporedb.Common.insert sporedb.Db.Collect.settle
full-taken = refl

start-Decides : Decides made start half_way of_y full
unfolding lookup bytes_eq
start-Decides = record {
  idle = record { staging = refl; waiting = refl };
  own = [];
  has_key = refl;
  own_keys = λ a b k p q. ground (arith, p, q);
  reached = next 101 (endorsed of_x) (next 100 (received blank) here);
  taken = full-taken;
  known = refl;
  enough = omega arith;
  named = ((λ e. (cc)), ((λ e. (cc)), tt));
}

quorums_meet_example : (k : Bytes) × (false ≡ false) × IsBehind start full k × IsBehind start full k
quorums_meet_example =
    quorums_meet own_names [] answers made (λ _. false) start half_way of_y full start half_way of_y
      full made_run (omega arith) (omega arith) (omega arith) start-Decides start-Decides

-- A node that is the endorser `x` of a policy, and holds its endorsement of a staged spore.
abbrev endorser : Db demo
endorser = record start {
  identity = codes "me";
  policies =
      (codes "p", record made { endorsers = record { public = []; comment = [] } ∷ [] }) ∷ [];
  staging =
      (
        codes "s",
        record {
          armed = true;
          endorsements = endorsement (codes "me") (codes "s") ∷ [];
          spore = blank;
        },
      )
      ∷ [];
}

anonymous-counted_twice_example :
    ((add_endorsement_map (endorsement (codes "me") (codes "s")) endorser.staging endorser).1
      ≡ err duplicated_endorsement)
    × ((add_endorsement_map
          (anonymous (endorsement (codes "me") (codes "s")))
          endorser.staging
          endorser).1
        ≡ ok (record {
          armed = true;
          endorsements = endorsement (codes "me") (codes "s") ∷ (endorsement [] (codes "s") ∷ []);
          spore = blank;
        }))
    × (key_name [] endorser ≡ key_name (codes "me") endorser)
unfolding with_endorsement lookup bytes_eq sporedb.Db.Collect.has_endorsed
    sporedb.Policy.pub_to_endorser sporedb.Db.hash_spore fill
anonymous-counted_twice_example =
    anonymous-counted_twice (endorsement (codes "me") (codes "s"))
      (record {
        armed = true;
        endorsements = endorsement (codes "me") (codes "s") ∷ [];
        spore = blank;
      })
      endorser [] refl refl refl refl refl refl refl
