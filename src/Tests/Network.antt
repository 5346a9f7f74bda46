-- ===== src/Tests/Network.antt =====
-- Calls of peers and events of the database at one node.
use sporedb.Common.{
  ◌≡◌, refl, true, none, some, List, [], ◌∷◌, Bytes, GoMap, All, Option, codes, ok, lookup, length,
}
use sporedb.Db.{Db, Trigger, endorsement_message}
use sporedb.Db.Upkeep.{ticked, handle}
use sporedb.Db.Upkeep.Emitters.{AllDistinct}
use sporedb.Db.Upkeep.Endorsers.{Vouched}
use sporedb.Myc.Requests.{Request}
use sporedb.Myc.Router.{
  From, Setting, Moment, Whole, spore_call, endorsement_call, raw_call, dispatch, Config,
  new_mycelium,
}
use sporedb.Myc.Router.Kept.{Reach, here, called, happened, Reach-AreEndorsements}
use sporedb.Tests.{demo}
use sporedb.Tests.Quorums.{start, blank, of_x}
use sporedb.Myc.Router.Effects.{Effect, dispatch-Effect}
use sporedb.Tests.Myc.{five, peer_y, recovering, recovering-IsSound, texts, keep_all, pack_number}

abbrev setting : Setting demo (GoMap Request)
setting = record {
  cache = keep_all;
  pack = pack_number;
  pack_answer = λ a. ok [];
  texts = texts;
  list = λ s. ok [];
}

abbrev at_100 : Moment
at_100 = record { now = 100; nanoseconds = 100_000_000_000; order = 1 ∷ (0 ∷ []); orders = [] }

abbrev first_peer : From
first_peer = record {
  place = 0;
  node = record { address = codes "a"; identity = codes "x" };
  peer = record { identity = codes "x"; trusted = true };
}

abbrev config : Config demo
config = record {
  own_addresses = codes "h" ∷ [];
  listen = codes "l";
  bootstrap = [];
  db = start;
  quorum = 0;
}

-- A new node, with two peers
abbrev whole : Whole demo (GoMap Request)
whole = record (new_mycelium [] config) {
  relay = record { db = start; cache = []; ready = true ∷ (true ∷ []); fanout = 10; sent = [] };
}

-- A spore, an endorsement of it twice, and a tick
abbrev has_spore : Whole demo (GoMap Request)
has_spore = (dispatch setting at_100 first_peer (spore_call blank) whole).0

abbrev has_endorsement : Whole demo (GoMap Request)
has_endorsement = (dispatch setting at_100 first_peer (endorsement_call of_x) has_spore).0

abbrev has_again : Whole demo (GoMap Request)
has_again = (dispatch setting at_100 first_peer (endorsement_call of_x) has_endorsement).0

abbrev has_ticked : Whole demo (GoMap Request)
has_ticked = record has_again {
  relay = record has_again.relay { db = (handle 101 ticked has_again.relay.db).0 };
}

network_reached : Reach setting whole has_ticked
network_reached = happened 101 ticked (
    called at_100 first_peer (endorsement_call of_x) (
      called at_100 first_peer (endorsement_call of_x)
        (called at_100 first_peer (spore_call blank) here)))

-- A node that recovers the key of an answer that comes
abbrev whole_recovering : Whole demo (GoMap Request)
whole_recovering = record whole { recoveries = recovering.recoveries }

abbrev answering : From
answering = record first_peer { peer = peer_y }

dispatch-Effect_example :
    Effect setting at_100 answering
      (raw_call five)
      whole_recovering
      (dispatch setting at_100 answering (raw_call five) whole_recovering).0.relay.db
dispatch-Effect_example =
    dispatch-Effect setting whole_recovering whole_recovering at_100 answering (raw_call five)
      recovering-IsSound here

Reach-AreEndorsements_example :
    AllDistinct has_ticked.relay.db.staging
    × AllDistinct has_ticked.relay.db.waiting
    × All (Vouched start) has_ticked.relay.db.staging
    × All (Vouched start) has_ticked.relay.db.waiting
Reach-AreEndorsements_example =
    Reach-AreEndorsements setting whole has_ticked [] (record { staging = refl; waiting = refl })
      refl network_reached

-- The same run: one endorsement is held, and the spore and the endorsement are passed on to the
-- other peer.
network_run : length has_ticked.relay.sent ≡ 2
unfolding dispatch sporedb.Myc.Relay.try_endorsement sporedb.Db.Collect.add_endorsement
    sporedb.Db.Collect.add_endorsement_map lookup sporedb.Myc.Relay.handle_spore
    sporedb.Db.Endorse.endorse sporedb.Db.Endorse.verify_spore_signature sporedb.Common.bytes_eq
    sporedb.Tests.fill sporedb.Db.Endorse.can_endorse sporedb.Spore.check_deadline
    sporedb.Db.Usage.check_current_policy_usage sporedb.Operations.value_float
    sporedb.Operations.new_value sporedb.Encoding.Float.unmarshal_binary sporedb.BoltDb.get
    sporedb.Tests.bucket_get sporedb.Db.Endorse.execute_endorsement sporedb.Policy.pub_to_endorser
    sporedb.Common.insert sporedb.Db.Collect.settle sporedb.Myc.Relay.choose pack_number
    sporedb.Myc.Relay.note_spore sporedb.Myc.Relay.broadcast sporedb.Myc.Relay.keep
network_run = refl
