-- ===== src/Tests/Myc.antt =====
-- Recoveries, nodes and requests at small inputs.
use sporedb.Common.{
  ℕ, ◌≡◌, length, ◌≤◌, ◌⊎◌, ◌++◌, refl, arith, Bool, true, false, Option, none, some, List, [], ◌∷◌,
  Bytes, codes, GoMap, lookup, lookup-insert, insert, bytes_eq_refl, bytes_eq, Result, ok, All,
  IsUnique, if◌then◌else◌, err, external,
}
use sporedb.Version
use sporedb.Version.{Version}
use sporedb.Myc.Recovery.{
  Raw, Recovery, Peer, Texts, Mycelium, add_answer, check_quorum, handle_catalog, get_message,
  handle_raw,
}
use sporedb.Myc.Recovery.Answer.{catalog_answer, answer_for, start_full_sync}
use sporedb.Myc.Recovery.Catalog.{Recovers, behind, handle_catalog-start_full_sync}
use sporedb.World.{World}
use sporedb.Db
use sporedb.Db.{Db}
use sporedb.BoltDb
use sporedb.Myc.Recovery.Quorum.{votes}
use sporedb.Myc.Recovery.Sound.{Fits, IsSound, answered, handle_raw_stores}
use sporedb.Myc.Recovery.Reach.{started, answer, after_event, here, next, ReachMyc-IsSound}
use sporedb.Myc.Nodes.{Node}
use sporedb.Myc.Requests.{Request, RequestCache, RequestCacheLaws}
use sporedb.Myc.Protocol.{Wire, Call, pack, unpack, unpack-pack}
use sporedb.Myc.Gossip.{Gossip, handle_gossip_request}
use sporedb.Operation.{op_add}
use sporedb.Spore.{Spore}
use sporedb.Db.Endorse.{endorse}
use sporedb.Myc.Relay.{
  Body, spore_body, endorsement_body, gossip_body, recover_body, nodes_body, Relay, send_all,
  handle_spore,
}
use sporedb.Myc.Relay.Chosen.{times}
use sporedb.Myc.Relay.Passed.{handle_spore-announces}
use sporedb.Tests.{demo, map_bucket, node, fill, two_of, spore, op}

abbrev pub texts : Texts
texts = record { version_text = Version.marshal_binary; marshal_raw = λ r. r.data' }

abbrev pub five : Raw
five = record {
  key = codes "k";
  version = Version.hashed (fill 64 (5 ∷ []));
  data' = 5 ∷ [];
  signature = fill 64 (5 ∷ []);
}

-- A node that recovers `k` from two peers, one of which has answered.
abbrev pub recovering : Mycelium demo
recovering = record {
  db = node [] [] [];
  recoveries =
      (
        codes "k",
        record { deadline = 100; answers = (codes "x", five) ∷ []; quorum = 2; stale = false },
      )
      ∷ [];
  full_sync_peer = [];
  recovery_quorum = 2;
  requested = [];
}

abbrev pub peer_y : Peer
peer_y = record { identity = codes "y"; trusted = true }

pub recovering-IsSound : IsSound recovering
unfolding sporedb.Myc.Recovery.fits_version sporedb.Common.has_prefix Version.matches Version.new
    bytes_eq fill lookup
recovering-IsSound = ((((refl, refl), tt), (refl, tt)), tt)

handle_raw_stores_example :
    ((handle_raw texts 50 peer_y five recovering).0.db ≡ recovering.db)
    ⊎ ((r : Recovery) × (x : Raw) × (store' : demo.S) × (lookup five.key recovering.recoveries
          ≡ some r)
        × (true ≡ true)
        × (demo.keys.verify tt (codes "y") (get_message texts five) five.signature ≡ ok tt)
        × (r.quorum ≤ votes texts (texts.version_text x.version) (answered peer_y five r).answers)
        × IsUnique (answered peer_y five r).answers
        × Fits demo.sha512 (codes "k") x
        × (demo.store.set recovering.db.store
              (record { key = x.key; value = x.data'; version = x.version })
            ≡ ok store')
        × ((handle_raw texts 50 peer_y five recovering).0.db
            ≡ record recovering.db { store = store' }))
handle_raw_stores_example = handle_raw_stores texts 50 peer_y five recovering recovering-IsSound

-- Signatures are the messages themselves.
abbrev unhashed : World
unhashed = record demo {
  keys = record demo.keys {
    verify = λ _ _ h signature. if bytes_eq h signature then ok tt else err (external 2);
  };
}

-- A node that has the value 5 under `k`
abbrev has_five : Db unhashed
has_five = record {
  store = (codes "k", fill 64 (5 ∷ []) ++ (5 ∷ [])) ∷ [];
  identity = codes "y";
  keyring = tt;
  messages = [];
  policies = [];
  policies_reg = [];
  waiting = [];
  staging = [];
  applied = [];
  cache = [];
  tasks = [];
}

abbrev listing : unhashed.S → Result (GoMap Version)
listing b = ok (BoltDb.list map_bucket b)

abbrev five_sent : Raw
five_sent = record five { signature = 5 ∷ [] }

abbrev waiting_for : Recovery
waiting_for = record { deadline = 100; answers = (codes "x", five) ∷ []; quorum = 2; stale = false }

abbrev recovers : Mycelium unhashed
recovers = record {
  db = record has_five { store = [] };
  recoveries = (codes "k", waiting_for) ∷ [];
  full_sync_peer = [];
  recovery_quorum = 2;
  requested = [];
}

abbrev five_catalog : GoMap Version
five_catalog = (codes "k", Version.hashed (fill 64 (5 ∷ []))) ∷ []

abbrev asking : Mycelium unhashed
asking = record recovers { recoveries = []; requested = codes "a" ∷ [] }

abbrev synced : Mycelium unhashed
synced = (start_full_sync (codes "y") (peer_y ∷ []) asking).0

abbrev synced_after : Mycelium unhashed
synced_after = (handle_catalog 7 peer_y five_catalog synced).0

unhashed-verify : (h s : Bytes) → ok h ≡ ok s → unhashed.keys.verify tt (codes "y") h s ≡ ok tt
unhashed-verify h s e = ground (arith, bytes_eq_refl h)

-- A node that asks `y` for everything, and has nothing itself.
handle_catalog-start_full_sync_example :
    ((handle_catalog 7 peer_y five_catalog synced).1 ≡ ok tt)
    × (synced_after.requested ≡ codes "a" ∷ behind unhashed [] five_catalog)
    × (synced_after.db ≡ recovers.db)
    × (synced_after.full_sync_peer ≡ [])
    × All (λ k. Recovers k synced_after) (behind unhashed [] five_catalog)
unfolding start_full_sync bytes_eq
handle_catalog-start_full_sync_example =
    handle_catalog-start_full_sync 7 (codes "y") (peer_y ∷ []) peer_y five_catalog asking refl refl
      refl

-- The same run: one key is asked for.
synced_run : synced_after.requested ≡ codes "a" ∷ (codes "k" ∷ [])
unfolding handle_catalog bytes_eq start_full_sync Version.matches BoltDb.get
    sporedb.Tests.bucket_get lookup fill
synced_run = refl

-- The request without a key is answered by the catalog.
catalog_run :
    answer_for listing texts [] has_five
    ≡ ok (some (catalog_answer ((codes "k", Version.hashed (fill 64 (5 ∷ []))) ∷ [])))
unfolding answer_for BoltDb.list BoltDb.list_loop insert Version.unmarshal_binary fill
catalog_run = refl

ReachMyc-IsSound_example : IsSound (
    after_event texts 50
      (answer peer_y five)
      (after_event texts 40 (started (codes "l") 2) recovering))
ReachMyc-IsSound_example =
    ReachMyc-IsSound texts recovering _ recovering-IsSound
      (next 50 (answer peer_y five) (next 40 (started (codes "l") 2) here))

-- Two equal answers, and a quorum of two.
abbrev agreed : Recovery
agreed = record {
  deadline = 100;
  answers = (codes "x", five) ∷ ((codes "y", five) ∷ []);
  quorum = 2;
  stale = false;
}

abbrev near : Node
near = record { address = codes "a"; identity = codes "x" }

abbrev moved : Node
moved = record { address = codes "b"; identity = codes "x" }

-- A cache that forgets nothing.
abbrev pub keep_all : RequestCache (GoMap Request)
keep_all = record { get = λ c k. lookup k c; add = λ c k r. insert k r c }

keep_all-RequestCacheLaws : RequestCacheLaws keep_all
keep_all-RequestCacheLaws = record {
  get-add = λ c k r. ground (arith, lookup-insert k k r c, bytes_eq_refl k);
}

-- Messages of bytes
abbrev plain : Wire Bytes
plain = record { marshal = λ m. ok m; unmarshal = λ f b. ok b }

abbrev call : Call Bytes
call = record { f = 2; m = 7 ∷ (8 ∷ []) }

unpack-pack_example :
    (packed : Bytes) × (pack plain call ≡ ok packed)
    × (unpack plain (packed ++ (1 ∷ [])) ≡ ok (call, 1 ∷ []))
unfolding sporedb.Myc.Protocol.has_type
unpack-pack_example = unpack-pack plain call (7 ∷ (8 ∷ [])) (1 ∷ []) refl refl refl (omega arith)

abbrev proposal : Gossip
proposal = record { request = false; spores = codes "s" ∷ (codes "t" ∷ []) }

-- A node with three peers, the second of which is not ready; a spore comes from the first.
abbrev relaying : Relay demo (GoMap Request)
relaying = record {
  db = node (two_of ∷ []) [] [];
  cache = [];
  ready = true ∷ (false ∷ (true ∷ []));
  fanout = 10;
  sent = [];
}

abbrev incoming : Spore
incoming = spore (codes "t") []

-- Calls are packed as a number.
unfoldable pub pack_number : Body → Result Bytes
pack_number (spore_body s) = ok (2 ∷ [])
pack_number (endorsement_body e) = ok (3 ∷ [])
pack_number (gossip_body g) = ok (6 ∷ [])
pack_number (recover_body k) = ok (4 ∷ [])
pack_number (nodes_body l) = ok (7 ∷ [])

incoming_endorsed : (endorse 100 incoming relaying.db).1 ≡ ok tt
unfolding endorse sporedb.Db.Endorse.verify_spore_signature bytes_eq fill
    sporedb.Db.Endorse.can_endorse sporedb.Spore.check_deadline sporedb.Operation.exec lookup
    sporedb.Operations.new_value sporedb.Encoding.Float.unmarshal_binary sporedb.BoltDb.get
    sporedb.Tests.bucket_get sporedb.Db.Usage.check sporedb.Common.has_prefix
    sporedb.Db.Usage.check_current_policy_usage sporedb.Db.Endorse.execute_endorsement
    sporedb.Policy.pub_to_endorser
incoming_endorsed = refl

handle_spore-announces_example :
    let after =
      (handle_spore keep_all pack_number 100 (2 ∷ (0 ∷ (1 ∷ []))) 0 incoming relaying).0 in
    (chosen : List ℕ) × (after.sent ≡ [] ++ send_all (6 ∷ []) chosen)
    × (times 0 chosen ≡ 0)
    × ((i : ℕ) → times i chosen ≤ times i (2 ∷ (0 ∷ (1 ∷ []))))
    × (length chosen ≡ 1)
    × (handle_gossip_request keep_all 0
          (λ g. pack_number (gossip_body g))
          (codes "t" ∷ [])
          after.cache
        ≡ (2 ∷ []) ∷ [])
unfolding pack_number
handle_spore-announces_example =
    handle_spore-announces keep_all pack_number 100 (2 ∷ (0 ∷ (1 ∷ []))) 0 incoming relaying
      (2 ∷ []) (6 ∷ []) keep_all-RequestCacheLaws (omega arith) incoming_endorsed refl refl
