-- ===== src/Tests/Sec.antt =====
-- Key rings at small inputs, with a toy signature: the key before the text.
use sporedb.Common.{
  ◌≡◌, ◌↔◌, ◌++◌, ◌≤◌, refl, arith, ℕ, true, false, [], ◌∷◌, List, Bytes, codes, bytes_eq, lookup,
  insert, take, length, GoMap, ok, err, none, some, Option, is_some, external, if◌then◌else◌, ap,
  sym, zero, suc, ◌==◌, subst, ok-injective,
}
use mathlib.Core.Option
use sporedb.Policy.{Policy, pub_to_endorser}
use sporedb.Db.{Db, Trigger, Endorsement}
use sporedb.Db.Collect.{with_endorsement, key_name, add_endorsement_map}
use sporedb.Sec.Trust.{
  trust_none, trust_low, trust_high, trust_ultimate, trust_threshold, parse_trust, trust_string,
  add_trust, add_trust_bounds, parse_trust-trust_string,
}
use sporedb.Sec.Keys.{
  Signature, Key, Block, Ring, Crypto, blank_key, new_ring, header, pem_private_type,
  pem_public_type, block_of, marshal_binary, add_public, create_private,
}
use sporedb.Sec.Keys.Named.{AreKeys}
use sporedb.Sec.Keys.Saved.{saved, IsPortable}
use sporedb.Sec.Keys.Restored.{reread, reread-marshal_binary}
use sporedb.Sec.Web.{effective, build_trust_web}
use sporedb.Sec.Web.Measures.{frozen}
use sporedb.Sec.Web.Earned.{IsTrusted, build_trust_web-IsTrusted}
use sporedb.Sec.Ring.{add_signature, verify}
use sporedb.Sec.Ring.Reach.{IsSound, Reach-IsSound, made, added}
use sporedb.Sec.Ring.Verify.{Checks, verify-IsTrusted}
use sporedb.Sec.Ring.Filled.{IsHashOf, ring_keys, ring_world, add_endorsement_map-IsTrusted}
use sporedb.Tests.{demo, two_of, sum, endorsement, fill}

-- The bytes after the first ones
unfoldable drop : ℕ → Bytes → Bytes
drop zero b = b
drop (suc n) [] = []
drop (suc n) (x ∷ b) = drop n b

-- A block is written as its parts, each behind its length.
unfoldable pub write_block : Block → Bytes
write_block b =
    let id = header (codes "identity") b in
    let level = header (codes "trust") b in
    if bytes_eq b.kind pem_private_type
    then 0 ∷ (length b.content ∷ b.content)
    else 1 ∷ (length b.content ∷ (b.content ++ (length id ∷ (id ++ (length level ∷ level)))))

abbrev pub private_block : Bytes → Block
private_block b = record { kind = pem_private_type; headers = []; content = b }

unfoldable pub read_block : Bytes → Option Block × Bytes
unfolding drop
read_block [] = (none, [])
read_block (zero ∷ (n ∷ b)) = (some (private_block (take n b)), drop n b)
read_block (suc _ ∷ (n ∷ b)) = elim (drop n b) [
  | [] ↦ (none, b)
  | m ∷ b1 ↦ elim (drop m b1) [
    | [] ↦ (none, b)
    | l ∷ b2 ↦ (
      some (record {
        kind = pem_public_type;
        headers =
            if m == 0
            then []
            else (codes "identity", take m b1) ∷ ((codes "trust", take l b2) ∷ []);
        content = take n b;
      }),
      drop l b2,
    )
  ]
]
read_block b = (none, b)

abbrev pub toy : Crypto
toy = record {
  sign = λ secret b. ok (secret ++ b);
  verify = λ public b signature. ok (bytes_eq signature (public ++ b));
  decrypt = λ b _. ok b.content;
  encrypt = λ b _. ok (private_block b);
  pem_decode = read_block;
  pem_encode = write_block;
  marshal_key =
      λ (public, signatures). elim signatures [ [] ↦ ok public | _ ∷ _ ↦ err (external 1) ];
  lock = λ b. ok b;
  unmarshal_key = λ b. ok (b, []);
}

-- The own key signs `a`, and `a` signs `b`, which has some trust already.
abbrev signing : List (Bytes × ℕ) → GoMap Signature
signing [] = []
signing ((name, t) ∷ l) = (name, record { data' = []; trust = t }) ∷ signing l

abbrev key : Bytes → ℕ → GoMap Signature → Key
key name t signatures = record blank_key {
  identity = name;
  public = name;
  trust = t;
  signatures = signatures;
}

abbrev chained : Ring
chained = record new_ring {
  keys =
      ([], key [] trust_ultimate (signing ((codes "a", trust_high) ∷ [])))
      ∷ ((codes "a", key (codes "a") trust_none (signing ((codes "b", 2) ∷ [])))
          ∷ ((codes "b", key (codes "b") trust_low []) ∷ []));
  stale = true;
}

build_trust_web-IsTrusted_example :
    (k' : Ring) × (build_trust_web chained ≡ ok k')
    × (k'.stale ≡ false)
    × ((name : Bytes) → frozen (lookup name k'.keys) ≡ frozen (lookup name chained.keys))
    × ((name : Bytes) → (trust_threshold ≤ effective name k'.keys) ↔ IsTrusted chained.keys name)
unfolding lookup bytes_eq
build_trust_web-IsTrusted_example =
    build_trust_web-IsTrusted chained (refl, (refl, (refl, tt))) (refl, (refl, (refl, tt)))

-- A ring that was given a key
abbrev pub long : Bytes
long = codes "aaaaaaaaaaaaaaaaaaaaaaaaaaaaaaaa"

abbrev given_key : Ring
given_key = (add_public (codes "a") trust_high long new_ring).0

Reach-IsSound_example : IsSound given_key
Reach-IsSound_example =
    Reach-IsSound toy given_key (added (codes "a") trust_high long new_ring made)

verify-IsTrusted_example :
    ((verify toy (codes "a") (7 ∷ []) (long ++ (7 ∷ [])) given_key).1 ≡ ok tt)
    ↔ Checks toy (codes "a") (7 ∷ []) (long ++ (7 ∷ [])) given_key
      × IsTrusted given_key.keys (codes "a")
verify-IsTrusted_example =
    verify-IsTrusted toy given_key (codes "a") (7 ∷ []) (long ++ (7 ∷ []))
      (added (codes "a") trust_high long new_ring made)

-- The same run: the signature is accepted.
verify_run : (verify toy (codes "a") (7 ∷ []) (long ++ (7 ∷ [])) given_key).1 ≡ ok tt
unfolding verify sporedb.Sec.Ring.clear_stale add_public build_trust_web insert new_ring bytes_eq
    lookup
verify_run = refl

-- A ring with a private key and the key of a peer, as it is written
abbrev kept : Ring
kept = record new_ring {
  keys = ([], key [] trust_ultimate []) ∷ ((codes "a", key (codes "a") trust_high []) ∷ []);
  armored_secret = some (private_block (9 ∷ []));
}

kept-AreKeys : AreKeys kept.keys
unfolding lookup bytes_eq
kept-AreKeys = record { unique = (refl, (refl, tt)); named = (refl, (refl, tt)); own = refl }

own-IsPortable : IsPortable toy (key [] trust_ultimate [])
unfolding sporedb.Sec.Trust.trust_name block_of write_block read_block bytes_eq lookup
own-IsPortable = record {
  level = (omega arith, refl);
  plain = λ content e.
      subst
        (λ x.
          (rest : Bytes)
          → read_block (write_block (block_of (key [] trust_ultimate []) x) ++ rest)
            ≡ (some (block_of (key [] trust_ultimate []) x), rest))
        (ok-injective e) (λ rest. refl);
  json = λ content e. ap (λ x. ok (x, [])) (ok-injective (sym e));
}

peer-IsPortable : IsPortable toy (key (codes "a") trust_high [])
unfolding sporedb.Sec.Trust.trust_name read_block write_block bytes_eq block_of lookup trust_string
peer-IsPortable = record {
  level = (omega arith, refl);
  plain = λ content e.
      subst
        (λ x.
          (rest : Bytes)
          → read_block (write_block (block_of (key (codes "a") trust_high []) x) ++ rest)
            ≡ (some (block_of (key (codes "a") trust_high []) x), rest))
        (ok-injective e) (λ rest. refl);
  json = λ content e. ap (λ x. ok (x, [])) (ok-injective (sym e));
}

abbrev written : Bytes
written =
    write_block (private_block (9 ∷ []))
    ++ (write_block (block_of (key [] trust_ultimate []) [])
        ++ (write_block (block_of (key (codes "a") trust_high []) (codes "a")) ++ []))

reread-marshal_binary_example :
    ((reread toy written).1 ≡ ok tt)
    × ((reread toy written).0.armored_secret ≡ some (private_block (9 ∷ [])))
    × ((reread toy written).0.stale ≡ true)
    × ((name : Bytes)
        → lookup name (reread toy written).0.keys ≡ Option.map saved (lookup name kept.keys))
unfolding read_block bytes_eq write_block marshal_binary
reread-marshal_binary_example =
    reread-marshal_binary toy kept (private_block (9 ∷ [])) written kept-AreKeys
      (own-IsPortable, (peer-IsPortable, tt)) refl refl refl (λ rest. refl) refl

-- A node with that key ring, whose policy has the peer as an endorser
abbrev one_of : Policy
one_of = record two_of { endorsers = record { public = long; comment = [] } ∷ [] }

abbrev waiting_trigger : Trigger
waiting_trigger = record { armed = true; endorsements = []; spore = sum }

abbrev ring_node : Db (ring_world toy demo)
ring_node = record {
  store = [];
  identity = codes "me";
  keyring = given_key;
  messages = [];
  policies = (codes "p", one_of) ∷ [];
  policies_reg = [];
  waiting = [];
  staging = (codes "s", waiting_trigger) ∷ [];
  applied = [];
  cache = [];
  tasks = [];
}

abbrev by_peer : Endorsement
by_peer = record (endorsement (codes "a") (codes "s")) { signature = long ++ fill 64 (codes "s") }

by_peer_taken :
    (add_endorsement_map by_peer ring_node.staging ring_node).1
    ≡ ok (with_endorsement by_peer waiting_trigger)
unfolding add_endorsement_map lookup bytes_eq sporedb.Sec.Keys.get_public add_public insert new_ring
    pub_to_endorser verify sporedb.Sec.Ring.clear_stale build_trust_web fill
by_peer_taken = refl

add_endorsement_map-IsTrusted_example :
    (t : Trigger) × (pub_key : Bytes) × (lookup by_peer.uuid ring_node.staging ≡ some t)
    × ((ring_keys toy).get_public ring_node.keyring (key_name by_peer.emitter ring_node)
        ≡ ok pub_key)
    × (is_some (pub_to_endorser (lookup t.spore.policy ring_node.policies) pub_key) ≡ true)
    × (h : Bytes) × IsHashOf ring_node t.spore h
    × Checks toy (key_name by_peer.emitter ring_node) h by_peer.signature ring_node.keyring
    × IsTrusted ring_node.keyring.keys (key_name by_peer.emitter ring_node)
add_endorsement_map-IsTrusted_example =
    add_endorsement_map-IsTrusted demo toy by_peer ring_node.staging ring_node
      (with_endorsement by_peer waiting_trigger) (added (codes "a") trust_high long new_ring made)
      by_peer_taken
