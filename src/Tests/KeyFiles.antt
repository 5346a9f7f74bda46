-- ===== src/Tests/KeyFiles.antt =====
-- Files of key rings and commands on them.
use sporedb.Common.{
  ℕ, ◌≡◌, ◌⊎◌, refl, arith, some, List, [], ◌∷◌, ◌++◌, Bytes, bytes_eq, codes, lookup, ok,
  ok-injective, ap, sym, subst, inl, inr,
}
use mathlib.Core.Option
use sporedb.Sec.Trust.{trust_high, trust_name, trust_string}
use sporedb.Sec.Keys.{Key, Ring, Block, new_ring, blank_key, block_of, sign}
use sporedb.Sec.Keys.Saved.{saved, IsLevel, IsPortable}
use sporedb.Cmd.Keys.{keys_init, server_ring}
use sporedb.Cmd.Keys.Stored.{IsWritable, PrivateLaws, IsSavable, Holds, save_key_ring-saved}
use sporedb.Cmd.Keys.Meaning.{Change, levelled, removed, Names, run_changes, meanings}
use sporedb.Cmd.Keys.Changed.{run_changes-Holds}
use sporedb.Cmd.Keys.Started.{own_key, own_name, keys_init-server_ring}
use sporedb.Tests.Sec.{toy, private_block, read_block, write_block, long}

abbrev private_of : Block
private_of = private_block (9 ∷ [])

private_of-PrivateLaws : PrivateLaws toy private_of
unfolding read_block write_block bytes_eq
private_of-PrivateLaws = record { ends = refl; kind = refl; plain = λ rest. refl }

own_at : (t : ℕ) → IsLevel t → IsPortable toy (record (own_key long) { trust = t })
unfolding read_block write_block bytes_eq block_of lookup
own_at t l = record {
  level = l;
  plain = λ content e.
      subst
        (λ x.
          (rest : Bytes)
          → read_block (write_block (block_of (own_key long) x) ++ rest)
            ≡ (some (block_of (own_key long) x), rest))
        (ok-injective e) (λ rest. refl);
  json = λ content e. ap (λ x. ok (x, [])) (ok-injective (sym e));
}

own-IsWritable : IsWritable toy (own_key long)
unfolding trust_name
own-IsWritable = record {
  level = (omega arith, refl);
  portable = own_at;
  content = long;
  written = refl;
  size = refl;
}

-- The key of a peer with a level
abbrev peer : ℕ → Key
peer t = record blank_key { public = long; identity = codes "a"; trust = t }

levels : (t : ℕ) → IsLevel t → (t ≡ 0) ⊎ (t ≡ 1) ⊎ (t ≡ 3) ⊎ (t ≡ 255)
unfolding trust_name
levels t l = ground (arith, l.1)

peer_plain :
    (t : ℕ)
    → IsLevel t
    → (rest : Bytes)
    → read_block (write_block (block_of (peer t) long) ++ rest)
      ≡ (some (block_of (peer t) long), rest)
unfolding read_block write_block bytes_eq block_of lookup trust_string trust_name
peer_plain t l rest = elim (levels t l) [
  | inl e ↦ subst back (sym e) refl
  | inr (inl e) ↦ subst back (sym e) refl
  | inr (inr (inl e)) ↦ subst back (sym e) refl
  | inr (inr (inr e)) ↦ subst back (sym e) refl
]
  where
    back : ℕ → Type 0
    back n =
        read_block (write_block (block_of (peer n) long) ++ rest)
        ≡ (some (block_of (peer n) long), rest)

peer_at : (t : ℕ) → IsLevel t → IsPortable toy (peer t)
peer_at t l = record {
  level = l;
  plain = λ content e.
      subst
        (λ x.
          (rest : Bytes)
          → read_block (write_block (block_of (peer t) x) ++ rest)
            ≡ (some (block_of (peer t) x), rest))
        (ok-injective e) (peer_plain t l);
  json = λ content e. ap (λ x. ok (x, [])) (ok-injective (sym e));
}

peer-IsWritable : IsWritable toy (peer trust_high)
unfolding trust_name
peer-IsWritable = record {
  level = (omega arith, refl);
  portable = peer_at;
  content = long;
  written = refl;
  size = refl;
}

-- A key ring with its own key and the key of a peer
abbrev pair : Ring
pair = record new_ring {
  keys = ([], own_key long) ∷ ((codes "a", peer trust_high) ∷ []);
  armored_secret = some private_of;
}

pair-IsSavable : IsSavable toy private_of pair
unfolding lookup bytes_eq
pair-IsSavable = record {
  keys = record { unique = (refl, (refl, tt)); named = (refl, (refl, tt)); own = refl };
  writable = (own-IsWritable, (peer-IsWritable, tt));
  armored = refl;
}

abbrev of_pair : Names
of_pair name = lookup name pair.keys

-- The file of that key ring
stored :
    (raw : Bytes) × (sporedb.Cmd.Keys.save_key_ring toy pair ≡ ok raw)
    × Holds toy private_of raw of_pair
stored =
    save_key_ring-saved toy private_of private_of-PrivateLaws pair of_pair pair-IsSavable
      (λ name. refl)

abbrev two_changes : List Change
two_changes = levelled (codes "a" ∷ (codes "low" ∷ [])) ∷ (removed (codes "b" ∷ []) ∷ [])

run_changes-Holds_example :
    Holds toy private_of (run_changes toy two_changes stored.0) (meanings two_changes of_pair)
run_changes-Holds_example =
    run_changes-Holds toy private_of private_of-PrivateLaws two_changes stored.0 of_pair stored.2

keys_init-server_ring_example :
    (raw : Bytes) × (k : Ring) × (keys_init toy (codes "pw") long (9 ∷ []) ≡ ok raw)
    × (server_ring toy (codes "pw") raw ≡ ok k)
    × ((text : Bytes) → sign toy k text ≡ toy.sign (9 ∷ []) text)
    × ((name : Bytes) → lookup name k.keys ≡ Option.map saved (own_name long name))
keys_init-server_ring_example =
    keys_init-server_ring toy (codes "pw") long (9 ∷ []) private_of refl refl refl
      private_of-PrivateLaws own-IsWritable refl
