-- ===== src/Cmd/Keys/Stored.antt =====
-- The file of a key ring: what it holds, and that a key ring that is saved is in it.
use sporedb.Common.{
  ℕ, ◌≡◌, refl, true, Option, none, some, Bytes, GoMap, bytes_eq, lookup, length, All, All-lookup,
  lookup-All, ok, ap, ◌∙◌, sym, subst, some-injective, [], ◌∷◌, ◌++◌,
}
use mathlib.Core.Option
use sporedb.Sec.Keys.{
  Key, Ring, Crypto, Block, new_ring, pem_private_type, public_key_size, export_key, export_all,
  marshal_binary, block_of,
}
use sporedb.Sec.Keys.Named.{AreKeys, new_ring-AreKeys, unmarshal_binary-AreKeys}
use sporedb.Sec.Keys.Saved.{saved, IsLevel, IsPlain, IsPortable}
use sporedb.Sec.Keys.Restored.{reread, reread-marshal_binary}
use sporedb.Cmd.Keys.{check_call, get_key_ring, save_key_ring}

-- A key of full length that JSON writes, and that PEM and JSON give back with whatever level
pub record IsWritable (c : Crypto) (key : Key) : Type 0 where
  pub level : IsLevel key.trust
  pub portable : (t : ℕ) → IsLevel t → IsPortable c (record key { trust = t })
  pub content : Bytes
  pub written : c.marshal_key (key.public, key.signatures) ≡ ok content
  pub size : length key.public ≡ public_key_size

-- What PEM does with a text without a block, and with the block of the private key
pub record PrivateLaws (c : Crypto) (b : Block) : Type 0 where
  pub ends : (c.pem_decode []).0 ≡ none
  pub kind : bytes_eq b.kind pem_private_type ≡ true
  pub plain : IsPlain c b

-- A key ring with the block of a private key that can be written
pub record IsSavable (c : Crypto) (b : Block) (k : Ring) : Type 0 where
  pub keys : AreKeys k.keys
  pub writable : All (λ (x : Bytes × Key). IsWritable c x.1) k.keys
  pub armored : k.armored_secret ≡ some b

-- The file holds the block of the private key, and under each name what the map says.
pub record Holds (c : Crypto) (b : Block) (raw : Bytes) (known : Bytes → Option Key) : Type 0 where
  pub ring : Ring
  pub loaded : get_key_ring c raw ≡ ok ring
  pub savable : IsSavable c b ring
  pub same : (name : Bytes) → lookup name ring.keys ≡ Option.map saved (known name)

-- The level of a key that was read is one that it had.
saved-IsWritable : (c : Crypto) (key : Key) → IsWritable c key → IsWritable c (saved key)
unfolding block_of
saved-IsWritable c key h = record {
  level = h.level;
  portable =
      λ t l. let p = h.portable t l in record { level = p.level; plain = p.plain; json = p.json };
  content = h.content;
  written = h.written;
  size = h.size;
}

export_all-ok :
    (c : Crypto) (keys : GoMap Key)
    → All (λ (x : Bytes × Key). IsWritable c x.1) keys
    → (raw : Bytes) × (export_all c keys ≡ ok raw)
unfolding export_all export_key
export_all-ok c [] h = ([], refl)
export_all-ok c ((name, key) ∷ keys) h =
    let (rest, e) = export_all-ok c keys h.1 in
    (c.pem_encode (block_of key h.0.content) ++ rest, rw (h.0.written, e) refl)

All-IsPortable :
    (c : Crypto) (keys : GoMap Key)
    → All (λ (x : Bytes × Key). IsWritable c x.1) keys
    → All (λ (x : Bytes × Key). IsPortable c x.1) keys
All-IsPortable c [] h = tt
All-IsPortable c ((name, key) ∷ keys) h =
    (h.0.portable key.trust h.0.level, All-IsPortable c keys h.1)

map-saved :
    (o : Option Key) (key : Key)
    → Option.map saved o ≡ some key
    → (k : Key) × (o ≡ some k) × (saved k ≡ key)
map-saved none key e = cc
map-saved (some k) key e = (k, refl, some-injective e)

map-saved-saved : (o : Option Key) → Option.map saved (Option.map saved o) ≡ Option.map saved o
map-saved-saved none = refl
map-saved-saved (some k) = refl

module _ (c : Crypto) (b : Block) (laws : PrivateLaws c b) where
  reread-IsSavable :
      (k : Ring) (raw : Bytes)
      → IsSavable c b k
      → (reread c raw).0.armored_secret ≡ some b
      → ((name : Bytes) → lookup name (reread c raw).0.keys ≡ Option.map saved (lookup name k.keys))
      → IsSavable c b (reread c raw).0
  reread-IsSavable k raw h a same =
      let keys = unmarshal_binary-AreKeys c raw new_ring new_ring-AreKeys in
      record {
        keys = keys;
        writable =
            All-lookup (λ (x : Bytes × Key). IsWritable c x.1) (reread c raw).0.keys keys.unique
              (λ name key e.
                let (old, found, eq) = map-saved (lookup name k.keys) key (sym (same name) ∙ e) in
                subst (IsWritable c) eq (
                  saved-IsWritable c old (
                    lookup-All (λ (x : Bytes × Key). IsWritable c x.1) name old k.keys h.writable
                      found)));
        armored = a;
      }

  -- A key ring that can be written is saved, and the file holds its keys then.
  pub save_key_ring-saved :
      (k : Ring) (known : Bytes → Option Key)
      → IsSavable c b k
      → ((name : Bytes) → Option.map saved (lookup name k.keys) ≡ Option.map saved (known name))
      → (raw : Bytes) × (save_key_ring c k ≡ ok raw) × Holds c b raw known
  unfolding save_key_ring marshal_binary get_key_ring check_call
  save_key_ring-saved k known h same =
      let (rest, e) = export_all-ok c k.keys h.writable in
      let raw = c.pem_encode b ++ rest in
      let m : marshal_binary c k ≡ ok raw = rw (h.armored, e, marshal_binary) refl in
      let (fine, a, stale, keys) =
        reread-marshal_binary c k b raw h.keys (All-IsPortable c k.keys h.writable) laws.ends
          h.armored laws.kind laws.plain m in
      (
        raw,
        m,
        record {
          ring = (reread c raw).0;
          loaded = rw fine refl;
          savable = reread-IsSavable k raw h a keys;
          same = λ name. keys name ∙ same name;
        },
      )

  -- The same of a key ring that was read
  pub save_key_ring-Holds :
      (k : Ring) (known : Bytes → Option Key)
      → IsSavable c b k
      → ((name : Bytes) → lookup name k.keys ≡ Option.map saved (known name))
      → (raw : Bytes) × (save_key_ring c k ≡ ok raw) × Holds c b raw known
  save_key_ring-Holds k known h same =
      save_key_ring-saved k known h
        (λ name. ap (Option.map saved) (same name) ∙ map-saved-saved (known name))
