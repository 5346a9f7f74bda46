-- ===== src/Sec/Keys/Saved.antt =====
-- The blocks of the keys that `MarshalBinary` writes, as the loop of `UnmarshalBinary` reads them.
use sporedb.Common.{
  ℕ, zero, suc, ◌<◌, ◌≡◌, ◌≢◌, inl, inr, refl, arith, Bool, true, false, Bool-cases, Option, none,
  some, Option-cases, [], ◌∷◌, ◌++◌, length, length-append, ◌==◌, Bytes, bytes_eq, bytes_eq_iff,
  codes, GoMap, lookup, insert, lookup-insert, IsUnique, All, ok, >>=-eq-ok, ok-injective, ap, ◌∙◌,
  sym, subst, is_some,
}
use sporedb.Sec.Trust.{
  trust_none, trust_ultimate, trust_name, trust_string, parse_trust, parse_trust-trust_string,
}
use sporedb.Sec.Keys.{
  Key, Ring, RingCall, Crypto, Block, header, block_of, export_key, export_all, read_key, claim_key,
  import_block, unmarshal_loop,
}
use sporedb.Sec.Keys.Named.{IsNamed}

-- What the files of a key hold
abbrev pub saved : Key → Key
saved key = record key { signed_by = []; effective_trust = trust_none }

-- A level that has a name
abbrev pub IsLevel : ℕ → Type 0
IsLevel t = (t < 256) × (is_some (trust_name t) ≡ true)

-- A block that PEM gives back, whatever follows it
abbrev pub IsPlain : Crypto → Block → Type 0
IsPlain c b = (rest : Bytes) → c.pem_decode (c.pem_encode b ++ rest) ≡ (some b, rest)

-- A key that PEM and JSON give back
pub record IsPortable (c : Crypto) (key : Key) : Type 0 where
  pub level : IsLevel key.trust
  pub plain :
      (content : Bytes)
      → c.marshal_key (key.public, key.signatures) ≡ ok content
      → IsPlain c (block_of key content)
  pub json :
      (content : Bytes)
      → c.marshal_key (key.public, key.signatures) ≡ ok content
      → c.unmarshal_key content ≡ ok (key.public, key.signatures)

-- The own key has the highest level.
abbrev pub IsOwnTrusted : Bytes × Key → Type 0
IsOwnTrusted (name, key) = key.identity ≡ [] → key.trust ≡ trust_ultimate

parse_trust-level : (t : ℕ) → IsLevel t → (parse_trust (trust_string t)).0 ≡ t
parse_trust-level t (h, l) = elim (Option-cases (trust_name t)) [
  | inl x ↦ cc
  | inr (s, x) ↦ let e = rw x at (parse_trust-trust_string t h) in ap (λ (r : ℕ × Bool). r.0) e
]

nil_of_length : (b : Bytes) → (length b == 0) ≡ true → b ≡ []
nil_of_length [] h = refl
nil_of_length (x ∷ b) h = absurd (ground arith)

header-identity :
    (key : Key) (content : Bytes) → header (codes "identity") (block_of key content) ≡ key.identity
unfolding block_of lookup bytes_eq
header-identity key content = elim (Bool-cases (length key.identity == 0)) [
  | inl x ↦ rw (x, block_of) (sym (nil_of_length key.identity x))
  | inr x ↦ rw (x, block_of) refl
]

header-trust :
    (key : Key) (content : Bytes)
    → (length key.identity == 0) ≡ false
    → header (codes "trust") (block_of key content) ≡ trust_string key.trust
unfolding block_of lookup bytes_eq
header-trust key content x = rw (x, block_of) refl

read_key-block_of :
    (c : Crypto) (key : Key) (content : Bytes)
    → IsPortable c key
    → (key.identity ≡ [] → key.trust ≡ trust_ultimate)
    → c.marshal_key (key.public, key.signatures) ≡ ok content
    → read_key c (block_of key content) ≡ ok (saved key)
unfolding read_key block_of
read_key-block_of c key content p own m = elim (Bool-cases (length key.identity == 0)) [
  | inl x ↦
      rw (p.json content m, header-identity key content, x, own (nil_of_length _ x), read_key) refl
  | inr x ↦
      rw
        (
          p.json content m,
          header-identity key content,
          header-trust key content x,
          x,
          parse_trust-level key.trust p.level,
          read_key,
        )
        refl
]

import_block-block_of :
    (c : Crypto) (key : Key) (content : Bytes) (k : Ring)
    → IsPortable c key
    → (key.identity ≡ [] → key.trust ≡ trust_ultimate)
    → c.marshal_key (key.public, key.signatures) ≡ ok content
    → import_block c (block_of key content) [] trust_none k
      ≡ (record k { keys = insert key.identity (saved key) k.keys; stale = true }, ok tt)
unfolding import_block claim_key bytes_eq block_of
import_block-block_of c key content k p own m =
    rw (read_key-block_of c key content p own m, import_block) refl

-- The ring after the blocks of the keys, in their order
abbrev pub reload : GoMap Key → Ring → Ring
reload [] k = k
reload ((_, key) ∷ keys) k =
    reload keys (record k { keys = insert key.identity (saved key) k.keys; stale = true })

pub longer_lem : (x rest : Bytes) → x ≢ [] → length rest < length (x ++ rest)
longer_lem [] rest h = absurd (h refl)
longer_lem (y ∷ x) rest h = omega (arith, length-append x rest)

-- A text without a block is empty, so a block that is read has at least a byte.
pub encoded :
    (c : Crypto) (b : Block) → (c.pem_decode []).0 ≡ none → IsPlain c b → c.pem_encode b ≢ []
encoded c b d p e =
    let r = subst (λ x. c.pem_decode (x ++ []) ≡ (some b, [])) e (p []) in
    let n = ap (λ (x : Option Block × Bytes). x.0) r in cc

-- One round reads a block that was written.
pub unmarshal_loop-next :
    (c : Crypto) (fuel : ℕ) (b : Block) (rest : Bytes) (k : Ring)
    → (c.pem_decode []).0 ≡ none
    → IsPlain c b
    → unmarshal_loop c (suc fuel) (c.pem_encode b ++ rest) k
      ≡ unmarshal_loop c fuel rest (import_block c b [] trust_none k).0
unfolding unmarshal_loop
unmarshal_loop-next c fuel b rest k d p = rw (nonempty, p rest, after, unmarshal_loop) refl
  where
    after : (c.pem_decode (c.pem_encode b ++ rest)).1 ≡ rest
    after = ap (λ (x : Option Block × Bytes). x.1) (p rest)

    nonempty : (length (c.pem_encode b ++ rest) == 0) ≡ false
    nonempty = ground (arith, longer_lem (c.pem_encode b) rest (encoded c b d p))

pub unmarshal_loop-export_all :
    (c : Crypto) (fuel : ℕ) (keys : GoMap Key) (raw : Bytes) (k : Ring)
    → (c.pem_decode []).0 ≡ none
    → All (λ (x : Bytes × Key). IsPortable c x.1) keys
    → All IsOwnTrusted keys
    → export_all c keys ≡ ok raw
    → length raw < fuel
    → unmarshal_loop c fuel raw k ≡ (reload keys k, ok tt)
unfolding export_all export_key unmarshal_loop
unmarshal_loop-export_all c zero keys raw k d p o e h = absurd (omega arith)
unmarshal_loop-export_all c (suc fuel) [] raw k d p o e h =
    rw (sym (ok-injective e), unmarshal_loop) refl
unmarshal_loop-export_all c (suc fuel) ((name, key) ∷ keys) raw k d p o e h =
    let (block, eb, e1) = >>=-eq-ok (export_key c key) _ raw e in
    let (rest, er, e2) = >>=-eq-ok (export_all c keys) _ raw e1 in
    let (content, em, e3) = >>=-eq-ok (c.marshal_key (key.public, key.signatures)) _ block eb in
    let shape : c.pem_encode (block_of key content) ++ rest ≡ raw =
      ap (λ x. x ++ rest) (ok-injective e3) ∙ ok-injective e2 in
    let plain = p.0.plain content em in
    let shorter : length rest < fuel = omega (
      arith,
      longer_lem (c.pem_encode (block_of key content)) rest
          (encoded c (block_of key content) d plain),
      ap length shape,
    ) in
    subst (λ x. unmarshal_loop c (suc fuel) x k ≡ (reload ((name, key) ∷ keys) k, ok tt)) shape
      (unmarshal_loop-next c fuel (block_of key content) rest k d plain
        ∙ (ap (λ (r : RingCall (Unit {0})). unmarshal_loop c fuel rest r.0)
              (import_block-block_of c key content k p.0 o.0 em)
            ∙ unmarshal_loop-export_all c fuel keys rest _ d p.1 o.1 er shorter))

-- The names that a map has are read back, and the others keep what the ring had.
pub lookup-reload :
    (name : Bytes) (keys : GoMap Key) (k : Ring)
    → IsUnique keys
    → All IsNamed keys
    → lookup name (reload keys k).keys ≡ elim (lookup name keys) as (λ _. Option Key) [
      | some key ↦ some (saved key)
      | none ↦ lookup name k.keys
    ]
unfolding lookup
lookup-reload name [] k u n = refl
lookup-reload name ((j, key) ∷ keys) k u n = ground (
  arith,
  lookup-reload name keys (record k { keys = insert key.identity (saved key) k.keys; stale = true })
      u.1 n.1,
  lookup-insert key.identity name (saved key) k.keys,
  u.0,
  n.0,
  bytes_eq_iff j name,
)
