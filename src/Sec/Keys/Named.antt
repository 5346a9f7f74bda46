-- ===== src/Sec/Keys/Named.antt =====
-- The keys of a ring are kept under their own names, and the ring always has its own key, which is
-- trusted the most. Here the operations of the key ring itself.
use sporedb.Common.{
  ℕ, zero, suc, ◌≡◌, refl, arith, false, not, ◌&&◌, Bool-cases, Option, none, some, Option-cases,
  [], length, Bytes, bytes_eq, bytes_eq_iff, GoMap, lookup, insert, lookup-insert, lookup-erase,
  insert-IsUnique, insert-All, erase-All, lookup-All, IsUnique, All, Result-cases, ok, ◌>>=◌, ap,
  ◌∙◌, subst, ◌≢◌, erase-IsUnique, ◌==◌, >>=-eq-ok, ok-injective, inl, inr,
}
use sporedb.Sec.Trust.{trust_none, trust_ultimate}
use sporedb.Sec.Keys.{
  Key, Ring, Crypto, Block, new_ring, public_key_size, pem_public_type, pem_private_type,
  add_public, remove_public, create_private, unlock_private, read_key, claim_key, import_block,
  import, unmarshal_loop, unmarshal_binary,
}

-- The name in the key is the one it is kept under.
abbrev pub IsNamed : Bytes × Key → Type 0
IsNamed (name, key) = key.identity ≡ name

-- The own key, under the empty name, is trusted the most.
abbrev pub own_trust : Option Key → Option ℕ
own_trust none = none
own_trust (some key) = some key.trust

pub record AreKeys (keys : GoMap Key) : Type 0 where
  pub unique : IsUnique keys
  pub named : All IsNamed keys
  pub own : own_trust (lookup [] keys) ≡ some trust_ultimate

pub insert-AreKeys :
    (name : Bytes) (key : Key) (keys : GoMap Key)
    → AreKeys keys
    → key.identity ≡ name
    → (name ≡ [] → key.trust ≡ trust_ultimate)
    → AreKeys (insert name key keys)
insert-AreKeys name key keys h e t = record {
  unique = insert-IsUnique name key keys h.unique;
  named = insert-All IsNamed name key keys h.named e;
  own = ground (arith, lookup-insert name [] key keys, bytes_eq_iff name [], h.own);
}

pub new_ring-AreKeys : AreKeys new_ring.keys
unfolding new_ring lookup bytes_eq
new_ring-AreKeys = record { unique = (refl, tt); named = (refl, tt); own = refl }

length-nil : {identity : Bytes} → (length identity == 0) ≡ false → identity ≢ []
length-nil h e = ground (arith, ap length e)

pub add_public-AreKeys :
    (identity : Bytes) (trust : ℕ) (b : Bytes) (k : Ring)
    → AreKeys k.keys
    → AreKeys (add_public identity trust b k).0.keys
unfolding add_public
add_public-AreKeys identity trust b k h = elim (Bool-cases (length identity == 0)) [
  | inl x ↦ rw (x, add_public) h
  | inr x ↦ elim (Bool-cases (length b == public_key_size)) [
    | inl y ↦
        rw (x, y, add_public)
          (insert-AreKeys identity _ k.keys h refl (λ e. absurd (length-nil x e)))
    | inr y ↦ rw (x, y, add_public) h
  ]
]

pub remove_public-AreKeys :
    (identity : Bytes) (k : Ring) → AreKeys k.keys → AreKeys (remove_public identity k).keys
unfolding remove_public
remove_public-AreKeys identity k h = elim (Bool-cases (length identity == 0)) [
  | inl x ↦ rw (x, remove_public) h
  | inr x ↦
      rw (x, remove_public)
        (record {
          unique = erase-IsUnique identity k.keys h.unique;
          named = erase-All IsNamed identity k.keys h.named;
          own = ground (
            arith,
            lookup-erase identity [] k.keys,
            bytes_eq_iff identity [],
            length-nil x,
            h.own,
          );
        })
]

pub unlock_private-AreKeys :
    (c : Crypto) (password : Bytes) (k : Ring)
    → AreKeys k.keys
    → AreKeys (unlock_private c password k).0.keys
unfolding unlock_private
unlock_private-AreKeys c password k h = ground arith

pub create_private-AreKeys :
    (c : Crypto) (public secret password : Bytes) (k : Ring)
    → AreKeys k.keys
    → AreKeys (create_private c public secret password k).0.keys
unfolding create_private
create_private-AreKeys c public secret password k h = elim (Option-cases (lookup [] k.keys)) [
  | inl x ↦ rw (x, create_private) h
  | inr (own, x) ↦ elim (Result-cases (c.lock secret)) [
    | inl (l, z) ↦ elim (Result-cases (c.encrypt l password)) [
      | inl (b, y) ↦ rw (x, z, y, create_private) (created own x)
      | inr (inl (e, y)) ↦ rw (x, z, y, create_private) (created own x)
      | inr (inr (inl y)) ↦ rw (x, z, y, create_private) (created own x)
      | inr (inr (inr y)) ↦ rw (x, z, y, create_private) (created own x)
    ]
    | inr (inl (e, z)) ↦ rw (x, z, create_private) (created own x)
    | inr (inr (inl z)) ↦ rw (x, z, create_private) (created own x)
    | inr (inr (inr z)) ↦ rw (x, z, create_private) (created own x)
  ]
]
  where
    created :
        (own : Key)
        → lookup [] k.keys ≡ some own
        → AreKeys (insert [] (record own { public = public }) k.keys)
    created own x =
        insert-AreKeys [] _ k.keys h (lookup-All IsNamed [] own k.keys h.named x)
          (λ _. ground (arith, h.own, x))

read_key-own :
    (c : Crypto) (b : Block) (key : Key)
    → read_key c b ≡ ok key
    → key.identity ≡ []
    → key.trust ≡ trust_ultimate
unfolding read_key
read_key-own c b key e own = elim (Result-cases (c.unmarshal_key b.content)) [
  | inl (p, x) ↦
      let r = ok-injective (rw (x, read_key) at e) in
      ground (arith, ap (λ (y : Key). y.trust) r, ap (λ (y : Key). y.identity) r, own)
  | inr (inl (x, y)) ↦ let z = rw (y, read_key) at e in cc
  | inr (inr (inl x)) ↦ let z = rw (x, read_key) at e in cc
  | inr (inr (inr x)) ↦ let z = rw (x, read_key) at e in cc
]

claim_key-own :
    (identity : Bytes) (trust : ℕ) (k key : Key)
    → claim_key identity trust k ≡ ok key
    → key.identity ≡ []
    → k ≡ key
unfolding claim_key
claim_key-own identity trust k key e own = elim (Bool-cases (length identity == 0)) [
  | inl x ↦ ok-injective (rw (x, claim_key) at e)
  | inr x ↦ elim (Bool-cases (not (length k.identity == 0) && not (bytes_eq k.identity identity))) [
    | inl y ↦ let z = rw (x, y, claim_key) at e in cc
    | inr y ↦
        let z = ok-injective (rw (x, y, claim_key) at e) in
        absurd (length-nil x (ap (λ (r : Key). r.identity) z ∙ own))
  ]
]

claimed_key :
    (c : Crypto) (b : Block) (identity : Bytes) (trust : ℕ) (key : Key)
    → (read_key c b >>= claim_key identity trust) ≡ ok key
    → key.identity ≡ []
    → key.trust ≡ trust_ultimate
claimed_key c b identity trust key e own =
    let (k, r, q) = >>=-eq-ok (read_key c b) (claim_key identity trust) key e in
    read_key-own c b key
      (subst (λ x. read_key c b ≡ ok x) (claim_key-own identity trust k key q own) r) own

pub import_block-AreKeys :
    (c : Crypto) (b : Block) (identity : Bytes) (trust : ℕ) (k : Ring)
    → AreKeys k.keys
    → AreKeys (import_block c b identity trust k).0.keys
unfolding import_block
import_block-AreKeys c b identity trust k h = elim (Bool-cases (bytes_eq b.kind pem_private_type)) [
  | inl x ↦ elim (Bool-cases (length identity == 0)) [
    | inl y ↦ rw (x, y, import_block) h
    | inr y ↦ rw (x, y, import_block) h
  ]
  | inr x ↦ elim (Bool-cases (bytes_eq b.kind pem_public_type)) [
    | inl y ↦ elim (Result-cases (read_key c b >>= claim_key identity trust)) [
      | inl (key, z) ↦
          rw (x, y, z, import_block)
            (insert-AreKeys key.identity key k.keys h refl (claimed_key c b identity trust key z))
      | inr (inl (e, z)) ↦ rw (x, y, z, import_block) h
      | inr (inr (inl z)) ↦ rw (x, y, z, import_block) h
      | inr (inr (inr z)) ↦ rw (x, y, z, import_block) h
    ]
    | inr y ↦ rw (x, y, import_block) h
  ]
]

pub import-AreKeys :
    (c : Crypto) (input identity : Bytes) (trust : ℕ) (k : Ring)
    → AreKeys k.keys
    → AreKeys (import c input identity trust k).0.keys
unfolding import
import-AreKeys c input identity trust k h = elim (Bool-cases (length identity == 0)) [
  | inl x ↦ rw (x, import) h
  | inr x ↦ elim (Option-cases (c.pem_decode input).0) [
    | inl y ↦ rw (x, y, import) h
    | inr (b, y) ↦ rw (x, y, import) (import_block-AreKeys c b identity trust k h)
  ]
]

unmarshal_loop-AreKeys :
    (c : Crypto) (fuel : ℕ) (buffer : Bytes) (k : Ring)
    → AreKeys k.keys
    → AreKeys (unmarshal_loop c fuel buffer k).0.keys
unfolding unmarshal_loop
unmarshal_loop-AreKeys c zero buffer k h = h
unmarshal_loop-AreKeys c (suc fuel) buffer k h = elim (Bool-cases (length buffer == 0)) [
  | inl x ↦ rw (x, unmarshal_loop) h
  | inr x ↦ elim (Option-cases (c.pem_decode buffer).0) [
    | inl y ↦ rw (x, y, unmarshal_loop) h
    | inr (b, y) ↦
        rw (x, y, unmarshal_loop)
          (unmarshal_loop-AreKeys c fuel _ _ (import_block-AreKeys c b [] trust_none k h))
  ]
]

pub unmarshal_binary-AreKeys :
    (c : Crypto) (b : Bytes) (k : Ring) → AreKeys k.keys → AreKeys (unmarshal_binary c b k).0.keys
unfolding unmarshal_binary
unmarshal_binary-AreKeys c b k h = unmarshal_loop-AreKeys c (suc (length b)) b k h
