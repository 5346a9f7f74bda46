-- ===== src/Cmd/Keys.antt =====
-- cmd/keys.go: the commands that change the file of a key ring.
pub mod Stored
pub mod Meaning
pub mod Removed
pub mod Levelled
pub mod Changed
pub mod Started
use sporedb.Common.{
  ℕ, zero, suc, ◌==◌, Bool, true, false, List, [], ◌∷◌, length, Bytes, Result, ok, err, panic,
  stuck, Error, ◌>>=◌, ◌>>◌, if◌then◌else◌, external,
}
use sporedb.Sec.Trust.{trust_none, parse_trust}
use sporedb.Sec.Keys.{
  Signature, Crypto, Ring, RingCall, new_ring, create_private, unlock_private, add_public,
  get_public, remove_public, export, import, marshal_binary, unmarshal_binary,
}
use sporedb.Sec.Ring.{add_signature}

-- The errors with which a command ends the process: no password, an unknown level, a missing argument
abbrev pub no_password : Error
no_password = external 20

abbrev pub unknown_level : Error
unknown_level = external 21

abbrev pub usage : Error
usage = external 22

-- A call on a key ring, whose error ends the process: the key ring that goes on
unfoldable pub check_call : {A : Type 0} → RingCall A → Result Ring
check_call (k, r) = elim r [ ok _ ↦ ok k | err e ↦ err e | panic ↦ panic | stuck ↦ stuck ]

-- `getPassword`, on what the variable of the environment holds
unfoldable pub get_password : Bytes → Result Bytes
get_password password = if length password == 0 then err no_password else ok password

-- `getArg`
unfoldable pub get_arg : List Bytes → ℕ → Result Bytes
get_arg [] i = err usage
get_arg (arg ∷ args) zero = if length arg == 0 then err usage else ok arg
get_arg (arg ∷ args) (suc i) = get_arg args i

-- `getIdentity`
unfoldable pub get_identity : List Bytes → Result Bytes
unfolding get_arg
get_identity args = get_arg args 0

-- `sec.ParseTrust`, with its error
unfoldable pub level_of : Bytes → Result ℕ
level_of text =
    let (level, known) = parse_trust text in if known then ok level else err unknown_level

module _ (c : Crypto) where
  -- `getKeyRing`, on what its file holds
  unfoldable pub get_key_ring : Bytes → Result Ring
  unfolding check_call
  get_key_ring raw = check_call (unmarshal_binary c raw new_ring)

  -- `saveKeyRing`: what the file holds then
  unfoldable pub save_key_ring : Ring → Result Bytes
  save_key_ring k = marshal_binary c k

  -- `keys init`, given the pair of keys that is made
  unfoldable pub keys_init : Bytes → Bytes → Bytes → Result Bytes
  unfolding get_password check_call save_key_ring
  keys_init password public secret = do
    p ← get_password password
    k ← check_call (create_private c public secret p new_ring)
    save_key_ring k

  -- The first argument, empty if there is none
  unfoldable pub export_arg : List Bytes → Bytes
  export_arg [] = []
  export_arg (arg ∷ args) = arg

  -- `keys export`: what is printed
  unfoldable pub keys_export : List Bytes → Bytes → Result Bytes
  unfolding get_key_ring export_arg
  keys_export args raw = get_key_ring raw >>= λ k. export c (export_arg args) k

  -- `keys import`, with the level of its flag and what stands on the standard input
  unfoldable pub keys_import : List Bytes → Bytes → Bytes → Bytes → Result Bytes
  unfolding get_key_ring get_identity level_of check_call save_key_ring
  keys_import args level input raw = do
    k ← get_key_ring raw
    identity ← get_identity args
    trust ← level_of level
    k1 ← check_call (import c input identity trust k)
    save_key_ring k1

  -- `keys rm`
  unfoldable pub keys_remove : List Bytes → Bytes → Result Bytes
  unfolding get_key_ring get_identity save_key_ring
  keys_remove args raw = do
    k ← get_key_ring raw
    identity ← get_identity args
    save_key_ring (remove_public identity k)

  -- `keys trust`
  unfoldable pub keys_trust : List Bytes → Bytes → Result Bytes
  unfolding get_key_ring get_identity level_of check_call save_key_ring
  keys_trust args raw = do
    k ← get_key_ring raw
    identity ← get_identity args
    level ← get_arg args 1
    trust ← level_of level
    known ← get_public k identity
    k1 ← check_call (add_public identity trust known.0 k)
    save_key_ring k1

  -- The signature that is nil
  abbrev pub no_signature : Signature
  no_signature = record { data' = []; trust = trust_none }

  -- `keys sign`
  unfoldable pub keys_sign : Bytes → List Bytes → Bytes → Result Bytes
  unfolding get_key_ring get_password get_identity check_call save_key_ring
  keys_sign password args raw = do
    k ← get_key_ring raw
    p ← get_password password
    identity ← get_identity args
    k1 ← check_call (unlock_private c p k)
    k2 ← check_call (add_signature c identity [] no_signature k1)
    save_key_ring k2

  -- The start of `server`: the key ring of the node, unlocked
  unfoldable pub server_ring : Bytes → Bytes → Result Ring
  unfolding get_key_ring get_password check_call
  server_ring password raw = do
    k ← get_key_ring raw
    p ← get_password password
    check_call (unlock_private c p k)
