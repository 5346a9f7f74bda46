-- ===== src/Cmd/Keys/Changed.antt =====
-- What a row of the commands `trust` and `rm` leaves in the file of a key ring.
use sporedb.Common.{List, [], ◌∷◌, Bytes}
use sporedb.Sec.Keys.{Crypto, Block}
use sporedb.Cmd.Keys.Stored.{PrivateLaws, Holds}
use sporedb.Cmd.Keys.Meaning.{
  Change, levelled, removed, run_change, run_changes, Names, meaning, meanings,
}
use sporedb.Cmd.Keys.Removed.{removed-Holds}
use sporedb.Cmd.Keys.Levelled.{levelled-Holds}

module _ (c : Crypto) (b : Block) (laws : PrivateLaws c b) where
  -- A file that holds the block of a private key and, under their names, keys that PEM and JSON give
  -- back: after any row of the commands `trust` and `rm`, with any arguments, it holds the block and
  -- the keys that these commands mean, with their bytes and their signatures, and can be read.
  pub run_changes-Holds :
      (changes : List Change) (raw : Bytes) (known : Names)
      → Holds c b raw known
      → Holds c b (run_changes c changes raw) (meanings changes known)
  run_changes-Holds [] raw known h = h
  run_changes-Holds (levelled args ∷ changes) raw known h =
      run_changes-Holds changes (run_change c (levelled args) raw) (meaning (levelled args) known)
        (levelled-Holds c b laws args raw known h)
  run_changes-Holds (removed args ∷ changes) raw known h =
      run_changes-Holds changes (run_change c (removed args) raw) (meaning (removed args) known)
        (removed-Holds c b laws args raw known h)
