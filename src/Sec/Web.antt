-- ===== src/Sec/Web.antt =====
-- The web of trust of myc/sec/ed25519_trust.go: `buildTrustWeb` lets the keys that are trusted
-- enough pass their trust on to those that they have signed, until no more keys are.
pub mod Measures
pub mod Scan
pub mod Steady
pub mod Loop
pub mod Earned
pub mod Kept
use sporedb.Common.{
  ℕ, zero, suc, leb, Bool, true, false, not, Option, none, some, List, [], ◌∷◌, ◌++◌, length, Bytes,
  GoMap, lookup, insert, Result, ok, err, panic, stuck, if◌then◌else◌,
}
use sporedb.Sec.Trust.{trust_threshold, min_trust, add_trust}
use sporedb.Sec.Keys.{Signature, Key, Ring}

-- The variables of `buildTrustWeb`. The queue has the names of keys.
pub record Web : Type 0 where
  pub keys : GoMap Key
  pub queue : List Bytes
  pub visited : GoMap Bool

-- `visited[identity]`
abbrev pub is_visited : Bytes → GoMap Bool → Bool
is_visited identity visited = elim (lookup identity visited) [ none ↦ false | some b ↦ b ]

-- A key before any signature counts
unfoldable pub reset_key : Key → Key
reset_key key = record key { effective_trust = key.trust; signed_by = [] }

-- The first loop, over the keys that are left
unfoldable pub start_web : GoMap Key → Web
unfolding reset_key
start_web [] = record { keys = []; queue = []; visited = [] }
start_web ((name, key) ∷ keys) =
    let w = start_web keys in
    let kept = (name, reset_key key) ∷ w.keys in
    if leb trust_threshold key.trust
    then record {
      keys = kept;
      queue = name ∷ w.queue;
      visited = insert key.identity true w.visited;
    }
    else record w { keys = kept }

-- `k.keys[name].effectiveTrust`, of a key in the queue
abbrev pub effective : Bytes → GoMap Key → ℕ
effective name keys = elim (lookup name keys) [ none ↦ 0 | some key ↦ key.effective_trust ]

-- A key that can be trusted for the first time is put into the queue.
unfoldable pub enqueue : Bytes → ℕ → Web → Web
enqueue signee level w =
    if leb trust_threshold level
    then if is_visited signee w.visited
      then w
      else record w { queue = w.queue ++ (signee ∷ []); visited = insert signee true w.visited }
    else w

-- The body of the loop over the signatures of the current key
unfoldable pub count_signature : Bytes → Bytes → Signature → Web → Web
unfolding enqueue
count_signature current signee signature w = elim (lookup signee w.keys) [
  | none ↦ w
  | some key ↦
      let level =
        add_trust key.effective_trust (min_trust signature.trust (effective current w.keys)) in
      enqueue signee level (record w {
        keys =
            insert signee
              (record key { effective_trust = level; signed_by = key.signed_by ++ (current ∷ []) })
              w.keys;
      })
]

unfoldable pub count_signatures : Bytes → GoMap Signature → Web → Web
unfolding count_signature
count_signatures current [] w = w
count_signatures current ((signee, signature) ∷ signatures) w =
    count_signatures current signatures (count_signature current signee signature w)

-- The signatures of a key in the queue
abbrev pub signatures_of : Bytes → GoMap Key → GoMap Signature
signatures_of name keys = elim (lookup name keys) [ none ↦ [] | some key ↦ key.signatures ]

-- One round of the loop over the queue, after the current key has left it
unfoldable pub visit : Bytes → List Bytes → Web → Web
unfolding count_signatures
visit current rest w =
    count_signatures current (signatures_of current w.keys) (record w { queue = rest })

unfoldable pub web_loop : ℕ → Web → Result Web
unfolding visit
web_loop zero w = elim w.queue [ [] ↦ ok w | _ ∷ _ ↦ stuck ]
web_loop (suc fuel) w = elim w.queue [
  | [] ↦ ok w
  | current ∷ rest ↦ web_loop fuel (visit current rest w)
]

-- `buildTrustWeb`
unfoldable pub build_trust_web : Ring → Result Ring
unfolding web_loop start_web
build_trust_web k = elim (web_loop (length k.keys) (start_web k.keys)) [
  | ok w ↦ ok (record k { keys = w.keys; stale = false })
  | err e ↦ err e
  | panic ↦ panic
  | stuck ↦ stuck
]
