-- ===== src/Db/Apply/Refine.antt =====
-- What `Apply` leaves in the store, key by key.
use sporedb.Common.{
  length, All, ℕ, ◌≡◌, ◌≢◌, refl, true, false, Option, none, some, List, [], ◌∷◌, Bytes, GoMap,
  lookup, insert, lookup-insert, bytes_eq, bytes_eq_ne, subst, ok-injective, bytes_eq_iff, Result,
  ok, arith, if◌then◌else◌, IsUnique, insert-IsUnique, ◌>>=◌, >>=-eq-ok, Bool-cases, ◌⊎◌, inl, inr,
  ap, ◌∙◌, sym,
}
use sporedb.Encoding.Float.{BigFloat}
use sporedb.Version
use sporedb.Version.{nil, version_bytes}
use sporedb.Operations.{Value, new_value}
use sporedb.Operation.{Operation, exec}
use sporedb.Spore.{Spore}
use sporedb.World.{IsStorable, World, Write, Reply, written, reply_of, StoreLaws}
use sporedb.Db.{Db}
use sporedb.Db.Usage.{usage_key, update_policy_usage, size_of}
use sporedb.Db.Apply.{Working, apply, batch_of, run_operations, load_value, value_writes}
use sporedb.Db.Apply.Atomic.{apply_ok}

-- A value, or the stored one where there is none.
abbrev pub or_stored : {F : Type 0} → Reply → Option (Value F) → Value F
or_stored r none = new_value r.value
or_stored r (some v) = v

-- The operations on one key, one after the other: what they leave of a value that may have been
-- worked on before. `none` is a key that no operation has named.
unfoldable pub final_value :
    {F : Type 0}
    → BigFloat F
    → Bytes
    → List Operation
    → Reply
    → Option (Value F)
    → Result (Option (Value F))
final_value fl k [] r o = ok o
final_value fl k (op ∷ ops) r o = elim (bytes_eq op.key k) [
  | true ↦ exec fl op (or_stored r o) >>= λ v. final_value fl k ops r (some v)
  | false ↦ final_value fl k ops r o
]

-- The map after a value has been loaded and run.
lookup-loaded :
    {F : Type 0} (key : Bytes) (values loaded : GoMap (Value F)) (v u : Value F) (k : Bytes)
    → (loaded ≡ values) ⊎ (loaded ≡ insert key v values)
    → lookup k (insert key u loaded) ≡ (if bytes_eq key k then some u else lookup k values)
lookup-loaded key values loaded v u k c =
    ground (arith, lookup-insert key k u loaded, lookup-insert key k v values)

loaded-IsUnique :
    {F : Type 0} (key : Bytes) (values loaded : GoMap (Value F)) (v : Value F)
    → (loaded ≡ values) ⊎ (loaded ≡ insert key v values)
    → IsUnique values
    → IsUnique loaded
loaded-IsUnique key values loaded v (inl e) u = rw e u
loaded-IsUnique key values loaded v (inr e) u = rw e (insert-IsUnique key v values u)

final_value-same :
    {F : Type 0} (fl : BigFloat F) (op : Operation) (ops : List Operation) (r : Reply)
    (o : Option (Value F)) (v0 v : Value F) (k : Bytes)
    → bytes_eq op.key k ≡ true
    → v0 ≡ or_stored r o
    → exec fl op v0 ≡ ok v
    → final_value fl k (op ∷ ops) r o ≡ final_value fl k ops r (some v)
unfolding final_value
final_value-same fl op ops r o v0 v k same from ran = ground arith

final_value-other :
    {F : Type 0} (fl : BigFloat F) (op : Operation) (ops : List Operation) (r : Reply)
    (o : Option (Value F)) (k : Bytes)
    → bytes_eq op.key k ≡ false
    → final_value fl k (op ∷ ops) r o ≡ final_value fl k ops r o
unfolding final_value
final_value-other fl op ops r o k other = ground arith

-- What the entries of the batch for the values say of a key.
abbrev pub value_reply : {F : Type 0} → (Bytes → Bytes) → Bytes → Reply → Option (Value F) → Reply
value_reply sha512 k r none = r
value_reply sha512 k r (some v) =
    reply_of (record { key = k; value = v.raw; version = Version.new sha512 v.raw })

written-other :
    (k : Bytes) (x : Write) (ws : List Write) (r : Reply)
    → x.key ≢ k
    → written k (x ∷ ws) r ≡ written k ws r
unfolding written
written-other k x ws r h = rw (bytes_eq_ne x.key k h)

written-value_writes :
    {F : Type 0} (sha512 : Bytes → Bytes) (values : GoMap (Value F)) (k : Bytes) (r : Reply)
    → IsUnique values
    → written k (value_writes sha512 values) r ≡ value_reply sha512 k r (lookup k values)
unfolding written value_writes lookup Version.new
written-value_writes sha512 [] k r u = refl
written-value_writes sha512 ((j, v) ∷ values) k r u =
    let rest =
      written-value_writes sha512 values k
        (if bytes_eq j k
          then reply_of (record { key = j; value = v.raw; version = Version.new sha512 v.raw })
          else r)
        u.1 in
    ground (arith, rest, bytes_eq_iff j k, u.0)

value_writes-IsStorable :
    {F : Type 0} (sha512 : Bytes → Bytes) (values : GoMap (Value F))
    → ((b : Bytes) → length (sha512 b) ≡ version_bytes)
    → All IsStorable (value_writes sha512 values)
unfolding value_writes Version.new Version.marshal_binary
value_writes-IsStorable sha512 [] sized = tt
value_writes-IsStorable sha512 ((k, v) ∷ values) sized =
    (sized v.raw, value_writes-IsStorable sha512 values sized)

module _ {w : World} where
  load_value-ok :
      (key : Bytes) (old : ℕ) (values : GoMap (Value w.F)) (db : Db w) (work : Working w)
      (v : Value w.F)
      → load_value key (old, values) db ≡ ok (work, v)
      → (v ≡ or_stored (w.store.get db.store key) (lookup key values))
        × ((work.1 ≡ values) ⊎ (work.1 ≡ insert key v values))
  unfolding load_value
  load_value-ok key old values db work v h = ground arith

  -- A run of the loop leaves in the map, for every key, what the key's own operations leave.
  pub run_operations-final_value :
      (ops : List Operation) (old : ℕ) (values : GoMap (Value w.F)) (db : Db w) (k : Bytes)
      (work : Working w)
      → run_operations ops (old, values) db ≡ ok work
      → final_value w.floats k ops (w.store.get db.store k) (lookup k values) ≡ ok (lookup k work.1)
  unfolding run_operations final_value
  run_operations-final_value [] old values db k work h = ground arith
  run_operations-final_value (op ∷ ops) old values db k work h =
      let (loaded, load, rest) = >>=-eq-ok (load_value op.key (old, values) db) _ work h in
      let (v', ran, tail) = >>=-eq-ok (exec w.floats op loaded.1) _ work rest in
      let (from, grown) = load_value-ok op.key old values db loaded.0 loaded.1 load in
      let onward =
        run_operations-final_value ops loaded.0.0 (insert op.key v' loaded.0.1) db k work tail in
      let found = lookup-loaded op.key values loaded.0.1 loaded.1 v' k grown in
      elim (Bool-cases (bytes_eq op.key k)) [
        | inl same ↦
            let key : op.key ≡ k = (bytes_eq_iff op.key k).0 same in
            final_value-same w.floats op ops (w.store.get db.store k) (lookup k values) loaded.1 v'
              k same (from ∙ ap (λ t. or_stored (w.store.get db.store t) (lookup t values)) key) ran
            ∙ (rw (found, same) at onward)
        | inr other ↦
            final_value-other w.floats op ops _ (lookup k values) k other
            ∙ (rw (found, other) at onward)
      ]

  run_operations-IsUnique :
      (ops : List Operation) (old : ℕ) (values : GoMap (Value w.F)) (db : Db w) (work : Working w)
      → run_operations ops (old, values) db ≡ ok work
      → IsUnique values
      → IsUnique work.1
  unfolding run_operations
  run_operations-IsUnique [] old values db work h u = subst (λ t. IsUnique t.1) (ok-injective h) u
  run_operations-IsUnique (op ∷ ops) old values db work h u =
      let (loaded, load, rest) = >>=-eq-ok (load_value op.key (old, values) db) _ work h in
      let (v', ran, tail) = >>=-eq-ok (exec w.floats op loaded.1) _ work rest in
      let (from, grown) = load_value-ok op.key old values db loaded.0 loaded.1 load in
      run_operations-IsUnique ops loaded.0.0 (insert op.key v' loaded.0.1) db work tail (
        insert-IsUnique op.key v' loaded.0.1
          (loaded-IsUnique op.key values loaded.0.1 loaded.1 grown u))

  update_policy_usage-key :
      (old new : ℕ) (policy : Bytes) (db : Db w) (r : Bytes × Bytes)
      → update_policy_usage old new policy db ≡ ok r
      → r.0 ≡ usage_key policy
  unfolding update_policy_usage
  update_policy_usage-key old new policy db r h = ground arith

  batch_of-ok :
      (s : Spore) (db : Db w) (writes : List Write)
      → batch_of s db ≡ ok writes
      → (work : Working w) × (usage : Bytes) × (run_operations s.operations (0, []) db ≡ ok work)
        × (writes
            ≡ record { key = usage_key s.policy; value = usage; version = nil }
              ∷ value_writes w.sha512 work.1)
  unfolding batch_of
  batch_of-ok s db writes h =
      let (work, run, rest) = >>=-eq-ok (run_operations s.operations (0, []) db) _ writes h in
      let (usage, used, done) =
        >>=-eq-ok (update_policy_usage work.0 (size_of work.1) s.policy db) _ writes rest in
      (
        work,
        usage.1,
        run,
        sym (ok-injective done)
            ∙ ap
                (λ t.
                  record { key = t; value = usage.1; version = nil } ∷ value_writes w.sha512 work.1)
                (update_policy_usage-key work.0 (size_of work.1) s.policy db usage used),
      )

  batch_of-IsStorable :
      (s : Spore) (db : Db w) (writes : List Write)
      → ((b : Bytes) → length (w.sha512 b) ≡ version_bytes)
      → batch_of s db ≡ ok writes
      → All IsStorable writes
  batch_of-IsStorable s db writes sized batch =
      let (work, usage, run, parts) = batch_of-ok s db writes batch in
      subst (All IsStorable) (sym parts)
        (unfold Version.marshal_binary in refl, value_writes-IsStorable w.sha512 work.1 sized)

  -- After a successful `Apply`, over a store that keeps its contract and with hashes of 64 bytes, every key but the one of the
  -- policy's usage reads as what the spore's operations on that key, one after the other, make of
  -- its old value, with the hash of that as its version; a key that no operation names reads as
  -- before.
  pub apply-final_value :
      (laws : StoreLaws w.store) (sized : (b : Bytes) → length (w.sha512 b) ≡ version_bytes)
      (now : ℕ) (s : Spore) (db : Db w) (k : Bytes)
      → (apply now s db).1 ≡ ok tt
      → k ≢ usage_key s.policy
      → (o : Option (Value w.F)) × (final_value w.floats k s.operations
            (w.store.get db.store k)
            none
          ≡ ok o)
        × (w.store.get (apply now s db).0.store k
            ≡ value_reply w.sha512 k (w.store.get db.store k) o)
  unfolding lookup
  apply-final_value laws sized now s db k h other =
      let (policy, writes, store', found, alive, fresh, batch, wrote, done) = apply_ok now s db h in
      let (work, usage, run, parts) = batch_of-ok s db writes batch in
      (
        lookup k work.1,
        run_operations-final_value s.operations 0 [] db k work run,
        ap (λ d. w.store.get d.store k) done
            ∙ laws.get-set_batch db.store store' writes k
                (batch_of-IsStorable s db writes sized batch) wrote
            ∙ ap (λ ws. written k ws (w.store.get db.store k)) parts
            ∙ written-other k (record { key = usage_key s.policy; value = usage; version = nil })
                (value_writes w.sha512 work.1) (w.store.get db.store k) (λ e. other (sym e))
            ∙ written-value_writes w.sha512 work.1 k (w.store.get db.store k)
                (run_operations-IsUnique s.operations 0 [] db work run tt),
      )
