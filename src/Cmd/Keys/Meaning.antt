-- ===== src/Cmd/Keys/Meaning.antt =====
-- The commands `trust` and `rm` on a file, and what they mean for the names and the keys.
use sporedb.Common.{
  ℕ, zero, suc, ◌≡◌, ◌⊎◌, refl, arith, false, Bool-cases, Option, none, List, [], ◌∷◌, length, ◌==◌,
  Bytes, bytes_eq, Error, Result, ok, err, panic, stuck, ◌>>=◌, ap, ◌∙◌, inl, inr, if◌then◌else◌,
}
use mathlib.Core.Option
use sporedb.Sec.Trust.{trust_name, parse_trust}
use sporedb.Sec.Keys.{Key, Crypto}
use sporedb.Sec.Keys.Saved.{IsLevel}
use sporedb.Cmd.Keys.{
  usage, unknown_level, get_arg, get_identity, level_of, keys_trust, keys_remove,
}

-- A command with its arguments
pub data Change : Type 0 where
  levelled removed : List Bytes → Change

-- The command: what the file holds then
abbrev pub change_file : Crypto → Change → Bytes → Result Bytes
change_file c (levelled args) raw = keys_trust c args raw
change_file c (removed args) raw = keys_remove c args raw

-- A command that ends with an error leaves the file as it is.
abbrev pub run_change : Crypto → Change → Bytes → Bytes
run_change c change raw = elim (change_file c change raw) [
  | ok x ↦ x
  | err e ↦ raw
  | panic ↦ raw
  | stuck ↦ raw
]

abbrev pub run_changes : Crypto → List Change → Bytes → Bytes
run_changes c [] raw = raw
run_changes c (change ∷ changes) raw = run_changes c changes (run_change c change raw)

-- The names and the keys, without a file
abbrev pub Names : Type 0
Names = Bytes → Option Key

abbrev pub levelled_key : ℕ → Key → Key
levelled_key t key = record key { trust = t }

abbrev pub with_level : Bytes → ℕ → Names → Names
with_level identity t known name =
    if bytes_eq identity name then Option.map (levelled_key t) (known name) else known name

abbrev pub without : Bytes → Names → Names
without identity known name = if bytes_eq identity name then none else known name

-- What the commands mean: `trust` gives a key that is there the level, if it is one, and `rm` takes
-- a key away. The own key, whose name is empty, cannot be named.
abbrev pub meaning : Change → Names → Names
meaning (levelled args) known = elim (get_identity args) as (λ _. Names) [
  | ok identity ↦ elim (get_arg args 1 >>= level_of) as (λ _. Names) [
    | ok t ↦ with_level identity t known
    | err e ↦ known
    | panic ↦ known
    | stuck ↦ known
  ]
  | err e ↦ known
  | panic ↦ known
  | stuck ↦ known
]
meaning (removed args) known = elim (get_identity args) as (λ _. Names) [
  | ok identity ↦ without identity known
  | err e ↦ known
  | panic ↦ known
  | stuck ↦ known
]

abbrev pub meanings : List Change → Names → Names
meanings [] known = known
meanings (change ∷ changes) known = meanings changes (meaning change known)

pub get_arg-ne :
    (args : List Bytes) (i : ℕ) (b : Bytes) → get_arg args i ≡ ok b → (length b == 0) ≡ false
unfolding get_arg
get_arg-ne [] i b e = cc
get_arg-ne (arg ∷ args) zero b e = ground arith
get_arg-ne (arg ∷ args) (suc i) b e = get_arg-ne args i b e

pub get_arg-cases :
    (args : List Bytes) (i : ℕ)
    → ((b : Bytes) × (get_arg args i ≡ ok b)) ⊎ ((e : Error) × (get_arg args i ≡ err e))
unfolding get_arg
get_arg-cases [] i = inr (usage, refl)
get_arg-cases (arg ∷ args) zero = elim (Bool-cases (length arg == 0)) [
  | inl x ↦ inr (usage, rw (x, get_arg) refl)
  | inr x ↦ inl (arg, rw (x, get_arg) refl)
]
get_arg-cases (arg ∷ args) (suc i) = get_arg-cases args i

level_of-IsLevel : (text : Bytes) (t : ℕ) → level_of text ≡ ok t → IsLevel t
unfolding level_of parse_trust trust_name
level_of-IsLevel text t e = ground arith

level_of-cases :
    (text : Bytes) → ((t : ℕ) × (level_of text ≡ ok t)) ⊎ ((e : Error) × (level_of text ≡ err e))
unfolding level_of
level_of-cases text = elim (Bool-cases (parse_trust text).1) [
  | inl x ↦ inl ((parse_trust text).0, rw (x, level_of) refl)
  | inr x ↦ inr (unknown_level, rw (x, level_of) refl)
]

pub level_arg-cases :
    (args : List Bytes)
    → ((t : ℕ) × ((get_arg args 1 >>= level_of) ≡ ok t) × IsLevel t)
      ⊎ ((e : Error) × ((get_arg args 1 >>= level_of) ≡ err e))
level_arg-cases args = elim (get_arg-cases args 1) [
  | inl (text, x) ↦ elim (level_of-cases text) [
    | inl (t, y) ↦ inl (t, ap (λ r. r >>= level_of) x ∙ y, level_of-IsLevel text t y)
    | inr (e, y) ↦ inr (e, ap (λ r. r >>= level_of) x ∙ y)
  ]
  | inr (e, x) ↦ inr (e, ap (λ r. r >>= level_of) x)
]
