-- ===== src/Sec/Trust.antt =====
-- The levels of trust of myc/sec/keys.go. A level is a byte.
use sporedb.Common.{
  ℕ, ◌+◌, ◌/◌, ◌%◌, ◌≤◌, ◌<◌, ◌≡◌, ◌⊎◌, arith, ltb, leb, ◌==◌, ◌&&◌, ◌||◌, Bool, true, false,
  Option, none, some, [], ◌∷◌, map, Bytes, bytes_eq, codes, if◌then◌else◌,
}

abbrev pub trust_none : ℕ
trust_none = 0

abbrev pub trust_low : ℕ
trust_low = 1

abbrev pub trust_high : ℕ
trust_high = 3

abbrev pub trust_ultimate : ℕ
trust_ultimate = 255

abbrev pub trust_threshold : ℕ
trust_threshold = trust_high

-- `trustName`
unfoldable pub trust_name : ℕ → Option Bytes
trust_name t =
    if t == trust_none
    then some (codes "none")
    else if t == trust_low
    then some (codes "low")
    else if t == trust_high
    then some (codes "high")
    else if t == trust_ultimate
    then some (codes "ultimate")
    else none

-- `strings.ToLower`, on ASCII
unfoldable pub to_lower : Bytes → Bytes
to_lower = map (λ c. if leb 65 c && leb c 90 then c + 32 else c)

-- `ParseTrust`: the level, and whether the text is the name of one.
unfoldable pub parse_trust : Bytes → ℕ × Bool
unfolding to_lower
parse_trust text =
    let name = to_lower text in
    if bytes_eq name (codes "none")
    then (trust_none, true)
    else if bytes_eq name (codes "low")
    then (trust_low, true)
    else if bytes_eq name (codes "high")
    then (trust_high, true)
    else if bytes_eq name (codes "ultimate")
    then (trust_ultimate, true)
    else (trust_none, false)

-- `strconv.Itoa`, on a byte
unfoldable pub decimal : ℕ → Bytes
decimal n =
    if ltb n 10
    then (48 + n) ∷ []
    else if ltb n 100
    then (48 + n / 10) ∷ ((48 + n % 10) ∷ [])
    else (48 + n / 100) ∷ ((48 + n / 10 % 10) ∷ ((48 + n % 10) ∷ []))

-- `TrustLevel.String`
unfoldable pub trust_string : ℕ → Bytes
unfolding trust_name decimal
trust_string t = elim (trust_name t) [ some s ↦ s | none ↦ decimal t ]

-- `TrustLevel.Min`
unfoldable pub min_trust : ℕ → ℕ → ℕ
min_trust t t2 = if ltb t t2 then t else t2

-- `TrustLevel.Add`
unfoldable pub add_trust : ℕ → ℕ → ℕ
add_trust t t2 =
    if t == trust_ultimate || t2 == trust_ultimate
    then trust_ultimate
    else if leb trust_threshold t || leb trust_threshold t2
    then trust_threshold
    else (t + t2) % 256

-- A level as far as it counts for the threshold.
abbrev pub capped : ℕ → ℕ
capped t = if leb trust_threshold t then trust_threshold else t

pub capped-add_trust : (t t2 : ℕ) → capped (add_trust t t2) ≡ capped (capped t + capped t2)
unfolding add_trust
capped-add_trust t t2 = ground arith

-- The sum of two levels is below neither, unless they are between the threshold and the highest;
-- and it is a byte.
pub add_trust_bounds :
    (t t2 : ℕ)
    → (t ≤ trust_threshold) ⊎ (t ≡ trust_ultimate)
    → (t ≤ add_trust t t2) × (add_trust t t2 < 256)
unfolding add_trust
add_trust_bounds t t2 h = ground arith

-- A level that a signer below the threshold could not give is not given by one above it either: the
-- least of the level and the signer's counts as the level does.
pub capped-min_trust : (t t2 : ℕ) → trust_threshold ≤ t2 → capped (min_trust t t2) ≡ capped t
unfolding min_trust
capped-min_trust t t2 h = ground arith

-- Of the named levels the text is read back, in lower or upper case; any other byte is written as a
-- number, which is read as the lowest level.
pub parse_trust-trust_string :
    (t : ℕ)
    → t < 256
    → parse_trust (trust_string t)
      ≡ elim (trust_name t) [ some s ↦ (t, true) | none ↦ (trust_none, false) ]
unfolding parse_trust trust_string bytes_eq
parse_trust-trust_string t h = ground arith
