-- ===== src/Common/ByteStrings.antt =====
-- Go strings and byte slices: both are lists of bytes, compared byte by byte.
use Prim.Native.Nat.{ℕ, ◌<◌}
use Prim.Native.Char.{code}
use Prim.Native.String.{String}
use mathlib.Core.Path.{◌≡◌, refl}
use mathlib.Core.Logic.{◌↔◌, ◌≢◌}
use mathlib.Core.Bool.{Bool, true, false, ◌||◌, ◌&&◌}
use mathlib.Core.List.{List, [], ◌∷◌, ◌++◌}
use native.Mathlib.Omega.{arith}
use sporedb.Common.Tests.{◌==◌}
use sporedb.Common.Lists.{All}

abbrev pub Bytes : Type 0
Bytes = List ℕ

abbrev pub IsBytes : Bytes → Type 0
IsBytes = All (λ b. b < 256)

-- The code points of a text, its bytes if it is ASCII.
abbrev pub codes : String → Bytes
codes String.[] = []
codes (String.◌∷◌ c s) = code c ∷ codes s

-- `bytes.Equal`, and `==` on strings.
unfoldable pub bytes_eq : Bytes → Bytes → Bool
bytes_eq [] [] = true
bytes_eq (a ∷ as') (b ∷ bs) = a == b && bytes_eq as' bs
bytes_eq _ _ = false

pub bytes_eq_iff : (a b : Bytes) → (bytes_eq a b ≡ true) ↔ (a ≡ b)
unfolding bytes_eq
bytes_eq_iff [] [] = ground arith
bytes_eq_iff [] (b ∷ bs) = ground arith
bytes_eq_iff (a ∷ as') [] = ground arith
bytes_eq_iff (a ∷ as') (b ∷ bs) = ground (arith, bytes_eq_iff as' bs)

pub bytes_eq_refl : (a : Bytes) → bytes_eq a a ≡ true
bytes_eq_refl a = (bytes_eq_iff a a).1 refl

pub bytes_eq_ne : (a b : Bytes) → a ≢ b → bytes_eq a b ≡ false
bytes_eq_ne a b h = ground (arith, bytes_eq_iff a b)

pub bytes_eq_comm : (a b : Bytes) → bytes_eq a b ≡ bytes_eq b a
bytes_eq_comm a b = ground (arith, bytes_eq_iff a b, bytes_eq_iff b a)

-- `strings.HasPrefix s prefix`
unfoldable pub has_prefix : Bytes → Bytes → Bool
has_prefix s [] = true
has_prefix [] (p ∷ ps) = false
has_prefix (c ∷ s) (p ∷ ps) = c == p && has_prefix s ps

-- `strings.Contains s sub`
unfoldable pub contains_bytes : Bytes → Bytes → Bool
unfolding has_prefix
contains_bytes [] sub = has_prefix [] sub
contains_bytes (c ∷ s) sub = has_prefix (c ∷ s) sub || contains_bytes s sub

pub has_prefix-append : (p s : Bytes) → has_prefix (p ++ s) p ≡ true
unfolding has_prefix
has_prefix-append [] s = refl
has_prefix-append (c ∷ p) s = ground (arith, has_prefix-append p s)
