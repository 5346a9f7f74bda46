-- ===== src/Quorum/Overlap.antt =====
-- Lists of public keys, and how many of them have a property.
use sporedb.Common.{
  ℕ, suc, ◌+◌, ◌≤◌, ◌<◌, ◌≡◌, Bool, true, false, ◌&&◌, ◌||◌, List, [], ◌∷◌, Bytes, bytes_eq,
  bytes_eq_iff, bytes_eq_comm, any, All, length, arith, if◌then◌else◌, Bool-cases, inl, inr, subst,
  sym,
}

abbrev pub member : Bytes → List Bytes → Bool
member x l = any (λ y. bytes_eq x y) l

abbrev pub count : (Bytes → Bool) → List Bytes → ℕ
count p [] = 0
count p (x ∷ l) = if p x then suc (count p l) else count p l

abbrev pub IsNodup : List Bytes → Type 0
IsNodup [] = Unit {0}
IsNodup (x ∷ l) = (member x l ≡ false) × IsNodup l

count-or :
    (x : Bytes) (p : Bytes → Bool) (l : List Bytes)
    → p x ≡ false
    → count p l ≤ count (λ y. bytes_eq y x || p y) l
count-or x p [] h = omega arith
count-or x p (y ∷ l) h = ground (arith, count-or x p l)

count-or-member :
    (x : Bytes) (p : Bytes → Bool) (l : List Bytes)
    → member x l ≡ true
    → p x ≡ false
    → count p l < count (λ y. bytes_eq y x || p y) l
count-or-member x p [] m h = cc
count-or-member x p (y ∷ l) m h = elim (Bool-cases (bytes_eq y x)) [
  | inl same ↦
      let not_p : p y ≡ false = subst (λ z. p z ≡ false) (sym ((bytes_eq_iff y x).0 same)) h in
      ground (arith, count-or x p l h, not_p, same)
  | inr other ↦ ground (arith, count-or-member x p l, bytes_eq_comm x y, other)
]

-- Keys without repetition, all in a list: the list has at least as many places with one of them.
pub length-le-count :
    (l es : List Bytes)
    → IsNodup l
    → All (λ x. member x es ≡ true) l
    → length l ≤ count (λ y. member y l) es
length-le-count [] es n h = omega arith
length-le-count (x ∷ l) es n h =
    omega (arith, length-le-count l es n.1 h.1, count-or-member x (λ y. member y l) es h.0 n.0)

-- Of two properties of places, some places have both.
pub overlap :
    (p q : Bytes → Bool) (es : List Bytes)
    → count p es + count q es ≤ length es + count (λ x. p x && q x) es
overlap p q [] = omega arith
overlap p q (x ∷ es) = ground (arith, overlap p q es)

-- If more places have `p` than `f`, some key has the first and not the second.
pub pick :
    (p f : Bytes → Bool) (es : List Bytes)
    → count f es < count p es
    → (x : Bytes) × (p x ≡ true) × (f x ≡ false)
pick p f [] h = absurd (omega arith)
pick p f (x ∷ es) h = elim (Bool-cases (p x)) [
  | inl has ↦ elim (Bool-cases (f x)) [
    | inl bad ↦ pick p f es (ground arith)
    | inr good ↦ (x, has, good)
  ]
  | inr lacks ↦ pick p f es (ground arith)
]
