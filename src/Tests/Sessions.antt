-- ===== src/Tests/Sessions.antt =====
-- A handshake at small inputs: keys that are added, and a stream that swaps 0 and 1.
use sporedb.Common.{
  ℕ, ◌+◌, ◌==◌, ◌≡◌, ◌↔◌, refl, arith, true, some, List, [], ◌∷◌, length, Bytes, codes, bytes_eq,
  ap, Result, ok, err, if◌then◌else◌, unknown_identity,
}
use sporedb.Version.{zeros}
use sporedb.World.{KeyRing}
use sporedb.Myc.Session.{Hello, SessionCrypto, Session, new_session, hello, verify, open_session}
use sporedb.Myc.Session.Greeting.{IsGenuine, verify-IsGenuine}
use sporedb.Myc.Session.Channel.{SessionLaws, write_all, read_all, open_session-reflects}
use sporedb.Myc.Session.Handshake.{handshake-delivers}

abbrev head : Bytes → ℕ
head [] = 0
head (x ∷ _) = x

abbrev swap : ℕ → ℕ
swap x = if x == 0 then 1 else if x == 1 then 0 else x

abbrev swap_all : Bytes → Bytes → Bytes
swap_all key [] = []
swap_all key (x ∷ b) = (if head key == 0 then x else swap x) ∷ swap_all key b

swap_swap : (key : Bytes) (b : Bytes) → swap_all key (swap_all key b) ≡ b
swap_swap key [] = refl
swap_swap key (x ∷ b) = ground (arith, swap_swap key b)

length-swap_all : (key : Bytes) (b : Bytes) → length (swap_all key b) ≡ length b
length-swap_all key [] = refl
length-swap_all key (x ∷ b) = omega (arith, length-swap_all key b)

abbrev sums : SessionCrypto
sums = record {
  base_mult = λ a. head a ∷ zeros 31;
  mult = λ a b. (head a + head b) ∷ [];
  xor_key_stream = λ key iv o b. swap_all key b;
  marshal_hello = λ h. ok h.public_key;
}

sums_laws : SessionLaws sums
sums_laws = record {
  mult_comm = λ a b. ap (λ n. n ∷ []) (omega arith);
  involutive = λ key iv o b. swap_swap key b;
  length-xor_key_stream = λ key iv o b. length-swap_all key b;
}

-- A key ring that knows one name
abbrev one_name : KeyRing (Unit {0})
one_name = record {
  sign = λ _ b. ok b;
  get_public = λ _ identity. ok identity;
  verify = λ _ from _ _. if bytes_eq from (codes "a") then ok tt else err unknown_identity;
}

abbrev greeting : Bytes → Hello
greeting identity = record {
  version = 1;
  identity = identity;
  seconds = 90;
  public_key = zeros 32;
  signature = [];
}

verify-IsGenuine_example :
    ((verify sums one_name 100 (some (greeting (codes "a"))) tt (new_session (codes "b"))).0.trusted
      ≡ true)
    ↔ IsGenuine sums one_name 100 (greeting (codes "a")) tt
unfolding new_session
verify-IsGenuine_example =
    verify-IsGenuine sums one_name 100 (greeting (codes "a")) tt (new_session (codes "b"))
      (omega arith) (omega arith) (omega arith) refl

-- A session that has had a genuine greeting
abbrev greeted : Session
greeted = (verify sums one_name 100 (some (greeting (codes "a"))) tt (new_session (codes "b"))).0

open_session-reflects_example :
    (sent : List Bytes) × (write_all sums ((7 ∷ []) ∷ []) (open_session sums greeted) ≡ ok sent)
    × (read_all sums sent (open_session sums greeted) ≡ ok ((7 ∷ []) ∷ []))
open_session-reflects_example = open_session-reflects sums ((7 ∷ []) ∷ []) greeted sums_laws

-- The greeting of `a`, whose random bytes are given, and that of `b`
abbrev from_a : Hello
from_a = record (greeting (codes "a")) {
  seconds = 100;
  public_key = 8 ∷ zeros 31;
  signature = 8 ∷ zeros 31;
}

abbrev from_b : Hello
from_b = record (greeting (codes "b")) {
  seconds = 101;
  public_key = 16 ∷ zeros 31;
  signature = 16 ∷ zeros 31;
}

abbrev random_a : Result Bytes
random_a = ok (9 ∷ zeros 31)

abbrev random_b : Result Bytes
random_b = ok (17 ∷ zeros 31)

abbrev client : Session
client = (hello sums one_name 100 random_a tt (new_session (codes "a"))).0

abbrev server : Session
server = (verify sums one_name 101 (some from_a) tt (new_session (codes "b"))).0

handshake-delivers_example :
    let there = open_session sums (verify sums one_name 102 (some from_b) tt client).0 in
    let here = open_session sums (hello sums one_name 101 random_b tt server).0 in
    ((sent : List Bytes) × (write_all sums ((7 ∷ []) ∷ ((1 ∷ []) ∷ [])) there ≡ ok sent)
      × (read_all sums sent here ≡ ok ((7 ∷ []) ∷ ((1 ∷ []) ∷ []))))
    × ((sent : List Bytes) × (write_all sums [] here ≡ ok sent)
        × (read_all sums sent there ≡ ok []))
unfolding hello new_session verify bytes_eq
handshake-delivers_example =
    handshake-delivers sums one_name 100 101 102 random_a random_b tt tt (new_session (codes "a"))
      (new_session (codes "b")) from_a from_b ((7 ∷ []) ∷ ((1 ∷ []) ∷ [])) [] sums_laws refl refl
      refl refl
