-- ===== src/Tests/CryptoCases.antt =====
-- Encrypted texts and digests, with a cipher that writes each character in strokes.
use Prim.Native.Nat.{Ordering, compare}
use Prim.Native.Char.{Char, char, code, IsScalar, IsLt}
use gracon_user_auth_service.Common.{
  ◌↔◌, ℕ, zero, suc, ◌+◌, ◌≡◌, refl, ap, ◌∙◌, arith, true, Option, none, some, [], ◌∷◌, String,
}
use gracon_user_auth_service.Encryption.{
  Bytes, AreBytes, Crypto, hex_char, to_hex, encrypt, decrypt, hash, compare_hash,
}
use gracon_user_auth_service.Encryption.RoundTrip.{decrypt-encrypt, compare_hash-hash}

-- As many strokes as a character's number, and an end.
abbrev strokes : ℕ → Bytes → Bytes
strokes zero rest = 0 ∷ rest
strokes (suc n) rest = 1 ∷ strokes n rest

abbrev written : String → Bytes
written String.[] = []
written (String.◌∷◌ c s) = strokes (code c) (written s)

abbrev Both : Ordering → Ordering → Type 0
Both Ordering.lt o = IsLt o
Both Ordering.eq _ = ⊥
Both Ordering.gt _ = ⊥

abbrev Scalar : Ordering → Ordering → Ordering → Type 0
Scalar Ordering.lt _ _ = Unit {0}
Scalar Ordering.eq o p = Both o p
Scalar Ordering.gt o p = Both o p

less : (o : Ordering) → Option (IsLt o)
less Ordering.lt = some tt
less Ordering.eq = none
less Ordering.gt = none

both : (o p : Ordering) → Option (Both o p)
both Ordering.lt p = less p
both Ordering.eq p = none
both Ordering.gt p = none

scalar : (o p q : Ordering) → Option (Scalar o p q)
unfolding both less
scalar Ordering.lt p q = some tt
scalar Ordering.eq p q = both p q
scalar Ordering.gt p q = both p q

less_lem : (o : Ordering) (p : IsLt o) → less o ≡ some p
unfolding less
less_lem Ordering.lt p = refl
less_lem Ordering.eq p = elim p [ ]
less_lem Ordering.gt p = elim p [ ]

both_lem : (o q : Ordering) (p : Both o q) → both o q ≡ some p
unfolding both
both_lem Ordering.lt q p = less_lem q p
both_lem Ordering.eq q p = elim p [ ]
both_lem Ordering.gt q p = elim p [ ]

scalar_lem : (o q r : Ordering) (p : Scalar o q r) → scalar o q r ≡ some p
unfolding scalar
scalar_lem Ordering.lt q r p = refl
scalar_lem Ordering.eq q r p = both_lem q r p
scalar_lem Ordering.gt q r p = both_lem q r p

abbrev character : (n : ℕ) → Option (IsScalar n) → Option Char
character n none = none
character n (some p) = some (char n p)

to_char : ℕ → Option Char
unfolding scalar
to_char n = character n (scalar (compare n 55296) (compare 57343 n) (compare n 1114112))

to_char-code : (c : Char) → to_char (code c) ≡ some c
unfolding to_char
to_char-code (char n p) =
    ap (character n) (scalar_lem (compare n 55296) (compare 57343 n) (compare n 1114112) p)

abbrev joined : Option Char → Option String → Option String
joined (some c) (some s) = some (String.◌∷◌ c s)
joined _ _ = none

-- The text of the strokes, when so many were read of the first character.
read_strokes : ℕ → Bytes → Option String
unfolding to_char
read_strokes n [] = some ""
read_strokes n (zero ∷ bs) = joined (to_char n) (read_strokes 0 bs)
read_strokes n (suc _ ∷ bs) = read_strokes (suc n) bs

read_strokes-strokes :
    (n m : ℕ) (rest : Bytes)
    → read_strokes m (strokes n rest) ≡ joined (to_char (m + n)) (read_strokes 0 rest)
unfolding read_strokes
read_strokes-strokes zero m rest =
    let e : m ≡ m + 0 = omega arith in ap (λ k. joined (to_char k) (read_strokes 0 rest)) e
read_strokes-strokes (suc n) m rest =
    let e : suc m + n ≡ m + suc n = omega arith in
    read_strokes-strokes n (suc m) rest ∙ ap (λ k. joined (to_char k) (read_strokes 0 rest)) e

read_strokes-written : (s : String) → read_strokes 0 (written s) ≡ some s
unfolding read_strokes
read_strokes-written String.[] = refl
read_strokes-written (String.◌∷◌ c s) =
    let zero_first : 0 + code c ≡ code c = omega arith in
    read_strokes-strokes (code c) 0 (written s)
    ∙ ap (λ k. joined (to_char k) (read_strokes 0 (written s))) zero_first
    ∙ (λ i. joined (to_char-code c i) (read_strokes-written s i))

strokes-AreBytes : (n : ℕ) (rest : Bytes) → AreBytes rest → AreBytes (strokes n rest)
strokes-AreBytes zero rest all = (omega arith, all)
strokes-AreBytes (suc n) rest all = (omega arith, strokes-AreBytes n rest all)

written-AreBytes : (s : String) → AreBytes (written s)
written-AreBytes String.[] = tt
written-AreBytes (String.◌∷◌ c s) = strokes-AreBytes (code c) (written s) (written-AreBytes s)

unfoldable crypto : Crypto
unfolding read_strokes
crypto = record {
  cipher = λ iv s. written s;
  decipher = λ iv bytes. read_strokes 0 bytes;
  sha256 = written;
  cipher_bytes = λ iv s. written-AreBytes s;
  decipher-cipher = λ iv s. read_strokes-written s;
  sha256_bytes = written-AreBytes;
}

abbrev vector : Bytes
vector = 10 ∷ 255 ∷ []

decrypt-encrypt_example : decrypt crypto (encrypt crypto vector "a1") ≡ some "a1"
decrypt-encrypt_example = decrypt-encrypt crypto vector "a1" (omega arith, (omega arith, tt))

-- The vector is written before the colon.
encrypted_text : encrypt crypto vector (String.◌∷◌ (char 2 tt) "") ≡ "0aff:010100"
unfolding encrypt to_hex hex_char crypto
encrypted_text = refl

-- A text without a colon has no encrypted part.
no_vector : decrypt crypto "0aff" ≡ none
unfolding decrypt crypto
no_vector = refl

compare_hash-hash_example :
    (compare_hash crypto "a" (hash crypto "b") ≡ some true)
    ↔ (crypto.sha256 "a" ≡ crypto.sha256 "b")
compare_hash-hash_example = compare_hash-hash crypto "a" "b"
