-- ===== src/Encryption.antt =====
-- common/crypto/encryption.service.ts: encrypted texts as they are stored, and digests. AES and SHA-256
-- are Node's, with the key of the service; bytes are numbers below 256.
pub mod RoundTrip
use Prim.Native.Char.{Char, code}
use Prim.Native.String
use Prim.Native.String.append
use gracon_user_auth_service.Common.{
  ℕ, zero, suc, ◌+◌, ◌-◌, ◌*◌, ◌/◌, ◌%◌, ◌≤◌, ◌<◌, ◌≡◌, ◌≢◌, refl, sym, ap, subst, ◌∙◌, ◌⊎◌, ◌↔◌,
  inl, inr, arith, Bool, true, false, not, ◌&&◌, ◌||◌, Option, none, some, List, [], ◌∷◌, ◌++◌, map,
  String, str_eq, str_eq_iff, ltb, leb, ◌==◌, if◌then◌else◌, truthy, is_some, or_else, substring,
  ◌⁺⁺◌, trim, split, codes, decimal, Bool-cases, Option-cases, All, length, find, select,
  update_where, take, drop, contains, ==_iff, ==_refl, &&-eq-true,
}

abbrev pub Bytes : Type 0
Bytes = List ℕ

abbrev pub AreBytes : Bytes → Type 0
AreBytes = All (λ b. b < 256)

-- AES-256-CBC under the key, which undoes itself with the same vector, and SHA-256.
pub record Crypto : Type 0 where
  pub cipher : Bytes → String → Bytes
  pub decipher : Bytes → Bytes → Option String
  pub sha256 : String → Bytes
  pub cipher_bytes : (iv : Bytes) (s : String) → AreBytes (cipher iv s)
  pub decipher-cipher : (iv : Bytes) (s : String) → decipher iv (cipher iv s) ≡ some s
  pub sha256_bytes : (s : String) → AreBytes (sha256 s)

-- A digit of a number below 16.
unfoldable pub hex_char : ℕ → Char
hex_char n =
    if n == 0
    then "0"
    else if n == 1
    then "1"
    else if n == 2
    then "2"
    else if n == 3
    then "3"
    else if n == 4
    then "4"
    else if n == 5
    then "5"
    else if n == 6
    then "6"
    else if n == 7
    then "7"
    else if n == 8
    then "8"
    else if n == 9
    then "9"
    else if n == 10
    then "a"
    else if n == 11
    then "b"
    else if n == 12
    then "c"
    else if n == 13
    then "d"
    else if n == 14
    then "e"
    else "f"

-- `toString('hex')`
unfoldable pub to_hex : Bytes → String
unfolding hex_char
to_hex [] = String.[]
to_hex (b ∷ bs) = String.◌∷◌ (hex_char (b / 16)) (String.◌∷◌ (hex_char (b % 16)) (to_hex bs))

unfoldable pub hex_value : ℕ → Option ℕ
hex_value c =
    if leb b'0' c && leb c b'9'
    then some (c - b'0')
    else if leb b'a' c && leb c b'f'
    then some (c - b'a' + 10)
    else if leb b'A' c && leb c b'F'
    then some (c - b'A' + 10)
    else none

abbrev pub byte_of : Option ℕ → Option ℕ → Option ℕ
byte_of (some h) (some l) = some (h * 16 + l)
byte_of _ _ = none

-- `Buffer.from(text, 'hex')`, which ends at the first pair that is no byte.
unfoldable pub from_hex : String → Bytes
unfolding hex_value
from_hex String.[] = []
from_hex (String.◌∷◌ c String.[]) = []
from_hex (String.◌∷◌ c (String.◌∷◌ d s)) =
    let rest = from_hex s in
    elim (byte_of (hex_value (code c)) (hex_value (code d))) [ none ↦ [] | some b ↦ b ∷ rest ]

abbrev pub same_bytes : Bytes → Bytes → Bool
same_bytes [] [] = true
same_bytes (a ∷ left) (b ∷ right) = (a == b) && same_bytes left right
same_bytes _ _ = false

-- `timingSafeEqual`, which throws when the lengths differ.
abbrev pub timing_safe_equal : Bytes → Bytes → Option Bool
timing_safe_equal own other =
    if length own == length other then some (same_bytes own other) else none

module _ (crypto : Crypto) where
  open crypto use {cipher, decipher, sha256}

  -- `encrypt`, given the vector.
  unfoldable pub encrypt : Bytes → String → String
  unfolding to_hex
  encrypt iv plain_text = to_hex iv ⁺⁺ (":" ⁺⁺ to_hex (cipher iv plain_text))

  abbrev pub decrypt_parts : List String → Option String
  decrypt_parts [] = none
  decrypt_parts (_ ∷ []) = none
  decrypt_parts (iv ∷ encrypted ∷ _) = decipher (from_hex iv) (from_hex encrypted)

  -- `decrypt`; there is no text if a part is missing or the bytes were not encrypted.
  unfoldable pub decrypt : String → Option String
  unfolding split from_hex
  decrypt encrypted_text = decrypt_parts (split b':' encrypted_text)

  unfoldable pub hash : String → String
  unfolding to_hex
  hash value = to_hex (sha256 value)

  -- `compareHash`
  unfoldable pub compare_hash : String → String → Option Bool
  unfolding hash from_hex
  compare_hash plain_value stored =
      timing_safe_equal (from_hex (hash plain_value)) (from_hex stored)
