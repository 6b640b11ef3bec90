-- ===== src/Encryption/RoundTrip.antt =====
-- common/crypto/encryption.service.ts: what is encrypted is read again, and a digest is recognised.
use Prim.Native.Char.{Char, code}
use Prim.Native.String.append
use gracon_user_auth_service.Common.{
  ℕ, zero, suc, ◌+◌, ◌*◌, ◌/◌, ◌%◌, ◌<◌, ◌≡◌, refl, sym, ap, subst, ◌∙◌, ◌↔◌, inl, inr, arith, Bool,
  true, false, not, ◌&&◌, Option, none, some, [], ◌∷◌, String, ◌==◌, ◌⁺⁺◌, split, Bool-cases,
  length, ==_iff, ==_refl, &&-eq-true,
}
use gracon_user_auth_service.Common.Parts.{
  joined_parts, split-append, lacks, split-lacks, append-nil,
}
use gracon_user_auth_service.Encryption.{
  Bytes, AreBytes, Crypto, hex_char, hex_value, to_hex, from_hex, encrypt, decrypt, hash,
  compare_hash, same_bytes, timing_safe_equal, decrypt_parts,
}

-- A test of every number below a bound.
abbrev below : ℕ → (ℕ → Bool) → Bool
below zero p = true
below (suc n) p = p n && below n p

below_lem : (n : ℕ) (p : ℕ → Bool) → below n p ≡ true → (m : ℕ) → m < n → p m ≡ true
below_lem zero p h m m_lt = ground arith
below_lem (suc n) p h m m_lt =
    let both = &&-eq-true (p n) (below n p) h in
    elim (Bool-cases (m == n)) [
      | inl same ↦ subst (λ k. p k ≡ true) (sym ((==_iff m n).0 same)) both.0
      | inr other ↦ below_lem n p both.1 m (ground arith)
    ]

abbrev same_digit : ℕ → Option ℕ → Bool
same_digit n none = false
same_digit n (some k) = k == n

same_digit_lem : (n : ℕ) (o : Option ℕ) → same_digit n o ≡ true → o ≡ some n
same_digit_lem n none h = ground arith
same_digit_lem n (some k) h = ap some ((==_iff k n).0 h)

hex_value-hex_char : (n : ℕ) → n < 16 → hex_value (code (hex_char n)) ≡ some n
unfolding hex_value hex_char
hex_value-hex_char n n_lt =
    same_digit_lem n (hex_value (code (hex_char n)))
      (below_lem 16 (λ k. same_digit k (hex_value (code (hex_char k)))) refl n n_lt)

hex_char-colon : (n : ℕ) → n < 16 → not (code (hex_char n) == b':') ≡ true
unfolding hex_char
hex_char-colon n n_lt = below_lem 16 (λ k. not (code (hex_char k) == b':')) refl n n_lt

abbrev joined : Option ℕ → Bytes → Bytes
joined none rest = []
joined (some b) rest = b ∷ rest

from_hex-pair :
    (c d : Char) (s : String) (h l : ℕ)
    → hex_value (code c) ≡ some h
    → hex_value (code d) ≡ some l
    → from_hex (String.◌∷◌ c (String.◌∷◌ d s)) ≡ (h * 16 + l) ∷ from_hex s
unfolding from_hex
from_hex-pair c d s h l high low = rw (from_hex, high, low)

-- The bytes of a text of digits are the bytes it was made of.
pub from_hex-to_hex : (bs : Bytes) → AreBytes bs → from_hex (to_hex bs) ≡ bs
unfolding to_hex from_hex
from_hex-to_hex [] all = refl
from_hex-to_hex (b ∷ bs) all =
    let high = hex_value-hex_char (b / 16) (omega (arith, all.0)) in
    let low = hex_value-hex_char (b % 16) (omega arith) in
    let back : (b / 16) * 16 + b % 16 ≡ b = omega arith in
    from_hex-pair (hex_char (b / 16)) (hex_char (b % 16)) (to_hex bs) (b / 16) (b % 16) high low
    ∙ (λ i. back i ∷ from_hex-to_hex bs all.1 i)

-- A text of digits has no colon.
to_hex-lacks : (bs : Bytes) → AreBytes bs → lacks b':' (to_hex bs) ≡ true
unfolding to_hex lacks
to_hex-lacks [] all = refl
to_hex-lacks (b ∷ bs) all = rw (
  hex_char-colon (b / 16) (omega (arith, all.0)),
  hex_char-colon (b % 16) (omega arith),
  to_hex-lacks bs all.1,
)

-- A text encrypted with any vector of bytes is decrypted to itself.
pub decrypt-encrypt :
    (crypto : Crypto) (iv : Bytes) (s : String)
    → AreBytes iv
    → decrypt crypto (encrypt crypto iv s) ≡ some s
unfolding decrypt encrypt split
decrypt-encrypt crypto iv s all =
    let encrypted = crypto.cipher iv s in
    let bytes = crypto.cipher_bytes iv s in
    let parts : split b':' (to_hex iv ⁺⁺ (":" ⁺⁺ to_hex encrypted))
        ≡ to_hex iv ∷ to_hex encrypted ∷ [] =
      split-append b':' (to_hex iv) (":" ⁺⁺ to_hex encrypted)
      ∙ ap (joined_parts (split b':' (to_hex iv))) (split-append b':' ":" (to_hex encrypted))
      ∙ (λ i. joined_parts (split-lacks b':' (to_hex iv) (to_hex-lacks iv all) i) (
          joined_parts ("" ∷ "" ∷ [])
            (split-lacks b':' (to_hex encrypted) (to_hex-lacks encrypted bytes) i)))
      ∙ (λ i. append-nil (to_hex iv) i ∷ append.nil (to_hex encrypted) i ∷ []) in
    ap (decrypt_parts crypto) parts
    ∙ (λ i. crypto.decipher (from_hex-to_hex iv all i) (from_hex-to_hex encrypted bytes i))
    ∙ crypto.decipher-cipher iv s

same_bytes_self : (xs : Bytes) → same_bytes xs xs ≡ true
same_bytes_self [] = refl
same_bytes_self (x ∷ xs) = rw (==_refl x) (same_bytes_self xs)

same_bytes_equal : (xs ys : Bytes) → same_bytes xs ys ≡ true → xs ≡ ys
same_bytes_equal [] [] h = refl
same_bytes_equal [] (y ∷ ys) h = ground arith
same_bytes_equal (x ∷ xs) [] h = ground arith
same_bytes_equal (x ∷ xs) (y ∷ ys) h =
    let both = &&-eq-true (x == y) (same_bytes xs ys) h in
    let first = (==_iff x y).0 both.0 in λ i. first i ∷ same_bytes_equal xs ys both.1 i

timing_safe_equal_lem : (xs ys : Bytes) → (timing_safe_equal xs ys ≡ some true) ↔ (xs ≡ ys)
timing_safe_equal_lem xs ys = (
  λ h. same_bytes_equal xs ys (ground arith),
  λ e.
      subst (λ v. timing_safe_equal xs v ≡ some true) e
        (rw (==_refl (length xs), same_bytes_self xs)),
)

-- A stored digest is recognised exactly by the texts that have the same digest.
pub compare_hash-hash :
    (crypto : Crypto) (s t : String)
    → (compare_hash crypto s (hash crypto t) ≡ some true) ↔ (crypto.sha256 s ≡ crypto.sha256 t)
unfolding compare_hash
compare_hash-hash crypto s t =
    subst
      (λ v.
        (timing_safe_equal v (from_hex (hash crypto t)) ≡ some true)
        ↔ (crypto.sha256 s ≡ crypto.sha256 t))
      (sym (from_hex-to_hex (crypto.sha256 s) (crypto.sha256_bytes s)))
      (subst
        (λ v.
          (timing_safe_equal (crypto.sha256 s) v ≡ some true) ↔ (crypto.sha256 s ≡ crypto.sha256 t))
        (sym (from_hex-to_hex (crypto.sha256 t) (crypto.sha256_bytes t)))
        (timing_safe_equal_lem (crypto.sha256 s) (crypto.sha256 t)))
