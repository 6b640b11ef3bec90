-- ===== src/Platform/Services.antt =====
-- The functions that the services call and that stand outside the repository, or in Node's library:
-- the database client, S3, SHA-256 and AES (behind common/crypto/encryption.service.ts), bcrypt and the JWT signer.
use gracon_user_auth_service.Common.{
  ℕ, String, Bool, List, [], ◌∷◌, ◌++◌, ◌≡◌, not, select, contains, str_eq,
}
use gracon_user_auth_service.Platform.Records.{TokenType}
use gracon_user_auth_service.Platform.Database.{Client, Reply, accepted}

-- `JwtPayload` of modules/auth/interfaces/auth.interface.ts, as it is signed.
pub record JwtPayload : Type 0 where
  pub sub : ℕ
  pub email : String
  pub token_type : TokenType

-- The object store. A bucket is the list of its keys.
pub record Bucket : Type 0 where
  pub put_object : String → List String → Reply (List String)
  pub delete_objects : List String → List String → Reply (List String)
  pub delete_object : String → List String → Reply (List String)
  pub head_object : String → List String → Reply (Unit {0})
  pub get_signed_url : String → Reply String
  pub put_object_lem :
      (key : String) (keys keys' : List String)
      → put_object key keys ≡ accepted keys'
      → keys' ≡ keys ++ key ∷ []
  pub delete_objects_lem :
      (gone keys keys' : List String)
      → delete_objects gone keys ≡ accepted keys'
      → keys' ≡ select (λ k. not (contains k gone)) keys
  pub delete_object_lem :
      (key : String) (keys keys' : List String)
      → delete_object key keys ≡ accepted keys'
      → keys' ≡ select (λ k. not (str_eq k key)) keys

pub record Env : Type 1 where
  pub client : Client
  pub open client use *
  pub bucket : Bucket
  pub open bucket use *
  -- The text of an id.
  pub id_text : ℕ → String
  -- `EncryptionService.hash`; `compareHash` compares the digests.
  pub hash : String → ℕ
  -- `EncryptionService.encrypt`, given the initialisation vector, and `decrypt`.
  pub encrypt : ℕ → String → String
  pub decrypt : String → String
  -- bcrypt with the given salt, at the service's cost factor.
  pub bcrypt_hash : ℕ → String → String
  pub bcrypt_compare : String → String → Bool
  -- `JwtService.sign` with the payload and `expiresIn`.
  pub sign : JwtPayload → String → String

-- What a request meets when it is handled: the time of the server's clock, and what the random
-- source yields, as a text for a token and a number for a salt or a vector.
pub record Moment : Type 0 where
  pub now : ℕ
  pub random : String
  pub salt : ℕ
