-- ===== src/Users/Access.antt =====
-- The parts of modules/users/users.service.ts that other services call: the lookups of an account,
-- the access to its picture, and the safe profile of modules/auth/interfaces/auth.interface.ts.
use gracon_user_auth_service.Common.{
  ℕ, ◌+◌, ◌*◌, String, Bool, Option, none, some, ◌==◌, ◌||◌, map, str_eq, truthy, if◌then◌else◌,
  codes, to_lower, starts_with,
}
use gracon_user_auth_service.Platform.{
  User, CitizenIdentity, IdentityType, nid, fin, World, Handler, pure, throw, internal_server_error,
  accepted, rejected, Env, ◌>>=◌,
}

pub record SafeUserProfile : Type 0 where
  pub user_id : ℕ
  pub email : String
  pub phone_number : Option String
  pub image_url : Option String
  pub sur_name : String
  pub post_names : String
  pub sex : String
  pub identity_type : IdentityType
  pub fin : Option String
  pub is_id_verified : Bool
  pub id_verified_at : Option ℕ
  pub created_at : ℕ

-- What `getPresignedUrl` and `resolveProfileImageAccess` return.
pub record ImageAccess : Type 0 where
  pub url : Option String
  pub expires_at : Option ℕ

-- `/^https?:\/\//i.test(url)`
unfoldable pub is_web_url : String → Bool
unfolding codes to_lower starts_with
is_web_url url =
    starts_with (map to_lower (codes url)) (codes "http://")
    || starts_with (map to_lower (codes url)) (codes "https://")

module _ (env : Env) where
  open env use {find_first, decrypt, get_signed_url}

  -- The identity that belongs to an account, if any.
  abbrev pub identity_of : World → ℕ → Option CitizenIdentity
  identity_of w id = find_first CitizenIdentity (λ c. c.user_id == id) w.citizen_identities

  abbrev with_identity : World → Option User → Option (User × Option CitizenIdentity)
  with_identity w none = none
  with_identity w (some u) = some (u, identity_of w u.id)

  abbrev pub find_by_email : String → World → Option (User × Option CitizenIdentity)
  find_by_email email w = with_identity w (find_first User (λ u. str_eq u.email email) w.users)

  abbrev pub find_by_id : ℕ → World → Option User
  find_by_id id w = find_first User (λ u. u.id == id) w.users

  abbrev presigned_url_expiry_seconds : ℕ
  presigned_url_expiry_seconds = 3600

  -- `S3Service.getPresignedUrl`
  unfoldable pub get_presigned_url : String → ℕ → Handler (String × ℕ)
  get_presigned_url key now w = elim (get_signed_url key) [
    | accepted url ↦ pure (url, now + presigned_url_expiry_seconds * 1000) w
    | rejected _ ↦ throw (internal_server_error "Failed to generate image access URL") w
  ]

  resolve_image : String → ℕ → Handler ImageAccess
  unfolding get_presigned_url is_web_url
  resolve_image image now =
      if truthy image
      then if is_web_url image
        then pure (record { url = some image; expires_at = none })
        else (get_presigned_url image now >>= λ signed.
            pure (record { url = some signed.0; expires_at = some signed.1 }))
      else pure (record { url = none; expires_at = none })

  unfoldable pub resolve_profile_image_access : Option String → ℕ → Handler ImageAccess
  unfolding resolve_image
  resolve_profile_image_access none now = pure (record { url = none; expires_at = none })
  resolve_profile_image_access (some image) now = resolve_image image now

  -- The decrypted FIN of a foreign identity.
  abbrev pub decrypted_fin : IdentityType → Option String → Option String
  decrypted_fin nid c = none
  decrypted_fin fin none = none
  decrypted_fin fin (some c) = if truthy c then some (decrypt c) else none

  -- `buildVerificationSessionProfile`, also the object of `buildSafeProfile` for a given picture.
  unfoldable pub profile_of : User → Option CitizenIdentity → Option String → SafeUserProfile
  profile_of u none image = record {
    user_id = u.id;
    email = u.email;
    phone_number = u.phone_number;
    image_url = image;
    sur_name = "";
    post_names = "";
    sex = "";
    identity_type = nid;
    fin = none;
    is_id_verified = u.is_id_verified;
    id_verified_at = u.id_verified_at;
    created_at = u.created_at;
  }
  profile_of u (some c) image = record {
    user_id = u.id;
    email = u.email;
    phone_number = u.phone_number;
    image_url = image;
    sur_name = c.sur_name;
    post_names = c.post_names;
    sex = c.sex;
    identity_type = c.identity_type;
    fin = decrypted_fin c.identity_type c.fin_encrypted;
    is_id_verified = u.is_id_verified;
    id_verified_at = u.id_verified_at;
    created_at = u.created_at;
  }
