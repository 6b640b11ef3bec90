-- ===== src/Storage.antt =====
-- common/aws/s3/s3.service.ts: images are checked, named and put into the bucket. A file is its MIME
-- type, its size and whether it has a buffer; `logger` is left out.
use gracon_user_auth_service.Common.{
  ℕ, ◌*◌, Bool, true, false, not, List, [], ◌∷◌, String, str_eq, ltb, if◌then◌else◌, ◌⁺⁺◌, contains,
}
use gracon_user_auth_service.Platform.{
  accepted, rejected, World, bad_request, internal_server_error, ok, Handler, throw, ◌>>◌, modify,
  throw_if, Env,
}

pub record ImageFile : Type 0 where
  pub has_buffer : Bool
  pub mimetype : String
  pub size : ℕ

abbrev pub allowed_image_types : List String
allowed_image_types = "image/jpeg" ∷ "image/jpg" ∷ "image/png" ∷ "image/webp" ∷ []

abbrev pub max_file_size_bytes : ℕ
max_file_size_bytes = 5 * 1024 * 1024

unfoldable pub validate_file : ImageFile → Handler (Unit {0})
validate_file file = do
  throw_if (not file.has_buffer) (bad_request "No file provided")
  throw_if (not (contains file.mimetype allowed_image_types))
      (bad_request ("Invalid file type: " ⁺⁺ file.mimetype ⁺⁺ ". Allowed types: JPEG, PNG, WebP"))
  throw_if (ltb max_file_size_bytes file.size) (bad_request "File too large. Maximum size is 5MB")

-- The file has passed `validate_file`, so one of the types of the map.
unfoldable pub mime_to_extension : String → String
mime_to_extension mime =
    if str_eq mime "image/png" then "png" else if str_eq mime "image/webp" then "webp" else "jpg"

module _ (env : Env) where
  open env use {put_object, delete_objects, delete_object, head_object, id_text}

  unfoldable pub upload_to_s3 : String → Handler String
  upload_to_s3 key w = elim (put_object key w.objects) [
    | accepted keys ↦ (ok key, record w { objects = keys })
    | rejected _ ↦ throw (internal_server_error "Failed to upload image. Please try again.") w
  ]

  -- `buildTempImageKey`, for a folder and the random part of the name.
  unfoldable pub build_temp_image_key : String → ℕ → String → String → String → String
  build_temp_image_key folder user_id image_type hex mime =
      folder
      ⁺⁺ "/"
      ⁺⁺ id_text user_id
      ⁺⁺ "/"
      ⁺⁺ image_type
      ⁺⁺ "-"
      ⁺⁺ hex
      ⁺⁺ "."
      ⁺⁺ mime_to_extension mime

  unfoldable pub build_profile_image_key : String → ℕ → String → String → String
  build_profile_image_key folder user_id hex mime =
      folder ⁺⁺ "/" ⁺⁺ id_text user_id ⁺⁺ "/" ⁺⁺ hex ⁺⁺ "." ⁺⁺ mime_to_extension mime

  unfoldable pub upload_verification_image :
      String → ℕ → String → ImageFile → String → Handler String
  upload_verification_image folder user_id image_type file hex = do
    validate_file file
    upload_to_s3 (build_temp_image_key folder user_id image_type hex file.mimetype)

  unfoldable pub upload_profile_image : String → ℕ → ImageFile → String → Handler String
  upload_profile_image folder user_id file hex = do
    validate_file file
    upload_to_s3 (build_profile_image_key folder user_id hex file.mimetype)

  -- The bucket after `deleteObjects`; a failure is swallowed.
  unfoldable pub remaining_objects : List String → List String → List String
  remaining_objects [] objects = objects
  remaining_objects (k ∷ ks) objects = elim (delete_objects (k ∷ ks) objects) [
    | accepted objects' ↦ objects'
    | rejected _ ↦ objects
  ]

  abbrev pub delete_all : List String → Handler (Unit {0})
  delete_all keys = modify λ w. record w { objects = remaining_objects keys w.objects }

  -- The bucket after `deleteObject`; a failure is swallowed.
  unfoldable pub without_object : String → List String → List String
  without_object key objects = elim (delete_object key objects) [
    | accepted objects' ↦ objects'
    | rejected _ ↦ objects
  ]

  unfoldable pub object_exists : String → World → Bool
  object_exists key w = elim (head_object key w.objects) [ accepted _ ↦ true | rejected _ ↦ false ]
