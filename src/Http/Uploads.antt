-- ===== src/Http/Uploads.antt =====
-- common/aws/s3/multer.config.ts: the files that the upload interceptors let through. The storage in
-- memory is the package's.
use gracon_user_auth_service.Common.{
  ℕ, ◌*◌, ◌≤◌, ◌≡◌, ltb, ◌⊎◌, inl, inr, arith, true, not, List, [], ◌∷◌, String, if◌then◌else◌,
  ◌⁺⁺◌, contains,
}
use gracon_user_auth_service.Platform.{World, bad_request, http, Outcome, ok, throws}
use gracon_user_auth_service.Storage.{ImageFile, validate_file}

pub record UploadConfig : Type 0 where
  pub file_size : ℕ
  pub files : ℕ

abbrev pub verification_upload_config : UploadConfig
verification_upload_config = record { file_size = 5 * 1024 * 1024; files = 2 }

abbrev pub profile_upload_config : UploadConfig
profile_upload_config = record { file_size = 3 * 1024 * 1024; files = 1 }

abbrev pub allowed_mime_types : List String
allowed_mime_types = "image/jpeg" ∷ "image/jpg" ∷ "image/png" ∷ "image/webp" ∷ []

-- `fileFilter`, which is the same in both.
unfoldable pub file_filter : String → Outcome (Unit {0})
file_filter mimetype =
    if not (contains mimetype allowed_mime_types)
    then throws (bad_request ("Invalid file type: " ⁺⁺ mimetype ⁺⁺ ". Allowed: JPEG, PNG, WebP"))
    else ok tt

-- What an interceptor with such a configuration does with a file before the handler: its filter, and
-- the package's limit of the size.
unfoldable pub intercepted : UploadConfig → ImageFile → Outcome (Unit {0})
unfolding file_filter
intercepted config file = elim (file_filter file.mimetype) [
  | throws e ↦ throws e
  | ok _ ↦ if ltb config.file_size file.size then throws (http 413 "File too large") else ok tt
]

-- A file within the size limit of either interceptor, held in memory, that passes its filter also
-- passes the check of the object storage.
pub file_filter-validate_file :
    (file : ImageFile) (w : World)
    → file.has_buffer ≡ true
    → (file.size ≤ verification_upload_config.file_size)
      ⊎ (file.size ≤ profile_upload_config.file_size)
    → file_filter file.mimetype ≡ ok tt
    → validate_file file w ≡ (ok tt, w)
unfolding file_filter validate_file
file_filter-validate_file file w buffered (inl small) h = ground arith
file_filter-validate_file file w buffered (inr small) h = ground arith
