-- ===== src/Users/Requests.antt =====
-- The request objects of modules/users/dto/, and small tests on their optional fields.
use gracon_user_auth_service.Common.{ℕ, String, Bool, false, Option, none, some, truthy}

-- `modules/users/dto/register.dto.ts`; the last two are decorated, so a request body may set them.
pub record RegisterDto : Type 0 where
  pub email : String
  pub phone_number : Option String
  pub password : String
  pub document_number : Option String
  pub fin : Option String
  pub identity_input_required : Option String
  pub identity_input_exclusive : Option String

pub record VerifyEmailDto : Type 0 where
  pub user_id : ℕ
  pub token : String

-- The id of an account is a number here, so one that is given is not the empty text.
pub record ResendVerificationDto : Type 0 where
  pub user_id : Option ℕ
  pub email : Option String

pub record UpdateProfileDto : Type 0 where
  pub email : Option String
  pub phone_number : Option String

pub record ChangePasswordDto : Type 0 where
  pub current_password : String
  pub new_password : String
  pub confirm_new_password : String

-- A text that is given and not empty.
abbrev pub given : Option String → Bool
given none = false
given (some s) = truthy s
