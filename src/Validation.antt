-- ===== src/Validation.antt =====
-- The request objects under modules/*/dto: what is made of a field before it is checked, and which
-- values are let through. The checks of an address and of small letters are the packages' and the
-- language's; ids are not texts here, so their form is not checked.
pub mod Register
use gracon_user_auth_service.Common.{
  ℕ, zero, suc, ◌+◌, ◌-◌, ◌*◌, ◌/◌, ◌%◌, ◌≤◌, ◌<◌, ◌≡◌, ◌≢◌, refl, sym, ap, subst, ◌∙◌, ◌⊎◌, ◌↔◌,
  inl, inr, arith, Bool, true, false, not, ◌&&◌, ◌||◌, Option, none, some, List, [], ◌∷◌, ◌++◌, map,
  String, str_eq, str_eq_iff, ltb, leb, ◌==◌, if◌then◌else◌, truthy, is_some, or_else, substring,
  ◌⁺⁺◌, trim, is_space, codes, decimal, Bool-cases, Option-cases, All, length, find, select,
  update_where, take, drop, contains, ==_iff, ==_refl, &&-eq-true,
}
use gracon_user_auth_service.Citizen.{size, is_nid, all_digits}
use gracon_user_auth_service.Auth.{LoginDto}
use gracon_user_auth_service.PasswordReset.{ResetPasswordDto}
use gracon_user_auth_service.Users.Requests.{
  RegisterDto, UpdateProfileDto, ChangePasswordDto, given,
}

-- `@IsEmail`, and `toLowerCase`.
pub record Texts : Type 0 where
  pub is_email : String → Bool
  pub to_lower_case : String → String

abbrev is_lower : ℕ → Bool
is_lower c = leb b'a' c && leb c b'z'

abbrev is_upper : ℕ → Bool
is_upper c = leb b'A' c && leb c b'Z'

abbrev is_digit : ℕ → Bool
is_digit c = leb b'0' c && leb c b'9'

-- One of @$!%*?&^#
abbrev is_special : ℕ → Bool
is_special c =
    c == b'@'
    || (c == b'$'
        || (c == b'!'
            || (c == b'%'
                || (c == b'*' || (c == b'?' || (c == b'&' || (c == b'^' || c == b'#')))))))

abbrev is_line_end : ℕ → Bool
is_line_end c = c == 10 || (c == 13 || (c == 8232 || c == 8233))

-- `(?=.*[class])`: a character of the class comes before any end of a line.
unfoldable pub looks_ahead : (ℕ → Bool) → List ℕ → Bool
looks_ahead p [] = false
looks_ahead p (c ∷ cs) =
    let rest = looks_ahead p cs in if p c then true else if is_line_end c then false else rest

-- `^(?=.*[a-z])(?=.*[A-Z])(?=.*\d)(?=.*[@$!%*?&^#])`
unfoldable pub is_mixed : List ℕ → Bool
unfolding looks_ahead
is_mixed cs =
    (looks_ahead is_lower cs && looks_ahead is_upper cs)
    && (looks_ahead is_digit cs && looks_ahead is_special cs)

-- `[A-Za-z\d@$!%*?&^#]`, for the first character
abbrev pub begins_well : List ℕ → Bool
begins_well [] = false
begins_well (c ∷ _) = (is_upper c || is_lower c) || (is_digit c || is_special c)

abbrev pub fits : String → Bool
fits s = leb 8 (size s) && leb (size s) 128

-- The new password of a registration, and of a change.
unfoldable pub is_password : String → Bool
unfolding size codes is_mixed
is_password s = fits s && (is_mixed (codes s) && begins_well (codes s))

-- The new password of a reset.
unfoldable pub is_reset_password : String → Bool
unfolding size codes is_mixed
is_reset_password s = fits s && is_mixed (codes s)

abbrev is_phone_character : ℕ → Bool
is_phone_character c = is_digit c || (is_space c || (c == b'-' || (c == b'(' || c == b')')))

abbrev all_phone : List ℕ → Bool
all_phone [] = true
all_phone (c ∷ cs) = is_phone_character c && all_phone cs

abbrev without_plus : List ℕ → List ℕ
without_plus [] = []
without_plus (c ∷ cs) = if c == b'+' then cs else c ∷ cs

-- `/^\+?[\d\s\-()]{7,20}$/`
unfoldable pub is_phone_number : String → Bool
unfolding codes is_space
is_phone_number s =
    let cs = without_plus (codes s) in (leb 7 (length cs) && leb (length cs) 20) && all_phone cs

-- `/^2\d{15}$/`
unfoldable pub is_fin : String → Bool
unfolding codes
is_fin s = elim (codes s) [ [] ↦ false | c ∷ cs ↦ c == b'2' && (length cs == 15 && all_digits cs) ]

-- A check of a field that may be missing.
abbrev pub optional : (String → Bool) → Option String → Bool
optional p none = true
optional p (some s) = p s

abbrev pub trimmed : Option String → Option String
trimmed none = none
trimmed (some s) = some (trim s)

-- The identity number of a lookup (`LookupCitizenDto`), and of a submission, which is trimmed.
unfoldable pub validate_lookup : String → Option String
unfolding is_nid
validate_lookup number = if is_nid number then some number else none

unfoldable pub validate_submission : String → Option String → Option (String × Option String)
unfolding is_nid
validate_submission number challenge_mode =
    if is_nid (trim number) && optional (λ s. str_eq s "INVITATION") challenge_mode
    then some (trim number, challenge_mode)
    else none

-- `RefreshTokenDto`
unfoldable pub validate_refresh_token : String → Option String
validate_refresh_token token = if truthy token then some token else none

unfoldable pub validate_reset : ResetPasswordDto → Option ResetPasswordDto
unfolding is_reset_password
validate_reset dto =
    if truthy dto.token && (is_reset_password dto.new_password && truthy dto.confirm_password)
    then some dto
    else none

-- `/.*/` matches every text, the empty one too.
unfoldable pub validate_change_password : ChangePasswordDto → Option ChangePasswordDto
unfolding is_password
validate_change_password dto = if is_password dto.new_password then some dto else none

module _ (texts : Texts) where
  open texts use {is_email, to_lower_case}

  -- `value?.toLowerCase().trim()`
  abbrev pub normal_email : String → String
  normal_email s = trim (to_lower_case s)

  unfoldable pub validate_login : LoginDto → Option LoginDto
  unfolding size
  validate_login dto =
      if is_email (normal_email dto.email)
        && (truthy dto.password && (leb 1 (size dto.password) && leb (size dto.password) 128))
      then some (record dto { email = normal_email dto.email })
      else none

  -- `ForgotPasswordDto`
  unfoldable pub validate_forgot_password : String → Option String
  validate_forgot_password email =
      if is_email (normal_email email) then some (normal_email email) else none

  abbrev pub normal_optional : Option String → Option String
  normal_optional none = none
  normal_optional (some s) = some (normal_email s)

  unfoldable pub validate_update_profile : UpdateProfileDto → Option UpdateProfileDto
  unfolding is_phone_number
  validate_update_profile dto =
      let read : UpdateProfileDto = record {
        email = normal_optional dto.email;
        phone_number = trimmed dto.phone_number;
      } in
      if optional is_email read.email && optional is_phone_number read.phone_number
      then some read
      else none

  -- The request of a registration, its texts trimmed.
  abbrev pub normal_register : RegisterDto → RegisterDto
  normal_register dto = record {
    email = normal_email dto.email;
    phone_number = trimmed dto.phone_number;
    password = dto.password;
    document_number = trimmed dto.document_number;
    fin = trimmed dto.fin;
    identity_input_required = dto.identity_input_required;
    identity_input_exclusive = dto.identity_input_exclusive;
  }

  -- The checks of the fields. The last two run only without an identity number, and with both; they
  -- ask that the field that they decorate is defined.
  unfoldable pub is_register : RegisterDto → Bool
  unfolding is_nid is_fin is_phone_number is_password
  is_register dto =
      (optional is_nid dto.document_number && optional is_fin dto.fin)
      && ((is_email dto.email && optional is_phone_number dto.phone_number)
          && (is_password dto.password
              && ((given dto.document_number
                    || (given dto.fin || is_some dto.identity_input_required))
                  && (not (given dto.document_number && given dto.fin)
                      || is_some dto.identity_input_exclusive))))

  unfoldable pub validate_register : RegisterDto → Option RegisterDto
  unfolding is_register
  validate_register dto =
      if is_register (normal_register dto) then some (normal_register dto) else none
