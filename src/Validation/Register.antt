-- ===== src/Validation/Register.antt =====
-- modules/users/dto/register.dto.ts: what the validators of a registration spare the service.
use Prim.Native.Char.{code}
use gracon_user_auth_service.Common.{
  none, ℕ, ◌≤◌, ◌≡◌, refl, sym, subst, inl, inr, arith, true, false, not, ◌&&◌, some, String, leb,
  ◌==◌, if◌then◌else◌, truthy, trim, trim_start, trim_end, is_space, codes, Bool-cases, length,
  &&-eq-true,
}
use gracon_user_auth_service.Platform.{World, ok}
use gracon_user_auth_service.Citizen.{size, is_nid, all_digits, is_document_number}
use gracon_user_auth_service.Users.Requests.{RegisterDto, given}
use gracon_user_auth_service.Users.Registration.{assert_exclusive_identity_input}
use gracon_user_auth_service.Validation.{
  Texts, fits, is_mixed, is_password, is_reset_password, optional, is_register, normal_register,
  validate_register,
}

digit_is_no_space : (c : ℕ) → (leb b'0' c && leb c b'9') ≡ true → is_space c ≡ false
unfolding is_space
digit_is_no_space c h = ground arith

trim_start-digits : (s : String) → all_digits (codes s) ≡ true → trim_start s ≡ s
unfolding trim_start codes
trim_start-digits String.[] h = refl
trim_start-digits (String.◌∷◌ c s) h =
    let (digit, rest) =
      &&-eq-true (leb b'0' (code c) && leb (code c) b'9') (all_digits (codes s)) h in
    rw (digit_is_no_space (code c) digit) refl

trim_end-digits : (s : String) → all_digits (codes s) ≡ true → trim_end s ≡ s
unfolding trim_end codes
trim_end-digits String.[] h = refl
trim_end-digits (String.◌∷◌ c s) h =
    let (digit, rest) =
      &&-eq-true (leb b'0' (code c) && leb (code c) b'9') (all_digits (codes s)) h in
    let same = trim_end-digits s rest in rw (same, digit_is_no_space (code c) digit) (kept c s)
  where
    kept :
        (c : _) (s : String)
        → (if truthy s then String.◌∷◌ c s else if false then String.[] else String.◌∷◌ c String.[])
          ≡ String.◌∷◌ c s
    kept c String.[] = refl
    kept c (String.◌∷◌ d s) = refl

trim-digits : (s : String) → all_digits (codes s) ≡ true → trim s ≡ s
unfolding trim
trim-digits s h = rw (trim_start-digits s h) (trim_end-digits s h)

-- A number of 16 digits passes the check of the citizen service.
is_nid-is_document_number : (s : String) → is_nid s ≡ true → is_document_number s ≡ true
unfolding is_nid is_document_number
is_nid-is_document_number s h =
    let (long, digits) = &&-eq-true (length (codes s) == 16) (all_digits (codes s)) h in
    let same = trim-digits s digits in
    let filled : truthy s ≡ true = nonempty s long in rw (same, filled) h
  where
    nonempty : (s : String) → (length (codes s) == 16) ≡ true → truthy s ≡ true
    nonempty String.[] e = absurd (ground arith)
    nonempty (String.◌∷◌ c s) e = refl

-- A registration request that the validators let through.
pub record IsAcceptable (dto : RegisterDto) : Type 0 where
  pub one_number : (w : World) → assert_exclusive_identity_input dto w ≡ (ok tt, w)
  pub document :
      (number : String) → dto.document_number ≡ some number → is_document_number number ≡ true
  pub least : 8 ≤ size dto.password
  pub most : size dto.password ≤ 128
  pub resettable : is_reset_password dto.password ≡ true

is_register-IsAcceptable :
    (texts : Texts) (dto : RegisterDto)
    → dto.identity_input_required ≡ none
    → dto.identity_input_exclusive ≡ none
    → is_register texts dto ≡ true
    → IsAcceptable dto
unfolding is_register is_password is_reset_password assert_exclusive_identity_input
is_register-IsAcceptable texts dto no_required no_exclusive h =
    let numbers : (not (not (given dto.document_number) && not (given dto.fin))
          && not (given dto.document_number && given dto.fin))
        ≡ true =
      ground arith in
    let document : optional is_nid dto.document_number ≡ true = ground arith in
    let password : (fits dto.password && is_mixed (codes dto.password)) ≡ true = ground arith in
    record {
      one_number = λ w. ground arith;
      document = λ number e.
          is_nid-is_document_number number (subst (λ o. optional is_nid o ≡ true) e document);
      least = ground arith;
      most = ground arith;
      resettable = password;
    }

-- A registration whose body sets neither of the two helper fields and that the validators let through
-- meets neither of the service's own checks on the identity numbers, and its number passes the check
-- of the citizen service; its password has 8 to 128 characters and is one that a reset accepts too.
pub validate_register-IsAcceptable :
    (texts : Texts) (dto : RegisterDto) {read : RegisterDto}
    → dto.identity_input_required ≡ none
    → dto.identity_input_exclusive ≡ none
    → validate_register texts dto ≡ some read
    → (read ≡ normal_register texts dto) × IsAcceptable read
unfolding validate_register
validate_register-IsAcceptable texts dto {read} no_required no_exclusive h =
    elim (Bool-cases (is_register texts (normal_register texts dto))) [
      | inr refused ↦ absurd (ground arith)
      | inl accepted_by ↦
          let same : normal_register texts dto ≡ read = ground arith in
          (
            sym same,
            subst IsAcceptable same (
                is_register-IsAcceptable texts (normal_register texts dto) no_required no_exclusive
                  accepted_by),
          )
    ]
