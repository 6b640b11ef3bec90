-- ===== src/Users/Registration/Sources.antt =====
-- modules/users/users.service.ts with the citizen service and the foreign identity client in place of
-- the registries: what the identity of a new account rests on.
use gracon_user_auth_service.Common.{
  ℕ, ◌≡◌, ap, ◌∙◌, inl, inr, arith, true, false, none, some, [], ◌∷◌, ◌++◌, String, or_else,
  Bool-cases, Option-cases,
}
use gracon_user_auth_service.Platform.{World, ok, Env, Moment}
use gracon_user_auth_service.Citizen.{
  CitizenData, Registry, CitizenState, is_document_number, build_cache_key, lookup_citizen,
}
use gracon_user_auth_service.Citizen.Cache.{Reach, started, IsFresh, lookup_citizen-IsFresh}
use gracon_user_auth_service.ForeignIdentity.{ForeignService, ForeignIdentityProfile, get_by_fin}
use gracon_user_auth_service.Users.Requests.{RegisterDto, given}
use gracon_user_auth_service.Users.Registration.{
  RegistrationIdentityRecord, foreign_identity, RegistrationResult, Draw, Registries,
  citizen_record, resolve_registration_identity, resolve_citizen_registration_identity,
  resolve_foreign_registration_identity,
}
use gracon_user_auth_service.Users.Registration.Register.{register, identity_row}
use gracon_user_auth_service.Users.Registration.Result.{register-Registers}
use gracon_user_auth_service.Platform.Laws.{Result-cases}

-- The registries as the two clients answer at a state of the citizen service.
abbrev pub registries_of :
    (registry : Registry) → ForeignService → (ℕ → ℕ) → CitizenState registry → Registries
registries_of registry service full_year s = record {
  lookup_citizen = λ number. (lookup_citizen registry number s).0;
  get_by_fin = get_by_fin service;
  full_year = full_year;
}

module _ (registry : Registry) (service : ForeignService) (full_year : ℕ → ℕ) where
  -- The person of a new account, as one of the two services gave it: the citizen service's answer is
  -- fresh, and the foreign identity is active.
  pub data IsSourced (s : CitizenState registry) (dto : RegisterDto)
      (i : RegistrationIdentityRecord) : Type 0 where
    national :
        (citizen : CitizenData)
        → given dto.fin ≡ false
        → is_document_number (or_else dto.document_number "") ≡ true
        → IsFresh registry
            (build_cache_key registry (or_else dto.document_number ""))
            (lookup_citizen registry (or_else dto.document_number "") s).1.clock
            citizen
        → i
          ≡ citizen_record
              (registries_of registry service full_year s)
              (or_else dto.document_number "")
              citizen
        → IsSourced s dto i
    foreign :
        (profile : ForeignIdentityProfile)
        → given dto.fin ≡ true
        → get_by_fin service (or_else dto.fin "") ≡ ok (some profile)
        → profile.is_active ≡ true
        → (date : ℕ) → profile.date_of_birth ≡ some date
        → i ≡ foreign_identity profile date
        → IsSourced s dto i

  lookup_citizen-valid :
      (number : String) (s s' : CitizenState registry) (citizen : CitizenData)
      → lookup_citizen registry number s ≡ (ok citizen, s')
      → is_document_number number ≡ true
  unfolding lookup_citizen
  lookup_citizen-valid number s s' citizen h = elim (Bool-cases (is_document_number number)) [
    | inl valid ↦ valid
    | inr invalid ↦ ground arith
  ]

  national-IsSourced :
      (began : ℕ) (s : CitizenState registry) (dto : RegisterDto) (i : RegistrationIdentityRecord)
      (w : World)
      → Reach registry (started registry began) s
      → given dto.fin ≡ false
      → resolve_citizen_registration_identity
          (registries_of registry service full_year s)
          (or_else dto.document_number "")
          w
        ≡ (ok i, w)
      → IsSourced s dto i
  unfolding resolve_citizen_registration_identity
  national-IsSourced began s dto i w r no_fin h =
      let number = or_else dto.document_number "" in
      let s' = (lookup_citizen registry number s).1 in
      elim (Result-cases (lookup_citizen registry number s).0) [
        | inr (e, got) ↦ ground arith
        | inl (citizen, got) ↦
            let ran : lookup_citizen registry number s ≡ (ok citizen, s') = ground arith in
            national citizen no_fin (lookup_citizen-valid number s s' citizen ran)
              (lookup_citizen-IsFresh registry began number r ran) (ground arith)
      ]

  foreign-IsSourced :
      (s : CitizenState registry) (dto : RegisterDto) (i : RegistrationIdentityRecord) (w : World)
      → given dto.fin ≡ true
      → resolve_foreign_registration_identity
          (registries_of registry service full_year s)
          (or_else dto.fin "")
          w
        ≡ (ok i, w)
      → IsSourced s dto i
  unfolding resolve_foreign_registration_identity
  foreign-IsSourced s dto i w by_fin h =
      elim (Result-cases (get_by_fin service (or_else dto.fin ""))) [
        | inr (e, got) ↦ ground arith
        | inl (none, got) ↦ ground arith
        | inl (some profile, got) ↦ elim (Bool-cases profile.is_active) [
          | inr off ↦ ground arith
          | inl active ↦ elim (Option-cases profile.date_of_birth) [
            | inl undated ↦ ground arith
            | inr (date, dated) ↦ foreign profile by_fin got active date dated (ground arith)
          ]
        ]
      ]

  -- A registration that succeeds, through the two clients, is of a person that one of them knows: a
  -- citizen whose number has 16 digits, with the data that the registry gave at most five minutes and
  -- ten seconds before, or an active foreign identity; the new identity row has the person's names.
  pub register-IsSourced :
      (env : Env) (began : ℕ) (s : CitizenState registry) (dto : RegisterDto) (draw : Draw)
      (at : Moment) (w : World) {res : RegistrationResult} {w' : World}
      → Reach registry (started registry began) s
      → register env (registries_of registry service full_year s) dto draw at w ≡ (ok res, w')
      → (i : RegistrationIdentityRecord) × (id : ℕ) × IsSourced s dto i
        × (w'.citizen_identities
            ≡ w.citizen_identities ++ identity_row env i draw.identity_vector id ∷ [])
  unfolding resolve_registration_identity
  register-IsSourced env began s dto draw at w r h =
      let done =
        register-Registers env (registries_of registry service full_year s) dto draw at w h in
      let sourced : IsSourced s dto done.identity = elim (Bool-cases (given dto.fin)) [
        | inl by_fin ↦
            foreign-IsSourced s dto done.identity w by_fin (ground (arith, done.resolved))
        | inr no_fin ↦
            national-IsSourced began s dto done.identity w r no_fin (ground (arith, done.resolved))
      ] in
      (
        done.identity,
        done.id,
        sourced,
        done.identities ∙ ap (λ row. w.citizen_identities ++ row ∷ []) done.same_row,
      )
