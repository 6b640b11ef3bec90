-- ===== src/Tests/SourceCases.antt =====
-- A registration through the citizen service.
use gracon_user_auth_service.Common.{ℕ, ◌≡◌, refl, none, some, [], ◌∷◌, ◌++◌, str_eq, if◌then◌else◌}
use gracon_user_auth_service.Platform.{World, ok, throws}
use gracon_user_auth_service.Citizen.Cache.{here}
use gracon_user_auth_service.ForeignIdentity.{
  ForeignService, base_url, without_slashes, answer_of, get_by_fin, axios_error, lookup_failed,
}
use gracon_user_auth_service.Users.Registration.{RegistrationIdentityRecord}
use gracon_user_auth_service.Users.Registration.Register.{register, identity_row}
use gracon_user_auth_service.Users.Registration.Sources.{
  registries_of, IsSourced, register-IsSourced,
}
use gracon_user_auth_service.Tests.Fixture.{test_env, moment}
use gracon_user_auth_service.Tests.UsersCases.{users, draw, ineza, nobody, first_result}
use gracon_user_auth_service.Tests.CitizenCases.{citizens, registry, first_state}

abbrev foreign_service : ForeignService
foreign_service = record {
  service_url = some "http://fin.rw/api///";
  username = some "auth";
  password = some "secret";
  encode = λ s. s;
  http_get = λ address.
      if str_eq address "http://fin.rw/api/foreign-identities/1"
      then axios_error (some 404)
      else axios_error none;
}

-- 404 is no identity, and no answer at all is an error of the service.
foreign_answers :
    (get_by_fin foreign_service "1" ≡ ok none)
    × (get_by_fin foreign_service "2" ≡ throws lookup_failed)
unfolding get_by_fin base_url without_slashes answer_of
foreign_answers = (refl, refl)

abbrev year_of : ℕ → ℕ
year_of t = 1970

abbrev sourced_state : World
sourced_state =
    (register test_env (registries_of registry foreign_service year_of first_state) ineza draw
      moment nobody).1

sourced_runs :
    register test_env
      (registries_of registry foreign_service year_of first_state)
      ineza
      draw
      moment
      nobody
    ≡ (ok first_result, sourced_state)
unfolding users citizens
sourced_runs = refl

register-IsSourced_example :
    (i : RegistrationIdentityRecord) × (id : ℕ) × IsSourced registry foreign_service year_of
      first_state ineza i
    × (sourced_state.citizen_identities
        ≡ nobody.citizen_identities ++ identity_row test_env i draw.identity_vector id ∷ [])
register-IsSourced_example =
    register-IsSourced registry foreign_service year_of test_env 1000 first_state ineza draw moment
      nobody here sourced_runs
