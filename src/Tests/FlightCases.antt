-- ===== src/Tests/FlightCases.antt =====
-- Refreshes of one token that overlap.
use gracon_user_auth_service.Common.{ℕ, ◌≡◌, refl, false, List, [], ◌∷◌, ◌++◌}
use gracon_user_auth_service.Platform.{limited, unauthorized, Outcome, ok, throws}
use gracon_user_auth_service.Auth.{
  Origin, AuthTokens, generate_tokens, revoke_all_user_tokens, rotate_refresh_token, rotate_stored,
}
use gracon_user_auth_service.Auth.SingleFlight.{
  Run, Answer, Refreshes, run_single_flight_refresh, settle_flight, finish, rotate_flight,
  land_task, rotate, answers_of, quiet,
}
use gracon_user_auth_service.Auth.SharedRefresh.{
  shared as shared_calls, shared_lem, Caller, calls, overlapping, shared_run, overlapping_lem,
}
use gracon_user_auth_service.SecurityEvents.{log_rows}
use gracon_user_auth_service.Tests.Fixture.{test_env, test_hash, fixture, world, moment, later}

flights : Unit {0}
unfolding run_single_flight_refresh settle_flight finish rotate_flight land_task rotate calls
    overlapping generate_tokens revoke_all_user_tokens rotate_refresh_token rotate_stored log_rows
    fixture
flights = tt

abbrev from : Origin
from = record { ip_address = "10.0.0.1"; user_agent = "test" }

abbrev caller : ℕ → Caller
caller n = record { id = n; from = from; require_full = false }

abbrev token : ℕ
token = test_hash "old"

abbrev tokens : AuthTokens
tokens = record { access_token = "2h"; refresh_token = "fresh"; token_type = limited }

-- Three calls overlap: one before the rotation, one after it.
abbrev shared : Refreshes
shared = overlapping test_env (caller 1) (caller 2 ∷ []) (caller 3 ∷ []) token moment (quiet world)

results : List Answer → List (Outcome AuthTokens)
results [] = []
results (a ∷ rest) = a.run.result ∷ results rest

all_served : results shared.answers ≡ ok tokens ∷ ok tokens ∷ ok tokens ∷ []
unfolding flights results
all_served = refl

overlapping_lem_example : shared ≡ record (quiet world) {
  world = (rotate_refresh_token test_env token from false moment world).1;
  runs = [] ++ shared_run test_env (caller 1) token moment world ∷ [];
  answers =
      [] ++ answers_of (1 ∷ 2 ∷ 3 ∷ []) token (shared_run test_env (caller 1) token moment world);
}
unfolding flights
overlapping_lem_example =
    overlapping_lem test_env (caller 1) (caller 2 ∷ []) (caller 3 ∷ []) token moment (quiet world)
      refl

-- A task that fails while another handler has changed the state.
abbrev failed_run : Run
failed_run = record {
  token_hash = token;
  from = from;
  require_full = false;
  at = moment;
  result = throws (unauthorized "Invalid refresh token");
}

shared_lem_example :
    shared_calls test_env
      (caller 1)
      (caller 2 ∷ [])
      (caller 3 ∷ [])
      token
      failed_run
      (record world { mails = [] })
      (quiet world)
    ≡ record (quiet world) {
      world = record world { mails = [] };
      runs = [] ++ failed_run ∷ [];
      answers = [] ++ answers_of (1 ∷ 2 ∷ 3 ∷ []) token failed_run;
    }
unfolding flights
shared_lem_example =
    shared_lem test_env (caller 1) (caller 2 ∷ []) (caller 3 ∷ []) token failed_run
      (record world { mails = [] }) (quiet world) refl

-- A call that comes after the flight has landed presents a token that has been rotated.
too_late :
    results
      (finish token (rotate test_env token later (calls (caller 4 ∷ []) token shared))).answers
    ≡ ok tokens
      ∷ ok tokens
      ∷ ok tokens
      ∷ throws (unauthorized "Refresh token has been revoked...")
      ∷ []
unfolding flights results
too_late = refl
