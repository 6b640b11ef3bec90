-- ===== src/Auth/Histories.antt =====
-- Histories of the session operations (modules/auth/auth.service.ts) and of the submissions that upgrade
-- a session (modules/verification/verification.service.ts).
use gracon_user_auth_service.Common.{ℕ, ◌≡◌, Option, String}
use gracon_user_auth_service.Platform.{World, Env, Moment}
use gracon_user_auth_service.Auth.{
  Origin, LoginDto, login, refresh_tokens, upgrade_session, logout, logout_all_devices,
}
use gracon_user_auth_service.Auth.Sound.{IsSound}
use gracon_user_auth_service.Auth.Sessions.{
  logout-IsSound, logout_all_devices-IsSound, login-IsSound, refresh_tokens-IsSound,
  upgrade_session-IsSound,
}
use gracon_user_auth_service.Verification.{ChallengeMode, EnginePayload, EngineResponse}
use gracon_user_auth_service.Verification.Submit.{Images, submit_verification}
use gracon_user_auth_service.Verification.Upgrade.{submit_verification-IsSound}

-- The operations on sessions as steps between states, whatever their outcome and the engine's answers;
-- a submission marks the account as verified and calls `upgradeToken`.
pub data Step (env : Env) (w w' : World) : Type 0 where
  logs_in :
      (dto : LoginDto) (from : Origin) (at : Moment)
      → w' ≡ (login env dto from at w).1
      → Step env w w'
  refreshes :
      (token : String) (from : Origin) (at : Moment)
      → w' ≡ (refresh_tokens env token from at w).1
      → Step env w w'
  upgrades_session :
      (token : String) (from : Origin) (at : Moment)
      → w' ≡ (upgrade_session env token from at w).1
      → Step env w w'
  submits :
      (hours : ℕ) (engine : EnginePayload → Option EngineResponse) (user_id : ℕ)
      (document_number : String) (images : Images) (ip : String) (mode : ChallengeMode)
      (at : Moment)
      → w' ≡ (submit_verification env hours engine user_id document_number images ip mode at w).1
      → Step env w w'
  logs_out : (token : String) → w' ≡ (logout env token w).1 → Step env w w'
  logs_out_everywhere : (id now : ℕ) → w' ≡ (logout_all_devices env id now w).1 → Step env w w'

pub data Reach (env : Env) (w : World) : World → Type 0 where
  here : Reach env w w
  next : {v v' : World} → Reach env w v → Step env v v' → Reach env w v'

Step-IsSound : (env : Env) (w w' : World) → Step env w w' → IsSound w → IsSound w'
Step-IsSound env w w' (logs_in dto from at e) s = rw e (login-IsSound env dto from at w s)
Step-IsSound env w w' (refreshes token from at e) s =
    rw e (refresh_tokens-IsSound env token from at w s)
Step-IsSound env w w' (upgrades_session token from at e) s =
    rw e (upgrade_session-IsSound env token from at w s)
Step-IsSound env w w' (submits hours engine user_id document_number images ip mode at e) s =
    rw e
      (submit_verification-IsSound env hours engine user_id document_number images ip mode at w s)
Step-IsSound env w w' (logs_out token e) s = rw e (logout-IsSound env token w s)
Step-IsSound env w w' (logs_out_everywhere id now e) s =
    rw e (logout_all_devices-IsSound env id now w s)

-- After any sequence of logins, refreshes, upgrades, logouts and submissions of an identity, whatever
-- their outcomes, every token is revoked, or limited, or of an account whose identity is verified, if
-- that was so before.
pub Reach-IsSound : (env : Env) {w w' : World} → Reach env w w' → IsSound w → IsSound w'
Reach-IsSound env here s = s
Reach-IsSound env (next {v} {v'} r st) s = Step-IsSound env v v' st (Reach-IsSound env r s)
