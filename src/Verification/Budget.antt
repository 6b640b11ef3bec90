-- ===== src/Verification/Budget.antt =====
-- The budget of attempts through a sequence of submissions
-- (modules/verification/verification.service.ts).
use gracon_user_auth_service.Common.{
  ℕ, ◌-◌, ◌≤◌, ◌<◌, ◌≡◌, refl, sym, subst, ◌⊎◌, inl, inr, arith, not, ◌&&◌, ◌||◌, Option, none,
  some, String, ltb, ◌==◌, truthy, Bool-cases, Option-cases, length, find,
}
use gracon_user_auth_service.Platform.{User, CitizenIdentity, World, Env, Moment}
use gracon_user_auth_service.Common.Tables.{find_sound, select-append_rejected}
use gracon_user_auth_service.Common.Counting.{count_mono, count-append_one}
use gracon_user_auth_service.Users.Access.{find_by_id, identity_of}
use gracon_user_auth_service.Verification.{
  ChallengeMode, EnginePayload, EngineResponse, max_attempts, window_ms, attempt_since, is_fin,
  is_invitation,
}
use gracon_user_auth_service.Verification.Submit.{
  Images, challenge, with_document, gated, submit_verification,
}
use gracon_user_auth_service.Verification.Window.{in_window, enforce_attempt_limit_lem}
use gracon_user_auth_service.Verification.Submission.{Attempts, challenge-Attempts}

module _ (env : Env) (hours : ℕ) (engine : EnginePayload → Option EngineResponse) where
  with_document-Attempts :
      (u : User) (i : Option CitizenIdentity) (document_number : String) (images : Images)
      (ip : String) (mode : ChallengeMode) (at : Moment) (w : World)
      → Attempts env hours u.id at.now w
          (with_document env hours engine u i document_number images ip mode at w).1
  unfolding with_document
  with_document-Attempts u none document_number images ip mode at w = inl refl
  with_document-Attempts u (some c) document_number images ip mode at w =
      elim (Option-cases c.nid_encrypted) [
        | inl e ↦ inl (ground arith)
        | inr (cipher, e) ↦
            let attempt =
              challenge-Attempts env hours engine u c cipher document_number images ip mode at w in
            elim (Bool-cases (truthy cipher)) [
              | inl there ↦
                  let reached : with_document env hours engine u (some c) document_number images ip
                        mode at w
                      ≡ challenge env hours engine u c cipher document_number images ip mode at w =
                    ground arith in
                  rw reached attempt
              | inr blank ↦ inl (ground arith)
            ]
      ]

  -- An attempt is recorded only while the budget of the window is not spent.
  gated-Attempts :
      (u : User) (i : Option CitizenIdentity) (document_number : String) (images : Images)
      (ip : String) (mode : ChallengeMode) (at : Moment) (w : World)
      → 0 < hours
      → let w' = (gated env hours engine u i document_number images ip mode at w).1 in
        (w'.id_verifications ≡ w.id_verifications)
        ⊎ ((length (in_window hours u.id at.now w) < max_attempts)
            × Attempts env hours u.id at.now w w')
  unfolding gated
  gated-Attempts u i document_number images ip mode at w on =
      let gate = enforce_attempt_limit_lem env hours u.id at.now w on in
      let attempt = with_document-Attempts u i document_number images ip mode at w in
      elim (Bool-cases (
        (u.is_verified && u.is_active)
        && (not (is_fin i)
            && ((not u.is_id_verified || is_invitation mode)
                && ltb (length (in_window hours u.id at.now w)) max_attempts)))) [
                  | inl passes ↦
                      let reached : gated env hours engine u i document_number images ip mode at w
                          ≡ with_document env hours engine u i document_number images ip mode at w =
                        ground arith in
                      inr (ground arith, rw reached attempt)
                  | inr stopped ↦ inl (ground arith)
                ]

  submit_verification-Attempts :
      (user_id : ℕ) (document_number : String) (images : Images) (ip : String)
      (mode : ChallengeMode) (at : Moment) (w : World)
      → 0 < hours
      → let w' =
          (submit_verification env hours engine user_id document_number images ip mode at w).1 in
        (w'.id_verifications ≡ w.id_verifications)
        ⊎ ((length (in_window hours user_id at.now w) < max_attempts)
            × Attempts env hours user_id at.now w w')
  unfolding submit_verification
  submit_verification-Attempts user_id document_number images ip mode at w on =
      elim (Option-cases (find_by_id env user_id w)) [
        | inl e ↦ inl (ground arith)
        | inr (u, e) ↦
            let found : find (λ x. x.id == user_id) w.users ≡ some u =
              ground (arith, env.find_first_lem User (λ x. x.id == user_id) w.users) in
            let same : u.id ≡ user_id =
              ground (arith, find_sound (λ x. x.id == user_id) w.users found) in
            let reached : submit_verification env hours engine user_id document_number images ip
                  mode at w
                ≡ gated env hours engine u (identity_of env w u.id) document_number images ip mode
                    at w =
              ground arith in
            let gate =
              gated-Attempts u (identity_of env w u.id) document_number images ip mode at w on in
            rw (reached, ← same) gate
      ]

-- Submissions of any accounts, with any engine, one after another as time passes, among operations
-- that leave the attempts alone.
pub data Submissions (env : Env) (hours : ℕ) : ℕ → World → ℕ → World → Type 1 where
  none_yet : (now : ℕ) (w : World) → Submissions env hours now w now w
  waits :
      {t0 t t' : ℕ} {v w : World}
      → Submissions env hours t0 v t w
      → t ≤ t'
      → Submissions env hours t0 v t' w
  other :
      {t0 t : ℕ} {v w w' : World}
      → Submissions env hours t0 v t w
      → w'.id_verifications ≡ w.id_verifications
      → Submissions env hours t0 v t w'
  submits :
      {t0 : ℕ} {v w : World} (at : Moment)
      → Submissions env hours t0 v at.now w
      → (engine : EnginePayload → Option EngineResponse) (user_id : ℕ) (document_number : String)
        (images : Images) (ip : String) (mode : ChallengeMode)
      → Submissions env hours t0 v at.now
          (submit_verification env hours engine user_id document_number images ip mode at w).1

-- However often the accounts submit, and whatever the engine answers, at every time at most three
-- attempts of an account lie in its window, if that was so at the start.
pub Submissions-budget :
    (env : Env) (hours : ℕ)
    → 0 < hours
    → {t0 t : ℕ} {v w : World} → Submissions env hours t0 v t w
    → ((id : ℕ) → length (in_window hours id t0 v) ≤ max_attempts)
    → (id : ℕ) → length (in_window hours id t w) ≤ max_attempts
Submissions-budget env hours on (none_yet now w) start id = start id
Submissions-budget env hours on (waits {t0} {t} {t'} {v} {w} s later) start id =
    let before = Submissions-budget env hours on s start id in
    let fewer =
      count_mono (attempt_since id (t - window_ms hours)) (attempt_since id (t' - window_ms hours))
        w.id_verifications (λ x k. ground arith) in
    ground arith
Submissions-budget env hours on (other s same) start id =
    let before = Submissions-budget env hours on s start id in rw same before
Submissions-budget env hours on
      (submits {t0} {v} {w} at s engine user_id document_number images ip mode) start id =
    let before = Submissions-budget env hours on s start id in
    elim (submit_verification-Attempts env hours engine user_id document_number images ip mode at w
      on) [
        | inl same ↦ rw same before
        | inr (free, inl same) ↦ rw same before
        | inr (free, inr (row, mine, now, added)) ↦
            let p = attempt_since id (at.now - window_ms hours) in
            elim (Bool-cases (row.user_id == id)) [
              | inl counted ↦
                  let whose : id ≡ user_id = ground arith in
                  let room =
                    subst (λ n. length (in_window hours n at.now w) < max_attempts) (sym whose)
                      free in
                  rw added (ground (arith, count-append_one p w.id_verifications row))
              | inr not_counted ↦
                  rw (added, select-append_rejected p w.id_verifications row (ground arith)) before
            ]
      ]
