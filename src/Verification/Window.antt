-- ===== src/Verification/Window.antt =====
-- The sliding window of attempts: what is reported, when a locked account may try again, and the
-- budget of attempts.
use gracon_user_auth_service.Common.{
  ℕ, ◌+◌, ◌-◌, ◌*◌, ◌≤◌, ◌<◌, ◌≡◌, sym, ap, ◌∙◌, ◌⊎◌, arith, true, none, some, List, ◌∷◌, leb,
  if◌then◌else◌, All, length, select,
}
use gracon_user_auth_service.Platform.{IdVerification, World, ok, throws, Env}
use gracon_user_auth_service.Common.Counting.{All-select}
use gracon_user_auth_service.Verification.{
  VerificationWindowState, max_attempts, window_ms, attempt_since, too_many_attempts,
  windowed_attempts, get_verification_window_state, enforce_attempt_limit,
}

-- The attempts of an account in the window that ends now.
abbrev pub in_window : ℕ → ℕ → ℕ → World → List IdVerification
in_window hours user_id now w =
    select (attempt_since user_id (now - window_ms hours)) w.id_verifications

-- What the window state says of the attempts in the window: those left are the rest of the budget,
-- and the retry times are given exactly when none is left.
pub record Reports (hours now : ℕ) (attempts : List IdVerification) (s : VerificationWindowState)
    : Type 0 where
  pub used : s.attempts_used ≡ length attempts
  pub left :
      (s.attempts_remaining + s.attempts_used ≡ max_attempts)
      ⊎ ((s.attempts_remaining ≡ 0) × (max_attempts < s.attempts_used))
  pub retry :
      ((0 < s.attempts_remaining) × (s.retry_available_at ≡ none) × (s.retry_after_seconds ≡ none))
      ⊎ ((s.attempts_remaining ≡ 0)
          × ((t seconds : ℕ) × (s.retry_available_at ≡ some t)
              × (s.retry_after_seconds ≡ some seconds)
              × (now ≤ t)
              × All (λ v. t ≤ v.created_at + window_ms hours) attempts
              × (t ≤ now + seconds * 1000)
              × (now + seconds * 1000 < t + 1000)))

module _ (env : Env) (hours user_id : ℕ) where
  -- The oldest attempt of a non-empty window is one of those in it.
  pub windowed-member :
      (now : ℕ) (w : World) (v : IdVerification) (vs : List IdVerification)
      (P : IdVerification → Type 0)
      → windowed_attempts env hours user_id now w ≡ v ∷ vs
      → All P (in_window hours user_id now w)
      → P v
  windowed-member now w v vs P e all =
      let p = attempt_since user_id (now - window_ms hours) in
      let rows = env.find_many_lem IdVerification p w.id_verifications in
      env.order_by_member IdVerification (λ x. x.created_at) (select p w.id_verifications) v vs P
        (ap (λ xs. env.order_by IdVerification (λ x. x.created_at) xs) (sym rows) ∙ e) all

  pub windowed-first :
      (now : ℕ) (w : World) (v : IdVerification) (vs : List IdVerification)
      → windowed_attempts env hours user_id now w ≡ v ∷ vs
      → All (λ x. v.created_at ≤ x.created_at) (in_window hours user_id now w)
        × (attempt_since user_id (now - window_ms hours) v ≡ true)
  windowed-first now w v vs e =
      let p = attempt_since user_id (now - window_ms hours) in
      let rows = env.find_many_lem IdVerification p w.id_verifications in
      (
        env.order_by_least IdVerification (λ x. x.created_at) (select p w.id_verifications) v vs
            (ap (λ xs. env.order_by IdVerification (λ x. x.created_at) xs) (sym rows) ∙ e),
        windowed-member now w v vs (λ x. p x ≡ true) e (All-select p w.id_verifications),
      )

  pub windowed-length :
      (now : ℕ) (w : World)
      → length (windowed_attempts env hours user_id now w) ≡ length (in_window hours user_id now w)
  windowed-length now w =
      let p = attempt_since user_id (now - window_ms hours) in
      env.order_by_length IdVerification (λ x. x.created_at) _
      ∙ ap length (env.find_many_lem IdVerification p w.id_verifications)

  pub attempts_used_lem :
      (now : ℕ) (w : World)
      → 0 < hours
      → (get_verification_window_state env hours user_id now w).attempts_used
        ≡ length (in_window hours user_id now w)
  unfolding get_verification_window_state
  attempts_used_lem now w on = ground (arith, windowed-length now w)

  -- The gate refuses an account exactly if three attempts or more lie in its window.
  pub enforce_attempt_limit_lem :
      (now : ℕ) (w : World)
      → 0 < hours
      → enforce_attempt_limit env hours user_id now w ≡ (
          if leb max_attempts (length (in_window hours user_id now w))
          then (throws (too_many_attempts hours), w)
          else (ok tt, w))
  unfolding enforce_attempt_limit
  enforce_attempt_limit_lem now w on = ground (arith, attempts_used_lem now w on)
