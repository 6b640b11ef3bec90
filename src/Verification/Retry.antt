-- ===== src/Verification/Retry.antt =====
-- When an account whose attempts are spent may try again (`retryAvailableAt` of
-- modules/verification/verification.service.ts).
use gracon_user_auth_service.Common.{
  ℕ, ◌+◌, ◌-◌, ◌≤◌, ◌<◌, ◌≡◌, inl, inr, arith, true, some, List, ◌∷◌, leb, Bool-cases, All, length,
  select,
}
use gracon_user_auth_service.Platform.{IdVerification, World, ok, throws, Env}
use gracon_user_auth_service.Common.Tables.{List-cases}
use gracon_user_auth_service.Common.Counting.{All-select, All-of_count, count_of_All, All-both}
use gracon_user_auth_service.Verification.{
  max_attempts, window_ms, attempt_since, too_many_attempts, windowed_attempts,
  get_verification_window_state, enforce_attempt_limit,
}
use gracon_user_auth_service.Verification.Window.{
  in_window, windowed-member, windowed-first, windowed-length, enforce_attempt_limit_lem,
}

module _ (env : Env) (hours user_id : ℕ) where
  -- The time named is that of the oldest attempt, moved by the window; the budget is spent.
  retry_at-oldest :
      (now t : ℕ) (w : World)
      → 0 < hours
      → (get_verification_window_state env hours user_id now w).retry_available_at ≡ some t
      → (v : IdVerification) × (vs : List IdVerification) × (windowed_attempts env hours user_id now
            w
          ≡ v ∷ vs)
        × (t ≡ v.created_at + window_ms hours)
        × (max_attempts ≤ length (in_window hours user_id now w))
  unfolding get_verification_window_state
  retry_at-oldest now t w on h = elim (List-cases (windowed_attempts env hours user_id now w)) [
    | inl e ↦ ground arith
    | inr (v, vs, e) ↦
        let n = windowed-length env hours user_id now w in (v, vs, e, ground arith, ground arith)
  ]

  -- Once the time that a spent budget named has passed, the gate opens: with three attempts in the
  -- window at most, and no attempt since, the account is let through at every later time.
  pub retry_after_wait :
      (now t later : ℕ) (w : World)
      → 0 < hours
      → (get_verification_window_state env hours user_id now w).retry_available_at ≡ some t
      → length (in_window hours user_id now w) ≤ max_attempts
      → t < later
      → enforce_attempt_limit env hours user_id later w ≡ (ok tt, w)
  retry_after_wait now t later w on h budget after =
      let (v, vs, e, time, spent) = retry_at-oldest now t w on h in
      let (least, inside) = windowed-first env hours user_id now w v vs e in
      let p = attempt_since user_id (now - window_ms hours) in
      let q = attempt_since user_id (later - window_ms hours) in
      let open_yet : now ≤ t = ground arith in
      let weaker : (x : IdVerification) → q x ≡ true → p x ≡ true = λ x k. ground arith in
      elim (Bool-cases (leb max_attempts (length (in_window hours user_id later w)))) [
        | inl full_again ↦
            let all = All-of_count p q w.id_verifications weaker (ground arith) in
            let still = windowed-member env hours user_id now w v vs (λ x. q x ≡ true) e all in
            ground arith
        | inr free ↦ ground (arith, enforce_attempt_limit_lem env hours user_id later w on)
      ]

  -- At the very time that a spent budget named, the gate still refuses, though no second of waiting
  -- is left.
  pub retry_at_refused :
      (now t : ℕ) (w : World)
      → 0 < hours
      → (get_verification_window_state env hours user_id now w).retry_available_at ≡ some t
      → enforce_attempt_limit env hours user_id t w ≡ (throws (too_many_attempts hours), w)
  retry_at_refused now t w on h =
      let (v, vs, e, time, spent) = retry_at-oldest now t w on h in
      let (least, inside) = windowed-first env hours user_id now w v vs e in
      let p = attempt_since user_id (now - window_ms hours) in
      let q = attempt_since user_id (t - window_ms hours) in
      let weaker : (x : IdVerification) → q x ≡ true → p x ≡ true = λ x k. ground arith in
      let all : All (λ x. q x ≡ true) (select p w.id_verifications) =
        All-both (λ x. v.created_at ≤ x.created_at) (λ x. p x ≡ true) (λ x. q x ≡ true)
          (select p w.id_verifications) (λ x a b. ground arith) least
          (All-select p w.id_verifications) in
      let both = count_of_All p q w.id_verifications weaker all in
      ground (arith, enforce_attempt_limit_lem env hours user_id t w on)
