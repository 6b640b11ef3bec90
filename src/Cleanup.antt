-- ===== src/Cleanup.antt =====
-- common/tasks/token-cleanup.task.ts: the nightly removal of refresh tokens. A failure is swallowed, and
-- the count is only logged.
use gracon_user_auth_service.Common.{
  ℕ, ◌≤◌, ◌≡◌, refl, sym, ap, subst, ◌∙◌, inl, inr, arith, Bool, true, false, not, ◌||◌, none, some,
  List, [], ◌∷◌, String, ltb, ◌==◌, Bool-cases, All, find, select,
}
use gracon_user_auth_service.Platform.{RefreshToken, World, unauthorized, throws, Env, Moment}
use gracon_user_auth_service.Auth.{Origin, refresh_tokens, rotate_refresh_token}

-- Expired, or revoked.
abbrev pub is_stale : ℕ → RefreshToken → Bool
is_stale now t = ltb t.expires_at now || t.revoked

find-select :
    {A : Type 0} (q p : A → Bool) (xs : List A) {x : A}
    → find q xs ≡ some x
    → p x ≡ true
    → find q (select p xs) ≡ some x
unfolding find select
find-select q p [] h k = ground arith
find-select q p (y ∷ ys) {x} h k = elim (Bool-cases (q y)) [
  | inl hit ↦ let same : y ≡ x = ground arith in ground arith
  | inr miss ↦ ground (arith, find-select q p ys {x = x} (ground arith) k)
]

-- Rows of which none is kept are not found among those kept.
find-select_gone :
    {A : Type 0} (q p : A → Bool) (xs : List A)
    → All (λ x. p x ≡ false) (select q xs)
    → find q (select p xs) ≡ none
unfolding find select
find-select_gone q p [] a = refl
find-select_gone q p (y ∷ ys) a = elim (Bool-cases (q y)) [
  | inl hit ↦
      let b : All (λ x. p x ≡ false) (y ∷ select q ys) = rw hit at a in
      ground (arith, b.0, find-select_gone q p ys b.1)
  | inr miss ↦
      let b : All (λ x. p x ≡ false) (select q ys) = rw miss at a in
      ground (arith, find-select_gone q p ys b)
]

module _ (env : Env) where
  unfoldable pub cleanup_expired_tokens : ℕ → World → World
  cleanup_expired_tokens now w = record w {
    refresh_tokens = env.delete_many RefreshToken (is_stale now) w.refresh_tokens;
  }

  -- A token that is neither expired nor revoked is found after the cleanup as before.
  pub cleanup_keeps :
      (now : ℕ) (w : World) (h : ℕ) (t : RefreshToken)
      → find (λ (r : RefreshToken). r.token_hash == h) w.refresh_tokens ≡ some t
      → t.revoked ≡ false
      → now ≤ t.expires_at
      → find (λ (r : RefreshToken). r.token_hash == h) (cleanup_expired_tokens now w).refresh_tokens
        ≡ some t
  unfolding cleanup_expired_tokens
  cleanup_keeps now w h t found unrevoked current = rw env.delete_many_lem (
      find-select (λ r. r.token_hash == h) (λ r. not (is_stale now r)) w.refresh_tokens found
        (ground arith))

  -- A revoked token is forgotten: once the cleanup has run it is refused as unknown and closes XX
  pub cleanup_forgets :
      (now : ℕ) (w : World) (token : String) (t : RefreshToken) (from : Origin) (at : Moment)
      → select (λ (r : RefreshToken). r.token_hash == env.hash token) w.refresh_tokens ≡ t ∷ []
      → t.revoked ≡ true
      → let v = cleanup_expired_tokens now w in
        refresh_tokens env token from at v ≡ (throws (unauthorized "Invalid refresh token"), v)
  unfolding cleanup_expired_tokens refresh_tokens rotate_refresh_token
  cleanup_forgets now w token t from at only revoked =
      let q = λ (r : RefreshToken). r.token_hash == env.hash token in
      let p = λ (r : RefreshToken). not (is_stale now r) in
      let stale : p t ≡ false = ground arith in
      let gone =
        find-select_gone q p w.refresh_tokens
          (subst (All (λ x. p x ≡ false)) (sym only) (stale, tt)) in
      let unknown : env.find_first RefreshToken q (cleanup_expired_tokens now w).refresh_tokens
          ≡ none =
        env.find_first_lem RefreshToken q (cleanup_expired_tokens now w).refresh_tokens
        ∙ ap (find q) (env.delete_many_lem RefreshToken (is_stale now) w.refresh_tokens)
        ∙ gone in
      ground arith
