-- ===== src/Configuration/Checks.antt =====
-- config/env.validation.ts: the environments with which the service starts.
use gracon_user_auth_service.Common.{
  ℕ, ◌≤◌, ◌≡◌, refl, ap, ◌↔◌, inl, inr, arith, Bool, true, Option, none, some, List, [], ◌∷◌, ◌++◌,
  String, leb, ◌==◌, truthy, All,
}
use gracon_user_auth_service.Common.Tables.{List-cases}
use gracon_user_auth_service.Citizen.{size}
use gracon_user_auth_service.Configuration.{
  Number, natural, negative, not_a_number, fraction, AppEnv, valid, required_texts, check_text,
  check_size, check_int, check_app_env, raw, app_env, app_port, mail_port, window_hours,
  check_texts, problems, environment, validate_env,
}

-- A text that is set and not empty.
abbrev pub IsText : Option String → Type 0
IsText none = ⊥
IsText (some s) = truthy s ≡ true

-- A number that is natural and not below the least.
abbrev pub IsAtLeast : ℕ → Option Number → Type 0
IsAtLeast least none = ⊥
IsAtLeast least (some (natural n)) = least ≤ n
IsAtLeast least (some _) = ⊥

-- A text that is set, of a size that fits.
abbrev pub HasSize : (ℕ → Bool) → Option String → Type 0
HasSize fits none = ⊥
HasSize fits (some s) = fits (size s) ≡ true

append-eq-nil : (xs ys : List String) → xs ++ ys ≡ [] → (xs ≡ []) × (ys ≡ [])
append-eq-nil [] ys h = (refl, h)
append-eq-nil (x ∷ xs) ys h = absurd (ground arith)

check_text-IsText :
    (o : Option String) (field : String × String) → (check_text o field ≡ []) ↔ IsText o
unfolding check_text
check_text-IsText none field = (λ h. ground arith, λ h. absurd h)
check_text-IsText (some s) field = (λ h. ground arith, λ h. ground arith)

check_size-HasSize :
    (fits : ℕ → Bool) (o : Option String) (name message : String)
    → (check_size fits o name message ≡ []) ↔ HasSize fits o
unfolding check_size
check_size-HasSize fits none name message = (λ h. ground arith, λ h. absurd h)
check_size-HasSize fits (some s) name message = (λ h. ground arith, λ h. ground arith)

check_int-IsAtLeast :
    (least : ℕ) (o : Option Number) (integer_message least_message : String)
    → (check_int least o integer_message least_message ≡ []) ↔ IsAtLeast least o
unfolding check_int
check_int-IsAtLeast least none i m = (λ h. ground arith, λ h. absurd h)
check_int-IsAtLeast least (some (natural n)) i m = (λ h. ground arith, λ h. ground arith)
check_int-IsAtLeast least (some negative) i m = (λ h. ground arith, λ h. absurd h)
check_int-IsAtLeast least (some not_a_number) i m = (λ h. ground arith, λ h. absurd h)
check_int-IsAtLeast least (some (fraction n)) i m = (λ h. ground arith, λ h. absurd h)

module _ (number : String → Number) (config : String → Option String) where
  check_texts-IsText :
      (fields : List (String × String))
      → (check_texts number config fields ≡ [])
        ↔ All (λ (field : String × String). IsText (raw number config field.0)) fields
  unfolding check_texts
  check_texts-IsText [] = (λ h. tt, λ h. refl)
  check_texts-IsText (field ∷ fields) =
      let here = check_text-IsText (raw number config field.0) field in
      let rest = check_texts-IsText fields in
      (
        λ h.
            let (e, k) =
              append-eq-nil (check_text (raw number config field.0) field)
                (check_texts number config fields) h in
            (here.0 e, rest.0 k),
        λ h. rw (here.1 h.0) (rest.1 h.1),
      )

  -- The environment that the service needs.
  pub record IsConfigured : Type 0 where
    pub env : AppEnv
    pub known_env : app_env number config ≡ some env
    pub port : IsAtLeast 1 (app_port number config)
    pub secret : HasSize (λ n. leb 32 n) (config "JWT_SECRET")
    pub key : HasSize (λ n. n == 32) (config "ENCRYPTION_SECRET")
    pub mail : IsAtLeast 1 (mail_port number config)
    pub texts : All (λ (field : String × String). IsText (raw number config field.0)) required_texts
    pub hours : IsAtLeast 0 (window_hours number config)

  check_app_env-known : (o : Option AppEnv) → check_app_env o ≡ [] → (env : AppEnv) × (o ≡ some env)
  check_app_env-known none h = absurd (ground arith)
  check_app_env-known (some env) h = (env, refl)

  problems-IsConfigured : problems number config ≡ [] → IsConfigured
  unfolding problems
  problems-IsConfigured h =
      let (a, h1) = append-eq-nil (check_app_env (app_env number config)) _ h in
      let (b, h2) = append-eq-nil (check_int 1 (app_port number config) _ _) _ h1 in
      let (c, h3) = append-eq-nil (check_size (λ n. leb 32 n) (config "JWT_SECRET") _ _) _ h2 in
      let (d, h4) =
        append-eq-nil (check_size (λ n. n == 32) (config "ENCRYPTION_SECRET") _ _) _ h3 in
      let (e, h5) = append-eq-nil (check_int 1 (mail_port number config) _ _) _ h4 in
      let (f, g) = append-eq-nil (check_texts number config required_texts) _ h5 in
      let (env, known) = check_app_env-known (app_env number config) a in
      record {
        env = env;
        known_env = known;
        port = (check_int-IsAtLeast 1 (app_port number config) _ _).0 b;
        secret = (check_size-HasSize (λ n. leb 32 n) (config "JWT_SECRET") _ _).0 c;
        key = (check_size-HasSize (λ n. n == 32) (config "ENCRYPTION_SECRET") _ _).0 d;
        mail = (check_int-IsAtLeast 1 (mail_port number config) _ _).0 e;
        texts = (check_texts-IsText required_texts).0 f;
        hours = (check_int-IsAtLeast 0 (window_hours number config) _ _).0 g;
      }

  append_nils : (xs ys : List String) → xs ≡ [] → ys ≡ [] → xs ++ ys ≡ []
  append_nils [] ys e f = f
  append_nils (x ∷ xs) ys e f = absurd (ground arith)

  IsConfigured-problems : IsConfigured → problems number config ≡ []
  unfolding problems
  IsConfigured-problems k = append_nils _ _ (ap check_app_env k.known_env) (
      append_nils _ _ ((check_int-IsAtLeast 1 (app_port number config) _ _).1 k.port) (
        append_nils _ _ ((check_size-HasSize (λ n. leb 32 n) (config "JWT_SECRET") _ _).1 k.secret)
          (append_nils _ _
            ((check_size-HasSize (λ n. n == 32) (config "ENCRYPTION_SECRET") _ _).1 k.key)
            (append_nils _ _ ((check_int-IsAtLeast 1 (mail_port number config) _ _).1 k.mail) (
              append_nils _ _ ((check_texts-IsText required_texts).1 k.texts)
                ((check_int-IsAtLeast 0 (window_hours number config) _ _).1 k.hours))))))

  -- The service starts exactly in an environment with a known APP_ENV, ports of at least 1, a JWT
  -- secret of at least 32 characters, an encryption secret of exactly 32, every required text, and a
  -- window that is a natural number of hours, where the defaults count as set.
  pub validate_env-IsConfigured :
      (validate_env number config ≡ valid (environment number config)) ↔ IsConfigured
  unfolding validate_env
  validate_env-IsConfigured = (
    λ h. elim (List-cases (problems number config)) [
      | inl e ↦ problems-IsConfigured e
      | inr (p, ps, e) ↦ absurd (ground arith)
    ],
    λ k. rw (validate_env, IsConfigured-problems k) refl,
  )
