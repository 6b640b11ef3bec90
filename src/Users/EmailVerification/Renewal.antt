-- ===== src/Users/EmailVerification/Renewal.antt =====
-- users.service.ts, the renewal of an account's token: the row that is there is replaced.
use gracon_user_auth_service.Common.{
  ℕ, ◌+◌, ◌≤◌, ◌≡◌, refl, ap, subst, ◌∙◌, ◌⊎◌, inl, inr, arith, Bool, false, some, List, [], ◌∷◌,
  ◌++◌, String, ◌==◌, Bool-cases, length, find, select, update_where, ==_refl,
}
use gracon_user_auth_service.Common.Tables.{
  find_sound, select_of_missing, select-append_rejected, find-update_where, find-append_none,
}
use gracon_user_auth_service.Platform.{
  User, EmailVerificationToken, verification_email, World, prisma, Outcome, ok, throws, Env, Moment,
}
use gracon_user_auth_service.Platform.Laws.{Reply-cases}
use gracon_user_auth_service.Common.Counting.{count-append_one}
use gracon_user_auth_service.Users.Registration.Register.{
  verification_token_row, verification_token_expiry_ms,
}
use gracon_user_auth_service.Users.EmailVerification.{
  resend_response, token_of, renew, upsert_token,
}

-- Each account has one token at most.
abbrev pub Single : World → Type 0
Single w = (id : ℕ) → length (select (token_of id) w.email_tokens) ≤ 1

-- The row that a resend leaves for an account, with the columns that decide on a link.
pub record Renews (env : Env) (user_id : ℕ) (at : Moment) (w w' : World) : Type 0 where
  pub token : EmailVerificationToken
  pub found : find (token_of user_id) w'.email_tokens ≡ some token
  pub hashed : token.token_hash ≡ env.hash at.random
  pub unused : token.used ≡ false
  pub expiry : token.expires_at ≡ at.now + verification_token_expiry_ms
  pub frame : w' ≡ record w { email_tokens = w'.email_tokens; mails = w'.mails }

-- What a resend for the account `u` comes to, from the state `w`.
abbrev pub Resends : Env → User → Moment → World → Outcome String × World → Type 0
Resends env u at w (r, w') =
    Single w'
    × (((r ≡ ok resend_response)
          × ((sur_name post_names : String) × (w'.mails
                ≡ w.mails ++ verification_email u.email sur_name post_names u.id at.random ∷ []))
          × Renews env u.id at w w')
        ⊎ ((code : String) × (r ≡ throws (prisma code)) × (w' ≡ w)))

pub count-update_where :
    {A : Type 0} (p q : A → Bool) (f : A → A) (xs : List A)
    → ((a : A) → q (f a) ≡ q a)
    → length (select q (update_where p f xs)) ≡ length (select q xs)
unfolding select update_where
count-update_where p q f [] same = refl
count-update_where p q f (x ∷ xs) same = ground (arith, same x, count-update_where p q f xs same)

module _ (env : Env) where
  pub upsert_token-Renews :
      (id : ℕ) (at : Moment) (w : World) {x : Unit {0}} {w' : World}
      → upsert_token env id at w ≡ (ok x, w')
      → Renews env id at w w'
  unfolding upsert_token find
  upsert_token-Renews id at w {x} {w'} h =
      elim (Reply-cases (
        env.upsert EmailVerificationToken (token_of id) (verification_token_row env id at)
          (renew env at) w.email_tokens)) [
            | inr (c, e) ↦ ground arith
            | inl ((stored, rows), e) ↦
                let now : w'.email_tokens ≡ rows = ground arith in
                elim (env.upsert_lem EmailVerificationToken (token_of id)
                  (verification_token_row env id at) (renew env at) w.email_tokens stored rows e) [
                    | inl (t, found, is_new, changed) ↦
                        let new =
                          find-update_where (token_of id) (token_of id) (renew env at)
                            w.email_tokens (λ a. refl) found in
                        record {
                          token = renew env at t;
                          found =
                              ap (find (token_of id)) (now ∙ changed)
                              ∙ new
                              ∙ ground (arith, find_sound (token_of id) w.email_tokens found);
                          hashed = refl;
                          unused = refl;
                          expiry = refl;
                          frame = ground arith;
                        }
                    | inr (none_yet, (n, is_new, added)) ↦ record {
                      token = verification_token_row env id at n;
                      found =
                          ap (find (token_of id)) (now ∙ added)
                          ∙ find-append_none (token_of id) w.email_tokens
                              (verification_token_row env id at n ∷ []) none_yet
                          ∙ ground (arith, ==_refl id);
                      hashed = refl;
                      unused = refl;
                      expiry = refl;
                      frame = ground arith;
                    }
                  ]
          ]

  pub upsert_token_mails :
      (id : ℕ) (at : Moment) (w : World) → (upsert_token env id at w).1.mails ≡ w.mails
  unfolding upsert_token
  upsert_token_mails id at w = ground arith

  pub upsert_token-Single :
      (id : ℕ) (at : Moment) (w : World) → Single w → Single (upsert_token env id at w).1
  unfolding upsert_token
  upsert_token-Single id at w single other =
      elim (Reply-cases (
        env.upsert EmailVerificationToken (token_of id) (verification_token_row env id at)
          (renew env at) w.email_tokens)) [
            | inr (c, e) ↦ ground (arith, single other)
            | inl ((stored, rows), e) ↦
                let now : (upsert_token env id at w).1.email_tokens ≡ rows = ground arith in
                elim (env.upsert_lem EmailVerificationToken (token_of id)
                  (verification_token_row env id at) (renew env at) w.email_tokens stored rows e) [
                    | inl (t, found, is_new, changed) ↦ ground (
                      arith,
                      single other,
                      count-update_where (token_of id) (token_of other) (renew env at)
                          w.email_tokens (λ a. refl),
                    )
                    | inr (none_yet, (n, is_new, added)) ↦
                        let row = verification_token_row env id at n in
                        let before : length (select (token_of id) w.email_tokens) ≡ 0 =
                          ap length (select_of_missing (token_of id) w.email_tokens none_yet) in
                        elim (Bool-cases (id == other)) [
                          | inl same ↦
                              let whose : id ≡ other = ground arith in
                              let none_of : length (select (token_of other) w.email_tokens) ≡ 0 =
                                subst (λ m. length (select (token_of m) w.email_tokens) ≡ 0) whose
                                  before in
                              ground (arith, count-append_one (token_of other) w.email_tokens row)
                          | inr differs ↦ ground (
                            arith,
                            single other,
                            select-append_rejected (token_of other) w.email_tokens row differs,
                          )
                        ]
                  ]
          ]
