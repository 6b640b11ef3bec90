-- ===== src/Users/Registration/Result.antt =====
-- What a registration leaves behind (`UsersService.register` of modules/users/users.service.ts).
use gracon_user_auth_service.Common.{
  refl, ap, ◌∙◌, [], ◌∷◌, ◌++◌, ◌≡◌, inl, inr, arith, false, not, ◌&&◌, ◌||◌, str_eq, Bool-cases,
}
use gracon_user_auth_service.Platform.{
  User, CitizenIdentity, World, Exception, ok, throws, Env, Moment,
}
use gracon_user_auth_service.Platform.Laws.{Outcome-cases, Reply-cases}
use gracon_user_auth_service.Users.Requests.{RegisterDto, given}
use gracon_user_auth_service.Users.Registration.{
  RegistrationIdentityRecord, RegistrationResult, Draw, Registries, generate_pid,
  assert_exclusive_identity_input, resolve_registration_identity,
}
use gracon_user_auth_service.Users.Registration.Register.{
  same_identity, user_row, identity_row, platform_row, verification_token_row, registered,
  registration_rows, persist, email_is_taken, identity_is_taken, register_identity, register,
}
use gracon_user_auth_service.Users.Registration.Rows.{
  Registers, resolve_state, user_row_lem, identity_row-Describes, registration_rows-accepted,
}

module _ (env : Env) where
  register_identity_throws :
      (registries : Registries) (dto : RegisterDto) (draw : Draw) (at : Moment)
      (i : RegistrationIdentityRecord) (w : World) {e : Exception} {w' : World}
      → register_identity env registries dto draw at i w ≡ (throws e, w')
      → w' ≡ w
  unfolding register_identity persist
  register_identity_throws registries dto draw at i w h = ground arith

  -- A registration that fails leaves the state as it was, whatever the reason.
  pub register_throws :
      (registries : Registries) (dto : RegisterDto) (draw : Draw) (at : Moment) (w : World)
      {e : Exception} {w' : World}
      → register env registries dto draw at w ≡ (throws e, w')
      → w' ≡ w
  unfolding register assert_exclusive_identity_input
  register_throws registries dto draw at w {e} {w'} h =
      let same = resolve_state env registries dto w in
      elim (Outcome-cases (resolve_registration_identity registries dto w)) [
        | inl (i, v, r) ↦
            elim (Bool-cases (
              (given dto.document_number && given dto.fin)
              || (not (given dto.document_number) && not (given dto.fin)))) [
                | inl bad ↦ ground arith
                | inr good ↦
                    let ran : register_identity env registries dto draw at i v ≡ (throws e, w') =
                      ground arith in
                    ground (arith, register_identity_throws registries dto draw at i v ran)
              ]
        | inr (x, v, r) ↦ ground arith
      ]

  register_identity-Registers :
      (registries : Registries) (dto : RegisterDto) (draw : Draw) (at : Moment)
      (i : RegistrationIdentityRecord) (w : World) {res : RegistrationResult} {w' : World}
      → (given dto.document_number && given dto.fin) ≡ false
      → resolve_registration_identity registries dto w ≡ (ok i, w)
      → register_identity env registries dto draw at i w ≡ (ok res, w')
      → Registers env registries dto draw at w res w'
  unfolding register_identity persist
  register_identity-Registers registries dto draw at i w {res} {w'} one_number resolved h =
      let pid = generate_pid (registries.full_year i.date_of_birth) draw.digits in
      let emails = env.find_first_lem User (λ u. str_eq u.email dto.email) w.users in
      let identities =
        env.find_first_lem CitizenIdentity
          (same_identity i.identity_type (env.hash i.identity_number)) w.citizen_identities in
      elim (Reply-cases
        (env.transaction (User × World) (registration_rows env dto i pid draw at w))) [
          | inr (c, e) ↦ ground arith
          | inl ((u, v), e) ↦
              let committed =
                env.transaction_lem (User × World) (registration_rows env dto i pid draw at w)
                  (u, v) e in
              let (id, token_id, p, q) =
                registration_rows-accepted env dto i pid draw at w committed in
              let row = user_row_lem env dto i.identity_type at id in
              let committed_state : v ≡ record w {
                users = w.users ++ user_row env dto i.identity_type at id ∷ [];
                citizen_identities =
                    w.citizen_identities ++ identity_row env i draw.identity_vector id ∷ [];
                platform_ids = w.platform_ids ++ platform_row env pid draw.pid_vector id ∷ [];
                email_tokens = w.email_tokens ++ verification_token_row env id at token_id ∷ [];
              } =
                q in
              let sent : w' ≡ record v { mails = w'.mails } = ground arith in
              let added : w' ≡ record w {
                users = w.users ++ user_row env dto i.identity_type at id ∷ [];
                citizen_identities =
                    w.citizen_identities ++ identity_row env i draw.identity_vector id ∷ [];
                platform_ids = w.platform_ids ++ platform_row env pid draw.pid_vector id ∷ [];
                email_tokens = w.email_tokens ++ verification_token_row env id at token_id ∷ [];
                mails = w'.mails;
              } =
                sent ∙ ap (λ (z : World). record z { mails = w'.mails }) committed_state in
              let answered : res ≡ registered env i pid (user_row env dto i.identity_type at id) =
                ground arith in
              let free : (email_is_taken env dto w ≡ false) × (identity_is_taken env i w ≡ false) =
                ground arith in
              record {
                one_number = one_number;
                identity = i;
                resolved = resolved;
                new_email = ground arith;
                new_identity = ground arith;
                id = id;
                token_id = token_id;
                added_row = identity_row env i draw.identity_vector id;
                same_row = refl;
                users = ap (λ (z : World). z.users) added ∙ ap (λ u. w.users ++ u ∷ []) row;
                identities = ap (λ (z : World). z.citizen_identities) added;
                described = identity_row-Describes env i draw.identity_vector id;
                pid = pid;
                generated = refl;
                platform_ids = ap (λ (z : World). z.platform_ids) added;
                tokens = ap (λ (z : World). z.email_tokens) added;
                mails = ground arith;
                answer = answered ∙ ap (registered env i pid) row;
                frame = ground arith;
              }
        ]

  pub register-Registers :
      (registries : Registries) (dto : RegisterDto) (draw : Draw) (at : Moment) (w : World)
      {res : RegistrationResult} {w' : World}
      → register env registries dto draw at w ≡ (ok res, w')
      → Registers env registries dto draw at w res w'
  unfolding register assert_exclusive_identity_input
  register-Registers registries dto draw at w {res} {w'} h =
      let same = resolve_state env registries dto w in
      elim (Outcome-cases (resolve_registration_identity registries dto w)) [
        | inl (i, v, r) ↦
            register_identity-Registers registries dto draw at i w (ground arith) (ground arith)
              (ground arith)
        | inr (x, v, r) ↦ ground arith
      ]
