-- ===== src/Verification/Upgrade.antt =====
-- A submission keeps the session invariant: the full token that it issues is of an account that it has
-- marked as verified (modules/verification/verification.service.ts, modules/auth/auth.service.ts).
use gracon_user_auth_service.Common.{
  ℕ, ◌≡◌, refl, sym, subst, inl, inr, arith, Bool, true, not, ◌&&◌, Option, none, some, List,
  String, str_eq, ◌==◌, trim, truthy, if◌then◌else◌, ltb, leb, Bool-cases, Option-cases, find,
  update_where, ==_iff, ==_refl, ap, ◌∙◌,
}
use gracon_user_auth_service.Common.Tables.{
  All-update_where, All-map, find-update_where, find_sound,
}
use gracon_user_auth_service.Platform.{User, CitizenIdentity, World, Env, Moment}
use gracon_user_auth_service.Platform.Laws.{Outcome-cases}
use gracon_user_auth_service.Users.Access.{find_by_id, identity_of}
use gracon_user_auth_service.Auth.{Origin, upgrade_token}
use gracon_user_auth_service.Auth.Sound.{HasVerifiedOwner, Covered, IsSound, Keeps-IsSound}
use gracon_user_auth_service.Auth.Sessions.{upgrade_token-IsSound}
use gracon_user_auth_service.Verification.{
  ChallengeMode, EnginePayload, EngineResponse, get_next_attempt_number,
  get_verification_window_state, enforce_attempt_limit, is_invitation, is_fin, max_attempts,
}
use gracon_user_auth_service.Verification.Submit.{
  Images, recorded, cleanup_images, upload_images, attempt_row, set_user, count_attempt,
  verify_identity, activate, settle, challenge, with_document, gated, submit_verification,
}
use gracon_user_auth_service.Verification.Effects.{upload_images_frame}
use gracon_user_auth_service.Verification.Submission.{both, abandon_lem}
use gracon_user_auth_service.Storage.{remaining_objects}

-- A change of the accounts that keeps their ids, and unverifies none.
abbrev Grows : (User → User) → Type 0
Grows f =
    ((a : User) → (f a).id ≡ a.id)
    × ((a : User) → a.is_id_verified ≡ true → (f a).is_id_verified ≡ true)

HasVerifiedOwner-update_where :
    (p : User → Bool) (f : User → User) (users : List User) (id : ℕ)
    → Grows f
    → HasVerifiedOwner users id
    → HasVerifiedOwner (update_where p f users) id
HasVerifiedOwner-update_where p f users id (same, up) (u, found, verified) =
    let by_id = λ (a : User). a.id == id in
    (
      (if p u then f u else u),
      find-update_where p by_id f users (λ a. ap (λ n. n == id) (same a)) found,
      elim (Bool-cases (p u)) [ inl hit ↦ rw hit (up u verified) | inr other ↦ rw other verified ],
    )

update_where-IsSound :
    (p : User → Bool) (f : User → User) (w : World)
    → Grows f
    → IsSound w
    → IsSound (record w { users = update_where p f w.users })
update_where-IsSound p f w grows s =
    let users' = update_where p f w.users in
    record {
      keyed =
          All-update_where (λ (u : User). find (λ (a : User). a.id == u.id) w.users ≡ some u)
            (λ (u : User). find (λ (a : User). a.id == u.id) users' ≡ some u) p f w.users
            (λ u found.
              let by_id = λ (a : User). a.id == u.id in
              let kept : find by_id users' ≡ some (if p u then f u else u) =
                find-update_where p by_id f w.users (λ a. ap (λ n. n == u.id) (grows.0 a)) found in
              let id_kept : u.id ≡ (if p u then f u else u).id = elim (Bool-cases (p u)) [
                | inl hit ↦ rw hit (sym (grows.0 u))
                | inr other ↦ rw other refl
              ] in
              subst (λ n. find (λ (a : User). a.id == n) users' ≡ some (if p u then f u else u))
                id_kept kept)
            s.keyed;
      covered =
          All-map (Covered w.users) (Covered users') w.refresh_tokens
            (λ t c. elim c [
              | inl revoked ↦ inl revoked
              | inr (inl lim) ↦ inr (inl lim)
              | inr (inr owner) ↦
                  inr (inr (HasVerifiedOwner-update_where p f w.users t.user_id grows owner))
            ])
            s.covered;
    }

-- The invariant is about the accounts and the tokens.
same-IsSound :
    (w w' : World)
    → w'.users ≡ w.users
    → w'.refresh_tokens ≡ w.refresh_tokens
    → IsSound w
    → IsSound w'
same-IsSound w w' users tokens s = Keeps-IsSound w w' s (users, rw tokens s.covered)

module _ (env : Env) (hours : ℕ) where
  set_user-IsSound :
      (u : User) (f : User → User) (w : World)
      → Grows f
      → find (λ (a : User). a.id == u.id) w.users ≡ some u
      → IsSound w
      → IsSound (set_user env hours u.id f w).1
  set_user-IsSound u f w grows found s =
      let done = env.update_lem User (λ a. a.id == u.id) f w.users u found in
      rw done (update_where-IsSound (λ a. a.id == u.id) f w grows s)

  activate-IsSound :
      (u : User) (r : EngineResponse) (ip : String) (at : Moment) (w : World)
      → find (λ (a : User). a.id == u.id) w.users ≡ some u
      → IsSound w
      → IsSound (activate env hours u r ip at w).1
  unfolding activate
  activate-IsSound u r ip at w found s =
      let by_id = λ (a : User). a.id == u.id in
      let verify = verify_identity env hours at.now in
      elim (Bool-cases (r.passed && not u.is_id_verified)) [
        | inr stays ↦
            let reached : (activate env hours u r ip at w).1
                ≡ (set_user env hours u.id (count_attempt env hours) w).1 =
              ground arith in
            rw reached
              (set_user-IsSound u (count_attempt env hours) w ((λ a. refl), (λ a h. h)) found s)
        | inl upgrades ↦
            let from : Origin = record {
              ip_address = ip;
              user_agent = "id-verification-upgrade";
            } in
            let v = (set_user env hours u.id verify w).1 in
            let reached : (activate env hours u r ip at w).1
                ≡ (upgrade_token env u.id from at v).1 =
              ground arith in
            let marked : v.users ≡ update_where by_id verify w.users =
              env.update_lem User by_id verify w.users u found in
            let owner : HasVerifiedOwner v.users u.id = (
              verify u,
              ap (find by_id) marked
                  ∙ find-update_where by_id by_id verify w.users (λ a. refl) found
                  ∙ ap (λ b. some (if b then verify u else u)) (==_refl u.id),
              refl,
            ) in
            rw reached (
              upgrade_token-IsSound env u.id from at v owner
                (set_user-IsSound u verify w ((λ a. refl), (λ a h. refl)) found s))
      ]

  settle-IsSound :
      (u : User) (c : CitizenIdentity) (document_number : String) (keys : String × String)
      (r : EngineResponse) (ip : String) (mode : ChallengeMode) (at : Moment) (w : World)
      → find (λ (a : User). a.id == u.id) w.users ≡ some u
      → IsSound w
      → IsSound (settle env hours u c document_number keys r ip mode at w).1
  unfolding settle cleanup_images
  settle-IsSound u c document_number keys r ip mode at w found s =
      let v : World = record w {
        id_verifications =
            recorded env hours
              (attempt_row env hours u.id (get_next_attempt_number env hours u.id w) r ip at.now)
              w.id_verifications;
        objects = remaining_objects env (both env hours keys) w.objects;
      } in
      let active = activate-IsSound u r ip at v found (same-IsSound w v refl refl s) in
      elim (Outcome-cases (activate env hours u r ip at v)) [
        | inl (t, v', e) ↦
            let after : (activate env hours u r ip at v).1 ≡ v' = ap (λ z. z.1) e in
            same-IsSound v' _ (ground arith) (ground arith) (subst IsSound after active)
        | inr (x, v', e) ↦
            let after : (activate env hours u r ip at v).1 ≡ v' = ap (λ z. z.1) e in
            same-IsSound v' _ (ground arith) (ground arith) (subst IsSound after active)
      ]

  module _ (engine : EnginePayload → Option EngineResponse) where
    challenge-IsSound :
        (u : User) (c : CitizenIdentity) (cipher document_number : String) (images : Images)
        (ip : String) (mode : ChallengeMode) (at : Moment) (w : World)
        → find (λ (a : User). a.id == u.id) w.users ≡ some u
        → IsSound w
        → IsSound (challenge env hours engine u c cipher document_number images ip mode at w).1
    unfolding challenge
    challenge-IsSound u c cipher document_number images ip mode at w found s =
        let frame = upload_images_frame env hours u.id images w in
        elim (Outcome-cases (upload_images env hours u.id images w)) [
          | inr (x, v, e) ↦ same-IsSound w _ (ground arith) (ground arith) s
          | inl (keys, v, e) ↦
              let matched = str_eq (env.decrypt cipher) (trim document_number) in
              let payload : EnginePayload = record {
                id_image_key = keys.0;
                selfie_image_key = keys.1;
                user_id = u.id;
                document_match = matched;
              } in
              let kept : v ≡ record w { objects = v.objects } = ground arith in
              elim (Option-cases (engine payload)) [
                | inl silent ↦
                    let gone = abandon_lem env hours u.id matched keys ip at.now v in
                    same-IsSound w _ (ground arith) (ground arith) s
                | inr (r, answer) ↦
                    let reached : (challenge env hours engine u c cipher document_number images ip
                          mode at w).1
                        ≡ (settle env hours u c document_number keys r ip mode at v).1 =
                      ground arith in
                    let found' : find (λ (a : User). a.id == u.id) v.users ≡ some u =
                      ap (λ (z : World). find (λ (a : User). a.id == u.id) z.users) kept ∙ found in
                    rw reached (
                      settle-IsSound u c document_number keys r ip mode at v found' (
                        same-IsSound w v (ap (λ (z : World). z.users) kept)
                          (ap (λ (z : World). z.refresh_tokens) kept) s))
              ]
        ]

    with_document-IsSound :
        (u : User) (i : Option CitizenIdentity) (document_number : String) (images : Images)
        (ip : String) (mode : ChallengeMode) (at : Moment) (w : World)
        → find (λ (a : User). a.id == u.id) w.users ≡ some u
        → IsSound w
        → IsSound (with_document env hours engine u i document_number images ip mode at w).1
    unfolding with_document
    with_document-IsSound u none document_number images ip mode at w found s = s
    with_document-IsSound u (some c) document_number images ip mode at w found s =
        elim (Option-cases c.nid_encrypted) [
          | inl e ↦ same-IsSound w _ (ground arith) (ground arith) s
          | inr (cipher, e) ↦
              let sound =
                challenge-IsSound u c cipher document_number images ip mode at w found s in
              elim (Bool-cases (truthy cipher)) [
                | inl there ↦
                    let reached : with_document env hours engine u (some c) document_number images
                          ip mode at w
                        ≡ challenge env hours engine u c cipher document_number images ip mode at
                            w =
                      ground arith in
                    rw reached sound
                | inr blank ↦ same-IsSound w _ (ground arith) (ground arith) s
              ]
        ]

    gated-IsSound :
        (u : User) (i : Option CitizenIdentity) (document_number : String) (images : Images)
        (ip : String) (mode : ChallengeMode) (at : Moment) (w : World)
        → find (λ (a : User). a.id == u.id) w.users ≡ some u
        → IsSound w
        → IsSound (gated env hours engine u i document_number images ip mode at w).1
    unfolding gated enforce_attempt_limit
    gated-IsSound u i document_number images ip mode at w found s =
        let used = (get_verification_window_state env hours u.id at.now w).attempts_used in
        let sound = with_document-IsSound u i document_number images ip mode at w found s in
        elim (Bool-cases (
          (u.is_verified && u.is_active)
          && (not (is_fin i)
              && (not (u.is_id_verified && not (is_invitation mode))
                  && not (ltb 0 hours && leb max_attempts used))))) [
                    | inl passes ↦
                        let reached : gated env hours engine u i document_number images ip mode at w
                            ≡ with_document env hours engine u i document_number images ip mode at
                                w =
                          ground arith in
                        rw reached sound
                    | inr stopped ↦
                        let reached : (gated env hours engine u i document_number images ip mode at
                              w).1
                            ≡ w =
                          ground arith in
                        rw reached s
                  ]

    pub submit_verification-IsSound :
        (user_id : ℕ) (document_number : String) (images : Images) (ip : String)
        (mode : ChallengeMode) (at : Moment) (w : World)
        → IsSound w
        → IsSound
            (submit_verification env hours engine user_id document_number images ip mode at w).1
    unfolding submit_verification
    submit_verification-IsSound user_id document_number images ip mode at w s =
        elim (Option-cases (find_by_id env user_id w)) [
          | inl e ↦ same-IsSound w _ (ground arith) (ground arith) s
          | inr (u, e) ↦
              let stored : find (λ (x : User). x.id == user_id) w.users ≡ some u =
                sym (env.find_first_lem User (λ x. x.id == user_id) w.users) ∙ e in
              let same : u.id ≡ user_id =
                (==_iff u.id user_id).0
                  (find_sound (λ (x : User). x.id == user_id) w.users stored) in
              let found =
                subst (λ n. find (λ (x : User). x.id == n) w.users ≡ some u) (sym same) stored in
              let i = identity_of env w u.id in
              let reached : submit_verification env hours engine user_id document_number images ip
                    mode at w
                  ≡ gated env hours engine u i document_number images ip mode at w =
                ground arith in
              rw reached (gated-IsSound u i document_number images ip mode at w found s)
        ]
