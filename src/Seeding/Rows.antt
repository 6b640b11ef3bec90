-- ===== src/Seeding/Rows.antt =====
-- prisma/seed-verified-users.ts: the identity rows that tell which accounts exist.
use gracon_user_auth_service.Common.{
  ℕ, ◌≡◌, refl, ap, ◌∙◌, inl, inr, arith, true, false, none, some, [], ◌∷◌, ◌++◌, String,
  Option-cases, find, ==_refl,
}
use gracon_user_auth_service.Common.Tables.{find-append, find-append_none}
use gracon_user_auth_service.Platform.{nid, User, CitizenIdentity, PlatformId, accepted, World, Env}
use gracon_user_auth_service.Platform.Laws.{Reply-cases}
use gracon_user_auth_service.Common.Tables.{find-append, find-append_none}
use gracon_user_auth_service.Users.Registration.Register.{same_identity}
use gracon_user_auth_service.Seeding.{FakeVerifiedUserInput}
use gracon_user_auth_service.Seeding.Script.{
  seeded_user, seeded_identity, seeded_platform, create_verified_user, is_seeded,
}

module _ (env : Env) (birth_time : FakeVerifiedUserInput → ℕ) where
  -- The number has a row.
  abbrev pub HasRow : String → World → Type 0
  HasRow number w =
      (row : CitizenIdentity) × (find (same_identity nid (env.hash number)) w.citizen_identities
        ≡ some row)

  pub is_seeded-HasRow :
      (u : FakeVerifiedUserInput) (w : World) → is_seeded env birth_time u w ≡ true → HasRow u.nid w
  is_seeded-HasRow u w h =
      let same =
        env.find_first_lem CitizenIdentity (same_identity nid (env.hash u.nid))
          w.citizen_identities in
      elim (Option-cases (find (same_identity nid (env.hash u.nid)) w.citizen_identities)) [
        | inr (row, e) ↦ (row, e)
        | inl e ↦ absurd (ground (arith, same))
      ]

  pub HasRow-is_seeded :
      (u : FakeVerifiedUserInput) (w : World) → HasRow u.nid w → is_seeded env birth_time u w ≡ true
  HasRow-is_seeded u w (row, e) =
      let same =
        env.find_first_lem CitizenIdentity (same_identity nid (env.hash u.nid))
          w.citizen_identities in
      rw (same, e) refl

  -- An account that is created adds its identity's row.
  pub create_verified_user-row :
      (u : FakeVerifiedUserInput) (password_hash : String) (nv pv now : ℕ) (w w' : World)
      → create_verified_user env birth_time u password_hash nv pv now w ≡ accepted w'
      → (id : ℕ) × (w'.citizen_identities
          ≡ w.citizen_identities ++ seeded_identity env birth_time u nv id ∷ [])
  unfolding create_verified_user
  create_verified_user-row u password_hash nv pv now w w' h =
      elim (Reply-cases
        (env.create User (seeded_user env birth_time u password_hash now) w.users)) [
          | inr (c, e) ↦ absurd (ground arith)
          | inl ((a, us), e) ↦
              elim (Reply-cases (
                env.create CitizenIdentity (λ _. seeded_identity env birth_time u nv a.id)
                  w.citizen_identities)) [
                    | inr (c, k) ↦ absurd (ground arith)
                    | inl ((ci, cs), k) ↦
                        let (n, p, q) =
                          env.create_lem CitizenIdentity _ w.citizen_identities ci cs k in
                        elim (Reply-cases (
                          env.create PlatformId (λ _. seeded_platform env birth_time u pv a.id)
                            w.platform_ids)) [
                              | inr (c, m) ↦ absurd (ground arith)
                              | inl ((pi, ps), m) ↦ (a.id, ground arith)
                            ]
                  ]
        ]

  pub create_verified_user-HasRow :
      (u : FakeVerifiedUserInput) (password_hash : String) (nv pv now : ℕ) (w w' : World)
      → is_seeded env birth_time u w ≡ false
      → create_verified_user env birth_time u password_hash nv pv now w ≡ accepted w'
      → HasRow u.nid w' × ((number : String) → HasRow number w → HasRow number w')
  create_verified_user-HasRow u password_hash nv pv now w w' fresh h =
      let (id, rows) = create_verified_user-row u password_hash nv pv now w w' h in
      let p = same_identity nid (env.hash u.nid) in
      let row = seeded_identity env birth_time u nv id in
      let missing : find p w.citizen_identities ≡ none =
        elim (Option-cases (find p w.citizen_identities)) [
          | inl e ↦ e
          | inr (r, e) ↦ absurd (ground (arith, HasRow-is_seeded u w (r, e)))
        ] in
      (
        (
          row,
          ap (find p) rows
              ∙ find-append_none p w.citizen_identities (row ∷ []) missing
              ∙ found_last id,
        ),
        λ number (r, e). (
          r,
          ap (find (same_identity nid (env.hash number))) rows
              ∙ find-append (same_identity nid (env.hash number)) w.citizen_identities (row ∷ []) e,
        ),
      )
    where
      found_last :
          (id : ℕ)
          → find (same_identity nid (env.hash u.nid)) (seeded_identity env birth_time u nv id ∷ [])
            ≡ some (seeded_identity env birth_time u nv id)
      found_last id = unfold find in rw (==_refl (env.hash u.nid)) refl
