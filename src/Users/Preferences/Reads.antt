-- ===== src/Users/Preferences/Reads.antt =====
-- users.service.ts, getPreferences and updatePreferences: what a success rests on.
-- modules/users/users.service.ts).
use gracon_user_auth_service.Common.{
  ℕ, ◌≡◌, refl, sym, ap, ◌∙◌, inl, inr, arith, some, List, [], ◌∷◌, find, ==_refl,
}
use gracon_user_auth_service.Common.Tables.{find_sound, find-update_where, find-append_none}
use gracon_user_auth_service.Platform.{InvitePreference, UserPreference, World, ok, Env}
use gracon_user_auth_service.Platform.Laws.{Reply-cases}
use gracon_user_auth_service.Users.Preferences.{
  UpdateUserPreferencesDto, UserPreferencesResponse, normalize_user_invite_verification_preferences,
  document_field, meeting_field, document_values, meeting_values, format_user_preferences,
  or_current, preferences_of, stored_preferences, get_preferences, preference_row, set_preferences,
  save_preferences,
}
use gracon_user_auth_service.Users.Preferences.Laws.{
  IsDefault, normalize-IsDefault, IsDefault-normalize,
}

-- What an update that succeeds answers and stores.
pub record Saves (env : Env) (user_id : ℕ) (dto : UpdateUserPreferencesDto) (w : World)
    (res : UserPreferencesResponse) (w' : World) : Type 0 where
  pub current : UserPreferencesResponse
  pub read : get_preferences env user_id w ≡ (ok current, w)
  pub documents_from :
      normalize_user_invite_verification_preferences
        (or_current dto.default_document_invite_verifications
          current.default_document_invite_verifications)
        document_field
      ≡ ok res.default_document_invite_verifications
  pub meetings_from :
      normalize_user_invite_verification_preferences
        (or_current dto.default_meeting_invite_verifications
          current.default_meeting_invite_verifications)
        meeting_field
      ≡ ok res.default_meeting_invite_verifications
  pub documents : IsDefault res.default_document_invite_verifications
  pub meetings : IsDefault res.default_meeting_invite_verifications
  pub read_back : get_preferences env user_id w' ≡ (ok res, w')
  pub frame : w' ≡ record w { user_preferences = w'.user_preferences }

module _ (env : Env) where
  pub get_preferences-eq-ok :
      (user_id : ℕ) (w : World) {res : UserPreferencesResponse} {w' : World}
      → get_preferences env user_id w ≡ (ok res, w')
      → (w' ≡ w)
        × IsDefault res.default_document_invite_verifications
        × IsDefault res.default_meeting_invite_verifications
  unfolding get_preferences format_user_preferences
  get_preferences-eq-ok user_id w {res} {w'} h =
      let p = stored_preferences env user_id w in
      let documents : normalize_user_invite_verification_preferences (document_values p)
            document_field
          ≡ ok res.default_document_invite_verifications =
        ground arith in
      let meetings : normalize_user_invite_verification_preferences (meeting_values p) meeting_field
          ≡ ok res.default_meeting_invite_verifications =
        ground arith in
      (
        ground arith,
        normalize-IsDefault _ document_field documents,
        normalize-IsDefault _ meeting_field meetings,
      )

  -- What is saved is found.
  pub save_preferences-eq-ok :
      (user_id : ℕ) (documents meetings : List InvitePreference) (w : World)
      {saved : UserPreference} {w' : World}
      → save_preferences env user_id documents meetings w ≡ (ok saved, w')
      → (w' ≡ record w { user_preferences = w'.user_preferences })
        × (stored_preferences env user_id w' ≡ some saved)
        × (saved.default_document_invite_verifications ≡ documents)
        × (saved.default_meeting_invite_verifications ≡ meetings)
  unfolding save_preferences find
  save_preferences-eq-ok user_id documents meetings w {saved} {w'} h =
      let q = preferences_of env user_id in
      let row = preference_row env user_id documents meetings in
      let set = set_preferences env documents meetings in
      let look = env.find_first_lem UserPreference q w'.user_preferences in
      elim (Reply-cases (env.upsert UserPreference q (λ _. row) set w.user_preferences)) [
        | inr (code, e) ↦ ground arith
        | inl ((p, rows), e) ↦
            let now : w'.user_preferences ≡ rows = ground arith in
            let same : p ≡ saved = ground arith in
            elim (env.upsert_lem UserPreference q (λ _. row) set w.user_preferences p rows e) [
              | inl (old, found, is_new, changed) ↦
                  let kept : find q w'.user_preferences ≡ some (set old) =
                    ap (find q) (now ∙ changed)
                    ∙ find-update_where q q set w.user_preferences (λ a. refl) found
                    ∙ ground (arith, find_sound q w.user_preferences found) in
                  let value : set old ≡ saved = sym is_new ∙ same in
                  (
                    ground arith,
                    look ∙ kept ∙ ap some value,
                    ap (λ (z : UserPreference). z.default_document_invite_verifications)
                        (sym value),
                    ap (λ (z : UserPreference). z.default_meeting_invite_verifications) (sym value),
                  )
              | inr (none_yet, (n, is_new, added)) ↦
                  let value : row ≡ saved = sym is_new ∙ same in
                  let kept : find q w'.user_preferences ≡ some row =
                    ap (find q) (now ∙ added)
                    ∙ find-append_none q w.user_preferences (row ∷ []) none_yet
                    ∙ ground (arith, ==_refl user_id) in
                  (
                    ground arith,
                    look ∙ kept ∙ ap some value,
                    ap (λ (z : UserPreference). z.default_document_invite_verifications)
                        (sym value),
                    ap (λ (z : UserPreference). z.default_meeting_invite_verifications) (sym value),
                  )
            ]
      ]

  -- A row with values of the four kinds is read as it is.
  pub get_preferences-IsDefault :
      (user_id : ℕ) (w : World) (p : UserPreference)
      → stored_preferences env user_id w ≡ some p
      → IsDefault p.default_document_invite_verifications
      → IsDefault p.default_meeting_invite_verifications
      → get_preferences env user_id w ≡ (
        ok (record {
          default_document_invite_verifications = p.default_document_invite_verifications;
          default_meeting_invite_verifications = p.default_meeting_invite_verifications;
        }),
        w,
      )
  unfolding get_preferences format_user_preferences
  get_preferences-IsDefault user_id w p found documents meetings =
      let d =
        IsDefault-normalize p.default_document_invite_verifications document_field documents in
      let m = IsDefault-normalize p.default_meeting_invite_verifications meeting_field meetings in
      ground arith
