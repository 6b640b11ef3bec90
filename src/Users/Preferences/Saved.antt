-- ===== src/Users/Preferences/Saved.antt =====
-- What an update of the invitation defaults leaves (`updatePreferences` of
-- modules/users/users.service.ts).
use gracon_user_auth_service.Common.{ℕ, ◌≡◌, sym, ap, subst, ◌∙◌, inl, inr, arith, some, List}
use gracon_user_auth_service.Platform.{InvitePreference, UserPreference, World, ok, Env}
use gracon_user_auth_service.Platform.Laws.{Outcome-cases, Result-cases}
use gracon_user_auth_service.Users.Preferences.{
  UpdateUserPreferencesDto, UserPreferencesResponse, normalize_user_invite_verification_preferences,
  document_field, meeting_field, format_user_preferences, or_current, stored_preferences,
  get_preferences, save_preferences, update_preferences,
}
use gracon_user_auth_service.Users.Preferences.Laws.{IsDefault, normalize-IsDefault}
use gracon_user_auth_service.Users.Preferences.Reads.{
  Saves, get_preferences-eq-ok, save_preferences-eq-ok, get_preferences-IsDefault,
}

module _ (env : Env) where
  abbrev answer : List InvitePreference → List InvitePreference → UserPreferencesResponse
  answer documents meetings = record {
    default_document_invite_verifications = documents;
    default_meeting_invite_verifications = meetings;
  }

  saved-read :
      (user_id : ℕ) (documents meetings : List InvitePreference) (w : World)
      {saved : UserPreference} {w' : World}
      → save_preferences env user_id documents meetings w ≡ (ok saved, w')
      → IsDefault documents
      → IsDefault meetings
      → get_preferences env user_id w' ≡ (ok (answer documents meetings), w')
  saved-read user_id documents meetings w {saved} {w'} h d m =
      let (frame, found, same_d, same_m) =
        save_preferences-eq-ok env user_id documents meetings w h in
      get_preferences-IsDefault env user_id w' saved found (subst IsDefault (sym same_d) d)
        (subst IsDefault (sym same_m) m)
      ∙ ap (λ ds. (ok (answer ds saved.default_meeting_invite_verifications), w')) same_d
      ∙ ap (λ ms. (ok (answer documents ms), w')) same_m

  -- What is read is the stored row, brought into form.
  get_preferences_lem :
      (user_id : ℕ) (w : World) (saved : UserPreference)
      → stored_preferences env user_id w ≡ some saved
      → get_preferences env user_id w ≡ format_user_preferences (some saved) w
  unfolding get_preferences
  get_preferences_lem user_id w saved found = ap (λ p. format_user_preferences p w) found

  -- The pieces together: what was read, what was chosen, and what was saved.
  Saves-of_saved :
      (user_id : ℕ) (dto : UpdateUserPreferencesDto) (w : World) (current : UserPreferencesResponse)
      (documents meetings : List InvitePreference) (saved : UserPreference) (v : World)
      {res : UserPreferencesResponse} {w' : World}
      → get_preferences env user_id w ≡ (ok current, w)
      → normalize_user_invite_verification_preferences
          (or_current dto.default_document_invite_verifications
            current.default_document_invite_verifications)
          document_field
        ≡ ok documents
      → normalize_user_invite_verification_preferences
          (or_current dto.default_meeting_invite_verifications
            current.default_meeting_invite_verifications)
          meeting_field
        ≡ ok meetings
      → save_preferences env user_id documents meetings w ≡ (ok saved, v)
      → format_user_preferences (some saved) v ≡ (ok res, w')
      → Saves env user_id dto w res w'
  Saves-of_saved user_id dto w current documents meetings saved v {res} {w'} read chose_d chose_m
        stored formatted =
      let is_d = normalize-IsDefault _ document_field chose_d in
      let is_m = normalize-IsDefault _ meeting_field chose_m in
      let back = saved-read user_id documents meetings w stored is_d is_m in
      let (frame, found, same_d, same_m) =
        save_preferences-eq-ok env user_id documents meetings w stored in
      let again = get_preferences_lem user_id v saved found ∙ formatted in
      let result : (answer documents meetings ≡ res) × (v ≡ w') = ground arith in
      let d = λ (z : UserPreferencesResponse). z.default_document_invite_verifications in
      let m = λ (z : UserPreferencesResponse). z.default_meeting_invite_verifications in
      record {
        current = current;
        read = read;
        documents_from = chose_d ∙ ap (λ z. ok (d z)) result.0;
        meetings_from = chose_m ∙ ap (λ z. ok (m z)) result.0;
        documents = subst (λ z. IsDefault (d z)) result.0 is_d;
        meetings = subst (λ z. IsDefault (m z)) result.0 is_m;
        read_back =
            subst (λ z. get_preferences env user_id z ≡ (ok res, z)) result.1
              (back ∙ ap (λ z. (ok z, v)) result.0);
        frame = subst (λ z. z ≡ record w { user_preferences = z.user_preferences }) result.1 frame;
      }

  -- An update that succeeds answers, for each of the two defaults, with the value given, or with the
  -- current one if none is given, brought into one of the four forms; the next read gives the answer
  -- back, and nothing else is written.
  pub update_preferences-Saves :
      (user_id : ℕ) (dto : UpdateUserPreferencesDto) (w : World) {res : UserPreferencesResponse}
      {w' : World}
      → update_preferences env user_id dto w ≡ (ok res, w')
      → Saves env user_id dto w res w'
  unfolding update_preferences
  update_preferences-Saves user_id dto w {res} {w'} h =
      elim (Outcome-cases (get_preferences env user_id w)) [
        | inr (x, v, e) ↦ ground arith
        | inl (current, v, e) ↦
            let (same, dc, mc) = get_preferences-eq-ok env user_id w e in
            let d =
              or_current dto.default_document_invite_verifications
                current.default_document_invite_verifications in
            let m =
              or_current dto.default_meeting_invite_verifications
                current.default_meeting_invite_verifications in
            elim (Result-cases (normalize_user_invite_verification_preferences d document_field)) [
              | inr (x, e2) ↦ ground arith
              | inl (documents, e2) ↦
                  elim (Result-cases
                    (normalize_user_invite_verification_preferences m meeting_field)) [
                      | inr (x, e3) ↦ ground arith
                      | inl (meetings, e3) ↦
                          elim (Outcome-cases (save_preferences env user_id documents meetings w)) [
                            | inr (x, v', e4) ↦ ground arith
                            | inl (saved, v', e4) ↦
                                Saves-of_saved user_id dto w current documents meetings saved v'
                                  (ground arith) e2 e3 e4 (ground arith)
                          ]
                    ]
            ]
      ]
