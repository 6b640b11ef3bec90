-- ===== src/Users/Preferences/Laws.antt =====
-- The values of the invitation defaults (modules/users/user-preferences.helper.ts).
use gracon_user_auth_service.Common.{
  ◌≡◌, refl, subst, inl, inr, arith, true, ◌||◌, Option, none, some, List, [], ◌∷◌, String,
  Bool-cases, select,
}
use gracon_user_auth_service.Platform.{
  InvitePreference, no_verification, email_otp, identity_verification, ok,
}
use gracon_user_auth_service.Users.Preferences.{
  includes, distinct, chosen, normalized, normalize_user_invite_verification_preferences,
}

-- The four values that a default can have.
pub data IsDefault : List InvitePreference → Type 0 where
  no_gate : IsDefault (no_verification ∷ [])
  by_email : IsDefault (email_otp ∷ [])
  by_identity : IsDefault (identity_verification ∷ [])
  by_both : IsDefault (email_otp ∷ identity_verification ∷ [])

some_included :
    (x : InvitePreference) (xs : List InvitePreference)
    → (includes no_verification (x ∷ xs)
        || (includes email_otp (x ∷ xs) || includes identity_verification (x ∷ xs)))
      ≡ true
unfolding includes
some_included no_verification xs = refl
some_included email_otp xs = ground arith
some_included identity_verification xs = ground arith

-- What is chosen from values of which one is there at least.
normalized-IsDefault :
    (values : List InvitePreference) (field_name : String) {r : List InvitePreference}
    → (includes no_verification values
        || (includes email_otp values || includes identity_verification values))
      ≡ true
    → normalized values field_name ≡ ok r
    → IsDefault r
unfolding normalized select
normalized-IsDefault values field_name {r} there h =
    elim (Bool-cases (includes no_verification values)) [
      | inl gate_free ↦
          let value : no_verification ∷ [] ≡ r = ground arith in subst IsDefault value no_gate
      | inr gated ↦ elim (Bool-cases (includes email_otp values)) [
        | inl email ↦ elim (Bool-cases (includes identity_verification values)) [
          | inl identity ↦
              let value : email_otp ∷ identity_verification ∷ [] ≡ r = ground arith in
              subst IsDefault value by_both
          | inr no_identity ↦
              let value : email_otp ∷ [] ≡ r = ground arith in subst IsDefault value by_email
        ]
        | inr no_email ↦
            let value : identity_verification ∷ [] ≡ r = ground arith in
            subst IsDefault value by_identity
      ]
    ]

-- A default that is accepted is one of four: no verification alone, or one or both of the gates, in
-- their fixed order.
pub normalize-IsDefault :
    (values : Option (List InvitePreference)) (field_name : String) {r : List InvitePreference}
    → normalize_user_invite_verification_preferences values field_name ≡ ok r
    → IsDefault r
unfolding normalize_user_invite_verification_preferences chosen distinct
normalize-IsDefault none field_name h =
    normalized-IsDefault (no_verification ∷ []) field_name (some_included no_verification []) h
normalize-IsDefault (some []) field_name h =
    normalized-IsDefault (no_verification ∷ []) field_name (some_included no_verification []) h
normalize-IsDefault (some (x ∷ xs)) field_name h =
    normalized-IsDefault (distinct (x ∷ xs)) field_name (some_included x _) h

-- Such a value is accepted as it is.
pub IsDefault-normalize :
    (values : List InvitePreference) (field_name : String)
    → IsDefault values
    → normalize_user_invite_verification_preferences (some values) field_name ≡ ok values
unfolding normalize_user_invite_verification_preferences chosen distinct normalized includes select
IsDefault-normalize values field_name no_gate = refl
IsDefault-normalize values field_name by_email = refl
IsDefault-normalize values field_name by_identity = refl
IsDefault-normalize values field_name by_both = refl
