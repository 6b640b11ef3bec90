-- ===== src/Mailer/Links.antt =====
-- common/mailer/mailer.service.ts: what the links of the messages carry.
use Prim.Native.String.append
use gracon_user_auth_service.Common.{
  ℕ, ◌≡◌, refl, ap, ◌∙◌, true, List, [], ◌∷◌, map, String, ◌⁺⁺◌, split,
}
use gracon_user_auth_service.Common.Parts.{
  joined_parts, split-append, lacks, split-lacks, append-nil,
}
use gracon_user_auth_service.Platform.{verification_email, password_reset_email}
use gracon_user_auth_service.Mailer.{
  Context, verification_context, welcome_context, reset_context, Mailer, link, mail_message,
}

-- A text that has none of the marks of a query.
pub record IsPlain (s : String) : Type 0 where
  pub question : lacks b'?' s ≡ true
  pub ampersand : lacks b'&' s ≡ true
  pub equals : lacks b'=' s ≡ true

-- The keys and values of a query, after the one question mark of an address.
abbrev pub query_of : List String → List (List String)
query_of (_ ∷ query ∷ []) = map (split b'=') (split b'&' query)
query_of _ = []

abbrev pub parameters : String → List (List String)
parameters url = query_of (split b'?' url)

-- The address that a message asks its reader to open.
abbrev pub url_of : Context → String
url_of (verification_context _ _ url _ _) = url
url_of (welcome_context _ _ _ url _) = url
url_of (reset_context _ _ url _ _) = url

key_value :
    (key first value : String)
    → split b'=' key ≡ first ∷ "" ∷ []
    → lacks b'=' value ≡ true
    → split b'=' (key ⁺⁺ value) ≡ first ∷ value ∷ []
key_value key first value splits plain =
    split-append b'=' key value
    ∙ (λ i. joined_parts (splits i) (split-lacks b'=' value plain i))
    ∙ (λ i. first ∷ append.nil value i ∷ [])

module _ (mailer : Mailer) where
  open mailer use {frontend_url, id_text, encode, encode-question, encode-ampersand, encode-equals}

  abbrev pub rest_of : ℕ → String → String
  rest_of user_id token = id_text user_id ⁺⁺ ("&token=" ⁺⁺ encode token)

  rest_parts :
      (sep : ℕ) (user_id : ℕ) (token : String)
      → lacks sep (id_text user_id) ≡ true
      → lacks sep (encode token) ≡ true
      → split sep (rest_of user_id token)
        ≡ joined_parts
            (id_text user_id ∷ [])
            (joined_parts (split sep "&token=") (encode token ∷ []))
  rest_parts sep user_id token plain_id plain_token =
      split-append sep (id_text user_id) ("&token=" ⁺⁺ encode token)
      ∙ ap (joined_parts (split sep (id_text user_id))) (split-append sep "&token=" (encode token))
      ∙ (λ i.
          joined_parts (split-lacks sep (id_text user_id) plain_id i)
            (joined_parts (split sep "&token=") (split-lacks sep (encode token) plain_token i)))

  -- The keys and values that a link carries.
  abbrev pub carried : ℕ → String → List (List String)
  carried user_id token = ("userId" ∷ id_text user_id ∷ []) ∷ ("token" ∷ encode token ∷ []) ∷ []

  query_parts :
      (user_id : ℕ) (token : String)
      → IsPlain (id_text user_id)
      → map (split b'=') (split b'&' ("userId=" ⁺⁺ rest_of user_id token)) ≡ carried user_id token
  unfolding split
  query_parts user_id token plain =
      let halves : split b'&' ("userId=" ⁺⁺ rest_of user_id token)
          ≡ ("userId=" ⁺⁺ (id_text user_id ⁺⁺ "")) ∷ ("token=" ⁺⁺ encode token) ∷ [] =
        split-append b'&' "userId=" (rest_of user_id token)
        ∙ ap (joined_parts ("userId=" ∷ []))
            (rest_parts b'&' user_id token plain.ampersand (encode-ampersand token)) in
      ap (map (split b'=')) halves
      ∙ (λ i.
          split b'=' ("userId=" ⁺⁺ append-nil (id_text user_id) i)
          ∷ split b'=' ("token=" ⁺⁺ encode token)
          ∷ [])
      ∙ (λ i.
          key_value "userId=" "userId" (id_text user_id) refl plain.equals i
          ∷ key_value "token=" "token" (encode token) refl (encode-equals token) i
          ∷ [])

  link-parameters :
      (page path : String) (user_id : ℕ) (token : String)
      → lacks b'?' frontend_url ≡ true
      → split b'?' page ≡ path ∷ "userId=" ∷ []
      → IsPlain (id_text user_id)
      → parameters (link mailer page user_id token) ≡ carried user_id token
  unfolding split
  link-parameters page path user_id token one_mark splits plain =
      let halves : split b'?' (link mailer page user_id token)
          ≡ (frontend_url ⁺⁺ path) ∷ ("userId=" ⁺⁺ rest_of user_id token) ∷ [] =
        split-append b'?' frontend_url (page ⁺⁺ rest_of user_id token)
        ∙ ap (joined_parts (split b'?' frontend_url))
            (split-append b'?' page (rest_of user_id token))
        ∙ (λ i. joined_parts (split-lacks b'?' frontend_url one_mark i) (
            joined_parts (splits i)
              (rest_parts b'?' user_id token plain.question (encode-question token) i))) in
      ap query_of halves ∙ query_parts user_id token plain

  -- If the configured address has no question mark and the text of the account's id no mark of a
  -- query, the link of a verification message, and that of a reset message, carries two parameters
  -- and no other: the id of the account and the token, encoded.
  pub mail_message-carried :
      (current_year : ℕ) (to sur_name post_names : String) (user_id : ℕ) (token : String)
      → lacks b'?' frontend_url ≡ true
      → IsPlain (id_text user_id)
      → (parameters (
            url_of
              (mail_message mailer current_year
                (verification_email to sur_name post_names user_id token)).context)
          ≡ carried user_id token)
        × (parameters (
              url_of
                (mail_message mailer current_year
                  (password_reset_email to sur_name post_names user_id token)).context)
            ≡ carried user_id token)
  unfolding mail_message split
  mail_message-carried current_year to sur_name post_names user_id token one_mark plain = (
    link-parameters "/verify-email?userId=" "/verify-email" user_id token one_mark refl plain,
    link-parameters "/reset-password?userId=" "/reset-password" user_id token one_mark refl plain,
  )
