-- ===== src/Mailer.antt =====
-- common/mailer/mailer.service.ts: the messages that are made of what the services send, and their
-- links. The transport and the rendering of the templates are a package's.
pub mod Links
use gracon_user_auth_service.Common.{ℕ, ◌≡◌, Bool, true, false, List, [], ◌∷◌, String, ◌⁺⁺◌}
use gracon_user_auth_service.Common.Parts.{lacks}
use gracon_user_auth_service.Platform.{
  Mail, verification_email, welcome_email, password_reset_email, Outcome, ok,
}

-- The context of each template.
pub data Context : Type 0 where
  verification_context :
      (sur_name post_names verification_url expires_in : String) (current_year : ℕ) → Context
  welcome_context :
      (sur_name post_names platform_id login_url : String) (current_year : ℕ) → Context
  reset_context : (sur_name post_names reset_url expires_in : String) (current_year : ℕ) → Context

pub record Message : Type 0 where
  pub to : String
  pub subject : String
  pub template : String
  pub context : Context

-- The configured address, the text of an id, `encodeURIComponent`, and the package's transport,
-- which takes a message or throws. A text that is encoded has none of the marks of a query.
pub record Mailer : Type 1 where
  pub frontend_url : String
  pub id_text : ℕ → String
  pub encode : String → String
  pub encode-question : (s : String) → lacks b'?' (encode s) ≡ true
  pub encode-ampersand : (s : String) → lacks b'&' (encode s) ≡ true
  pub encode-equals : (s : String) → lacks b'=' (encode s) ≡ true
  pub Sent : Type 0
  pub transport : Message → Sent → Outcome (Unit {0}) × Sent

module _ (mailer : Mailer) where
  open mailer use {frontend_url, id_text, encode, Sent, transport}

  -- The address of a page with an id and a text that came from the random source.
  abbrev pub link : String → ℕ → String → String
  link page user_id token =
      frontend_url ⁺⁺ (page ⁺⁺ (id_text user_id ⁺⁺ ("&token=" ⁺⁺ encode token)))

  abbrev pub verification_url : ℕ → String → String
  verification_url user_id token = link "/verify-email?userId=" user_id token

  abbrev pub reset_url : ℕ → String → String
  reset_url user_id token = link "/reset-password?userId=" user_id token

  -- The message of each of the three methods, in a year.
  unfoldable pub mail_message : ℕ → Mail → Message
  mail_message current_year (verification_email to sur_name post_names user_id token) = record {
    to = to;
    subject = "Verify your email address";
    template = "email-verification";
    context =
        verification_context sur_name post_names (verification_url user_id token) "24 hours"
          current_year;
  }
  mail_message current_year (welcome_email to sur_name post_names platform_id) = record {
    to = to;
    subject = "Welcome — your account is active";
    template = "welcome";
    context =
        welcome_context sur_name post_names platform_id (frontend_url ⁺⁺ "/login") current_year;
  }
  mail_message current_year (password_reset_email to sur_name post_names user_id token) = record {
    to = to;
    subject = "Reset your password";
    template = "password-reset";
    context = reset_context sur_name post_names (reset_url user_id token) "1 hour" current_year;
  }

  -- `try { await sendMail(...) } catch { log }`
  abbrev caught : Outcome (Unit {0}) × Sent → Outcome (Unit {0}) × Sent
  caught (_, sent) = (ok tt, sent)

  unfoldable pub send : ℕ → Mail → Sent → Outcome (Unit {0}) × Sent
  unfolding mail_message
  send current_year mail sent = caught (transport (mail_message current_year mail) sent)

  -- The messages that a request handed over, one after the other.
  unfoldable pub send_all : ℕ → List Mail → Sent → Sent
  unfolding send
  send_all current_year [] sent = sent
  send_all current_year (mail ∷ mails) sent =
      send_all current_year mails (send current_year mail sent).1
