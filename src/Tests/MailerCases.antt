-- ===== src/Tests/MailerCases.antt =====
-- Messages and their links.
use Prim.Native.Char.{Char, code}
use gracon_user_auth_service.Common.{
  ℕ, ◌≡◌, refl, arith, Bool, true, false, not, ◌||◌, List, [], ◌∷◌, String, ◌==◌,
}
use gracon_user_auth_service.Common.Parts.{lacks}
use gracon_user_auth_service.Platform.{
  verification_email, welcome_email, password_reset_email, Outcome, ok, throws, conflict,
}
use gracon_user_auth_service.Mailer.{Message, Mailer, link, mail_message, send, send_all}
use gracon_user_auth_service.Mailer.Links.{url_of, parameters, carried, mail_message-carried}

abbrev is_mark : ℕ → Bool
is_mark c = c == b'?' || (c == b'&' || c == b'=')

unmarked_with : Char → Bool → String → String
unmarked_with c true rest = rest
unmarked_with c false rest = String.◌∷◌ c rest

unmarked : String → String
unfolding unmarked_with
unmarked String.[] = String.[]
unmarked (String.◌∷◌ c s) = unmarked_with c (is_mark (code c)) (unmarked s)

unmarked_with-lacks :
    (sep : ℕ) (c : Char) (b : Bool) (s : String)
    → (b ≡ false → not (code c == sep) ≡ true)
    → lacks sep s ≡ true
    → lacks sep (unmarked_with c b s) ≡ true
unfolding lacks unmarked_with
unmarked_with-lacks sep c true s other h = h
unmarked_with-lacks sep c false s other h = rw (other refl) h

unmarked-question : (s : String) → lacks b'?' (unmarked s) ≡ true
unfolding lacks unmarked
unmarked-question String.[] = refl
unmarked-question (String.◌∷◌ c s) =
    unmarked_with-lacks b'?' c (is_mark (code c)) (unmarked s) (λ e. ground arith)
      (unmarked-question s)

unmarked-ampersand : (s : String) → lacks b'&' (unmarked s) ≡ true
unfolding lacks unmarked
unmarked-ampersand String.[] = refl
unmarked-ampersand (String.◌∷◌ c s) =
    unmarked_with-lacks b'&' c (is_mark (code c)) (unmarked s) (λ e. ground arith)
      (unmarked-ampersand s)

unmarked-equals : (s : String) → lacks b'=' (unmarked s) ≡ true
unfolding lacks unmarked
unmarked-equals String.[] = refl
unmarked-equals (String.◌∷◌ c s) =
    unmarked_with-lacks b'=' c (is_mark (code c)) (unmarked s) (λ e. ground arith)
      (unmarked-equals s)

-- A transport that is full after one message.
unfoldable one_at_most : Message → List Message → Outcome (Unit {0}) × List Message
one_at_most message [] = (ok tt, message ∷ [])
one_at_most message (first ∷ rest) = (throws (conflict "full"), first ∷ rest)

unfoldable mailer : Mailer
unfolding unmarked one_at_most
mailer = record {
  frontend_url = "https://gracon.rw";
  id_text = λ id. "7f0c";
  encode = unmarked;
  encode-question = unmarked-question;
  encode-ampersand = unmarked-ampersand;
  encode-equals = unmarked-equals;
  Sent = List Message;
  transport = one_at_most;
}

mail_message-carried_example :
    (parameters (
        url_of
          (mail_message mailer 2026
            (verification_email "k@example.rw" "Keza" "Ineza" 1 "a1")).context)
      ≡ carried mailer 1 "a1")
    × (parameters (
          url_of
            (mail_message mailer 2026
              (password_reset_email "k@example.rw" "Keza" "Ineza" 1 "a1")).context)
        ≡ carried mailer 1 "a1")
unfolding mailer lacks
mail_message-carried_example =
    mail_message-carried mailer 2026 "k@example.rw" "Keza" "Ineza" 1 "a1" refl
      (record { question = refl; ampersand = refl; equals = refl })

reset_link :
    link mailer "/reset-password?userId=" 1 "a1"
    ≡ "https://gracon.rw/reset-password?userId=7f0c&token=a1"
unfolding mailer unmarked
reset_link = refl

unfoldable no_messages : mailer.Sent
unfolding mailer
no_messages = []

-- A message that the transport refuses does not fail the request.
refused_message :
    (send mailer 2026 (welcome_email "k@example.rw" "Keza" "Ineza" "RW-1") (
      send_all mailer 2026
        (password_reset_email "k@example.rw" "Keza" "Ineza" 1 "a1" ∷ [])
        no_messages)).0
    ≡ ok tt
unfolding mailer no_messages send send_all mail_message
refused_message = refl
