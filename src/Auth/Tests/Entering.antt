-- ===== src/Auth/Tests/Entering.antt =====
-- Logins, verifications and acceptances at concrete inputs.
use zhiniu.Prelude.{ℕ, true, ◌≡◌, refl, some, List, [], ◌∷◌, codes, arith}
use zhiniu.DateTime.{next_day, add_days, add_minutes, days_in_month}
use zhiniu.Auth.Store.{AuthDb, after, ok, err, invalid_credentials, password_reset_invalid}
use zhiniu.Auth.Legal.{
  Acceptances, accept_each, legal_document, required_registration_documents, accept_legal_documents,
  validate_registration_acceptances,
}
use zhiniu.Auth.Sessions.{
  AuthenticatedSession, create_session_record, login, authenticate, user_to_domain,
}
use zhiniu.Auth.Sessions.Ending.{validate_csrf}
use zhiniu.Auth.Emails.{
  verified, already_verified, consume_email_verification, deliver_email, verify_email,
}
use zhiniu.Auth.Passwords.{confirm_password_reset, request_password_reset}
use zhiniu.Auth.Service.{run_all}
use zhiniu.Auth.Entering.{login_refused, login_authenticates, seen_at}
use zhiniu.Auth.Replaced.{request_replaces, verified_once}
use zhiniu.Auth.Tests.{
  fine, member, moment, next_day_request, outcome, request, reset_token, store, succeeds, tries,
  verification,
}

login_refused_example :
    login request store (codes "user@example.com") (codes "wrong password")
    ≡ err invalid_credentials
login_refused_example =
    login_refused request store (codes "user@example.com") (codes "wrong password")
      (λ u h. ground arith)

login_run : succeeds (login request store (codes " user@example.com") (codes "old password")) ≡ true
unfolding login create_session_record add_days next_day days_in_month
login_run = refl

abbrev after_login :
    (p : AuthenticatedSession × AuthDb) × (login request store
        (codes " user@example.com")
        (codes "old password")
      ≡ ok p)
after_login =
    outcome (login request store (codes " user@example.com") (codes "old password")) login_run

two_weeks : add_days 14 (moment 3 9) ≡ some (moment 17 9)
unfolding add_days next_day days_in_month
two_weeks = refl

login_authenticates_example :
    ((authenticate next_day_request after_login.0.1 after_login.0.0.token).0
      ≡ some (user_to_domain (seen_at (moment 3 9) member)))
    × (validate_csrf next_day_request after_login.0.1 after_login.0.0.token
          after_login.0.0.csrf_token
        ≡ true)
login_authenticates_example =
    login_authenticates request store (codes " user@example.com") (codes "old password")
      after_login.0 next_day_request member (moment 17 9) after_login.1 refl refl two_weeks refl
      refl refl refl

abbrev after_verify : AuthDb
after_verify = after store (verify_email request store (codes "verify"))

verify_run : verify_email request store (codes "verify") ≡ ok (verified, after_verify)
unfolding verify_email consume_email_verification
verify_run = refl

verify_again :
    verify_email request (run_all [] after_verify) (codes "verify")
    ≡ ok (already_verified, after_verify)
unfolding verify_email consume_email_verification
verify_again = refl

request_run : succeeds (request_password_reset request store (codes "user@example.com")) ≡ true
unfolding request_password_reset add_minutes add_days deliver_email
request_run = refl

abbrev after_request :
    (p : Unit {0} × AuthDb) × (request_password_reset request store (codes "user@example.com")
      ≡ ok p)
after_request =
    outcome (request_password_reset request store (codes "user@example.com")) request_run

request_replaces_example :
    confirm_password_reset request
      (run_all tries after_request.0.1)
      (codes "reset")
      (codes "another one")
    ≡ err password_reset_invalid
request_replaces_example =
    request_replaces request store (codes "user@example.com") (codes "reset") (codes "another one")
      after_request.0 tries request member reset_token after_request.1 refl refl refl fine

verified_once_example : already_verified ≡ already_verified
verified_once_example =
    verified_once request store (codes "verify") (codes "verify") after_verify [] request
      verification verification (already_verified, after_verify) verify_run refl refl refl
      verify_again

abbrev pub acceptances : Acceptances
acceptances =
    (codes "terms_of_service", codes "2026-08-v1")
    ∷ (codes "privacy_policy", codes "2026-08-v1")
    ∷ []

valid : validate_registration_acceptances acceptances ≡ ok tt
unfolding validate_registration_acceptances required_registration_documents
valid = refl

accept_run : succeeds (accept_legal_documents request store 7 acceptances) ≡ true
unfolding accept_legal_documents accept_each legal_document
accept_run = refl

abbrev after_accept :
    (p : List (List ℕ) × AuthDb) × (accept_legal_documents request store 7 acceptances ≡ ok p)
after_accept = outcome (accept_legal_documents request store 7 acceptances) accept_run
