-- ===== src/Auth/Tests.antt =====
-- Runs of auth/service.py at concrete inputs, and the theorems applied to them.
mod Registering
mod Entering
use mathlib.Core.List.{foldl}
use zhiniu.Prelude.{
  ℕ, ◌+◌, ◌*◌, ◌%◌, ◌≤◌, Bool, true, false, ◌≡◌, refl, Option, none, some, List, [], ◌∷◌, ◌++◌,
  codes, text_eq, find, ◌==◌, arith, count_by,
}
use zhiniu.DateTime.{DateTime, next_day, add_days, add_minutes, days_in_month, before}
use zhiniu.AccessControl.Store.{Db, User}
use zhiniu.Auth.Store.{
  UserSessionRecord, EmailVerificationTokenRecord, PasswordResetTokenRecord, AuthDb, AuthSettings,
  Request, gateway_sent, Result, after, ok, err, invalid_credentials, password_reset_invalid,
}
use zhiniu.Auth.Legal.{
  Acceptances, accept_each, legal_document, required_registration_documents, accept_legal_documents,
  validate_registration_acceptances,
}
use zhiniu.Auth.Sessions.{
  AuthenticatedSession, create_session_record, login, authenticate, verify_current_password,
  user_to_domain, session_by_hash,
}
use zhiniu.Auth.Sessions.Ending.{validate_csrf}
use zhiniu.Auth.Emails.{
  Verified, verified, already_verified, consume_email_verification, deliver_email, verify_email,
}
use zhiniu.Auth.Passwords.{validate_password, confirm_password_reset, request_password_reset}
use zhiniu.Auth.Service.{Operation, logs_in, logs_out, requests_reset, run, run_all}
use zhiniu.Auth.Ended.{IsUseless, reset_ends_sessions, reset_once, ended_session, by_token, Ends}
use zhiniu.Auth.Entering.{login_refused, login_authenticates, reset_sets_password, seen_at}
use zhiniu.Auth.Replaced.{request_replaces, verified_once}

abbrev pub moment : ℕ → ℕ → DateTime
moment day hour = record { year = 2026; month = 8; day = day; micros = hour * 3600000000 }

abbrev pub digest : List ℕ → ℕ
digest message = foldl (λ h c. (h * 131 + c) % 1000000007) 7 message

abbrev pub settings : AuthSettings
settings = record {
  auth_session_days = 14;
  auth_password_min_length = 8;
  registration_mode = codes "invite_only";
  beta_mode = codes "controlled";
  beta_max_active_users = 2;
  registration_invite_hmac_secret = codes "invite-secret";
  email_verification_code_ttl_minutes = 15;
  password_reset_ttl_minutes = 30;
}

abbrev pub request : Request
request = record {
  settings = settings;
  now = moment 3 9;
  database_now = moment 3 9;
  lower = λ t. t;
  sha256 = digest;
  hmac = λ secret message. digest (secret ++ message);
  uuid_text = λ n. (b'0' + n) ∷ [];
  hash_password = λ password. codes "hash of " ++ password;
  verify_password = λ password hash. text_eq (codes "hash of " ++ password) hash;
  token = codes "fresh token";
  csrf_token = codes "fresh csrf";
  randbelow = λ i. 1234 + i;
  user_uuid = 9;
  session_uuid = 101;
  token_uuid = 201;
  delivery_uuid = 301;
  provider_name = codes "smtp";
  outcome = gateway_sent (codes "smtp") (codes "m1") (moment 3 9);
}

abbrev pub next_day_request : Request
next_day_request = record request { now = moment 4 9; token = codes "second token" }

abbrev pub member : User
member = record {
  id = 7;
  email = codes "user@example.com";
  password_hash = codes "hash of old password";
  base_plan_version_id = 1;
  status = codes "active";
  last_login_at = none;
  email_verified_at = none;
  password_changed_at = none;
}

abbrev pub session : UserSessionRecord
session = record {
  id = 100;
  user_id = 7;
  token_hash = digest (codes "old token");
  csrf_token_hash = digest (codes "old csrf");
  created_at = moment 1 9;
  last_used_at = moment 3 8;
  expires_at = moment 15 9;
  revoked_at = none;
  operator_elevated_until = none;
}

abbrev pub reset_token : PasswordResetTokenRecord
reset_token = record {
  id = 200;
  user_id = 7;
  token_hash = digest (codes "reset");
  expires_at = moment 3 10;
  consumed_at = none;
  revoked_at = none;
}

abbrev pub verification : EmailVerificationTokenRecord
verification = record {
  id = 210;
  user_id = 7;
  token_hash = digest (codes "verify");
  email_snapshot = codes "user@example.com";
  expires_at = moment 3 10;
  consumed_at = none;
  revoked_at = none;
}

abbrev pub access : Db
access = record {
  users = member ∷ [];
  plan_versions = [];
  subscriptions = [];
  batches = [];
  activation_codes = [];
  redemptions = [];
  invite_batches = [];
  invites = [];
}

abbrev pub store : AuthDb
store = record {
  access = access;
  sessions = session ∷ [];
  verifications = verification ∷ [];
  resets = reset_token ∷ [];
  acceptances = [];
  deliveries = [];
  cohorts = [];
  recipients = [];
  onboarding = [];
  watchlists = [];
  alert_settings = [];
}

abbrev pub succeeds : {A : Type 0} → Result A → Bool
succeeds (ok a) = true
succeeds (err e) = false

-- The outcome of a run that succeeds.
pub outcome : {A : Type 0} (r : Result A) → succeeds r ≡ true → (a : A) × (r ≡ ok a)
outcome (ok a) h = (a, refl)
outcome (err e) h = ground arith

-- The member logs in with the old password, and is refused, after the reset.
abbrev pub tries : List (Request × Operation)
tries = (request, logs_in (codes "user@example.com") (codes "old password")) ∷ []

reset_run :
    succeeds (confirm_password_reset request store (codes "reset") (codes "new password")) ≡ true
unfolding confirm_password_reset validate_password
reset_run = refl

abbrev after_reset :
    (p : Unit {0} × AuthDb) × (confirm_password_reset request store
        (codes "reset")
        (codes "new password")
      ≡ ok p)
after_reset =
    outcome (confirm_password_reset request store (codes "reset") (codes "new password")) reset_run

reset_ends_sessions_example : IsUseless request (run_all tries after_reset.0.1) (codes "old token")
reset_ends_sessions_example =
    reset_ends_sessions request store (codes "reset") (codes "new password") after_reset.0
      after_reset.1 tries request reset_token session (codes "old token") refl refl refl

pub fine : validate_password (codes "another one") 8 ≡ ok tt
unfolding validate_password
fine = refl

reset_once_example :
    confirm_password_reset request
      (run_all tries after_reset.0.1)
      (codes "reset")
      (codes "another one")
    ≡ err password_reset_invalid
reset_once_example =
    reset_once request store (codes "reset") (codes "new password") after_reset.0 after_reset.1
      tries request (codes "another one") refl fine

reset_sets_password_example :
    verify_current_password request after_reset.0.1 7 (codes "new password") ≡ true
reset_sets_password_example =
    reset_sets_password request store (codes "reset") (codes "new password") after_reset.0
      reset_token request after_reset.1 refl refl

ended_session_example :
    IsUseless request
      (run_all tries (run (request, logs_out (codes "old token")) store))
      (codes "old token")
ended_session_example =
    ended_session request store (logs_out (codes "old token")) tries request session
      (codes "old token") (by_token (codes "old token") refl refl) refl
