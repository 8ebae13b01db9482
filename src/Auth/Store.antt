-- ===== src/Auth/Store.antt =====
-- The tables of db.py that auth/service.py reads and writes beside those of access_control, the
-- settings it reads, and its errors. Identifiers are numbers; a digest is the number that stands
-- for its hexadecimal text. The user agent, the address and the name columns are left out.
use zhiniu.Prelude.{
  ◌≡◌, refl, ◌⊎◌, inl, inr, ℕ, Bool, true, false, Option, none, some, List, if◌then◌else◌,
}
use zhiniu.DateTime.{DateTime}
use zhiniu.AccessControl.Store.{Db}

pub record UserSessionRecord : Type 0 where
  pub id : ℕ
  pub user_id : ℕ
  pub token_hash : ℕ
  pub csrf_token_hash : ℕ
  pub created_at : DateTime
  pub last_used_at : DateTime
  pub expires_at : DateTime
  pub revoked_at : Option DateTime
  pub operator_elevated_until : Option DateTime

pub record EmailVerificationTokenRecord : Type 0 where
  pub id : ℕ
  pub user_id : ℕ
  pub token_hash : ℕ
  pub email_snapshot : List ℕ
  pub expires_at : DateTime
  pub consumed_at : Option DateTime
  pub revoked_at : Option DateTime

pub record PasswordResetTokenRecord : Type 0 where
  pub id : ℕ
  pub user_id : ℕ
  pub token_hash : ℕ
  pub expires_at : DateTime
  pub consumed_at : Option DateTime
  pub revoked_at : Option DateTime

pub record UserLegalAcceptanceRecord : Type 0 where
  pub user_id : ℕ
  pub document_type : List ℕ
  pub document_version : List ℕ
  pub content_hash : ℕ
  pub accepted_at : DateTime

pub data DeliveryStatus : Type 0 where
  pending sent failed : DeliveryStatus

-- `logical_delivery_key` is the template key and the identifier of the token.
pub record TransactionalEmailDeliveryRecord : Type 0 where
  pub id : ℕ
  pub user_id : ℕ
  pub template_key : List ℕ
  pub template_version : List ℕ
  pub provider : List ℕ
  pub logical_delivery_key : List ℕ × ℕ
  pub status : DeliveryStatus
  pub provider_message_id : Option (List ℕ)
  pub sent_at : Option DateTime
  pub error_code : Option (List ℕ)

pub record BetaInviteCohortRecord : Type 0 where
  pub id : ℕ
  pub status : List ℕ

pub record BetaInviteRecipientRecord : Type 0 where
  pub id : ℕ
  pub cohort_id : ℕ
  pub email_hmac : ℕ
  pub invite_id : Option ℕ
  pub user_id : Option ℕ
  pub status : List ℕ
  pub registered_at : Option DateTime

pub record BetaOnboardingStateRecord : Type 0 where
  pub user_id : ℕ
  pub recipient_id : ℕ
  pub schema_version : List ℕ

pub record WatchlistRecord : Type 0 where
  pub user_id : ℕ
  pub name : List ℕ
  pub is_default : Bool

pub record UserResearchAlertSettingsRecord : Type 0 where
  pub user_id : ℕ

-- What a committed session leaves in the database.
pub record AuthDb : Type 0 where
  pub access : Db
  pub sessions : List UserSessionRecord
  pub verifications : List EmailVerificationTokenRecord
  pub resets : List PasswordResetTokenRecord
  pub acceptances : List UserLegalAcceptanceRecord
  pub deliveries : List TransactionalEmailDeliveryRecord
  pub cohorts : List BetaInviteCohortRecord
  pub recipients : List BetaInviteRecipientRecord
  pub onboarding : List BetaOnboardingStateRecord
  pub watchlists : List WatchlistRecord
  pub alert_settings : List UserResearchAlertSettingsRecord

-- The settings of config.py that this component reads.
pub record AuthSettings : Type 0 where
  pub auth_session_days : ℕ
  pub auth_password_min_length : ℕ
  pub registration_mode : List ℕ
  pub beta_mode : List ℕ
  pub beta_max_active_users : ℕ
  pub registration_invite_hmac_secret : List ℕ
  pub email_verification_code_ttl_minutes : ℕ
  pub password_reset_ttl_minutes : ℕ

-- How the provider of the emails answers: a task is queued, the queue is not there, the gateway
-- sends, or it raises `TransactionalEmailError`.
pub data EmailOutcome : Type 0 where
  queued queue_unavailable : EmailOutcome
  gateway_sent : List ℕ → List ℕ → DateTime → EmailOutcome
  gateway_failed : List ℕ → EmailOutcome

-- One request: the settings, the clocks of the service and of the database, what the random generators draw, the library functions, and
-- the answer of the email provider. A request that reads the clock twice reads one moment.
pub record Request : Type 0 where
  pub settings : AuthSettings
  pub now : DateTime
  pub database_now : DateTime
  pub lower : List ℕ → List ℕ
  pub sha256 : List ℕ → ℕ
  pub hmac : List ℕ → List ℕ → ℕ
  pub uuid_text : ℕ → List ℕ
  pub hash_password : List ℕ → List ℕ
  pub verify_password : List ℕ → List ℕ → Bool
  pub token : List ℕ
  pub csrf_token : List ℕ
  pub randbelow : ℕ → ℕ
  pub user_uuid : ℕ
  pub session_uuid : ℕ
  pub token_uuid : ℕ
  pub delivery_uuid : ℕ
  pub provider_name : List ℕ
  pub outcome : EmailOutcome

-- `AuthenticationError`; and the errors that the service does not turn into one: a unique constraint
-- of the database, and a moment past the last year.
pub data AuthError : Type 0 where
  password_too_short password_too_long registration_closed : AuthError
  required_legal_acceptance_missing beta_capacity_reached : AuthError
  invalid_or_unavailable_invitation email_already_registered invalid_credentials : AuthError
  email_verification_invalid email_verification_expired email_verification_unavailable : AuthError
  user_not_found password_reset_invalid password_reset_expired : AuthError
  legal_document_version_invalid : AuthError
  integrity_error date_overflow : AuthError

-- What a request returns or raises.
pub data Result (A : Type 0) : Type 0 where
  ok : A → Result A
  err : AuthError → Result A

infixl 5 ◌>>=◌ ◌>>◌
abbrev pub ◌>>=◌ : {A B : Type 0} → Result A → (A → Result B) → Result B
ok a >>= f = f a
err e >>= f = err e

abbrev pub ◌>>◌ : {B : Type 0} → Result (Unit {0}) → Result B → Result B
m >> k = m >>= λ _. k

-- `if not test: raise error`
abbrev pub require : Bool → AuthError → Result (Unit {0})
require true e = ok tt
require false e = err e

abbrev pub or_raise : {A : Type 0} → Option A → AuthError → Result A
or_raise none e = err e
or_raise (some a) e = ok a

-- `isinstance(error, IntegrityError)`
abbrev pub is_integrity : AuthError → Bool
is_integrity integrity_error = true
is_integrity other = false

-- `except IntegrityError: raise error`
abbrev pub except_integrity : {A : Type 0} → AuthError → Result A → Result A
except_integrity e (ok a) = ok a
except_integrity e (err x) = err (if is_integrity x then e else x)

-- What a request leaves in the database: what it raises before its commit is rolled back.
abbrev pub after : {A : Type 0} → AuthDb → Result (A × AuthDb) → AuthDb
after db (ok (a, db')) = db'
after db (err e) = db

-- To split on the result of a step and keep the equation.
pub Result-cases :
    {A : Type 0} (r : Result A) → ((e : AuthError) × (r ≡ err e)) ⊎ ((a : A) × (r ≡ ok a))
Result-cases (ok a) = inr (a, refl)
Result-cases (err e) = inl (e, refl)
