-- ===== src/AccessControl/Store.antt =====
-- The tables of db.py that access_control/service.py reads and writes, with the columns it uses.
-- Identifiers are numbers; a digest is the number that stands for its hexadecimal text.
use zhiniu.Prelude.{◌≡◌, refl, ◌⊎◌, inl, inr, ℕ, Bool, true, false, Option, none, some, List}
use zhiniu.DateTime.{DateTime}

-- `term_kind`; the column may hold a text that is neither of the two
pub data TermKind : Type 0 where
  month year other_term : TermKind

-- `SubscriptionRecord.status`
pub data SubscriptionStatus : Type 0 where
  active other_status : SubscriptionStatus

pub record User : Type 0 where
  pub id : ℕ
  pub email : List ℕ
  pub password_hash : List ℕ
  pub base_plan_version_id : ℕ
  pub status : List ℕ
  pub last_login_at : Option DateTime
  pub email_verified_at : Option DateTime
  pub password_changed_at : Option DateTime

-- The JSON columns hold Booleans and integers, on which `bool` and `int` are the identity.
pub record PlanVersionRecord : Type 0 where
  pub id : ℕ
  pub features : List (List ℕ × Bool)
  pub limits : List (List ℕ × ℕ)

pub record SubscriptionRecord : Type 0 where
  pub id : ℕ
  pub user_id : ℕ
  pub plan_code : List ℕ
  pub plan_version_id : ℕ
  pub status : SubscriptionStatus
  pub current_period_start : DateTime
  pub current_period_end : DateTime
  pub activation_source : List ℕ
  pub revoked_at : Option DateTime

pub record AccessActivationBatchRecord : Type 0 where
  pub id : ℕ
  pub plan_version_id : ℕ
  pub term_kind : TermKind
  pub quantity : ℕ
  pub expires_at : DateTime
  pub created_by_operator : List ℕ
  pub revoked_at : Option DateTime

pub record AccessActivationCodeRecord : Type 0 where
  pub id : ℕ
  pub batch_id : ℕ
  pub code_hmac : ℕ
  pub code_prefix : List ℕ
  pub assigned_user_id : ℕ
  pub expires_at : DateTime
  pub redeemed_by_user_id : Option ℕ
  pub redeemed_at : Option DateTime
  pub revoked_at : Option DateTime

pub record AccessActivationRedemptionRecord : Type 0 where
  pub id : ℕ
  pub activation_code_id : ℕ
  pub user_id : ℕ
  pub plan_version_id : ℕ
  pub term_kind : TermKind
  pub previous_period_end : Option DateTime
  pub new_period_start : DateTime
  pub new_period_end : DateTime
  pub redeemed_at : DateTime

pub record RegistrationInviteBatchRecord : Type 0 where
  pub id : ℕ
  pub quantity : ℕ
  pub expires_at : DateTime
  pub created_by_operator : List ℕ
  pub revoked_at : Option DateTime

pub record RegistrationInviteRecord : Type 0 where
  pub id : ℕ
  pub batch_id : ℕ
  pub code_hmac : ℕ
  pub code_prefix : List ℕ
  pub expires_at : DateTime
  pub consumed_by_user_id : Option ℕ
  pub consumed_at : Option DateTime
  pub revoked_at : Option DateTime

-- What a committed session leaves in the database.
pub record Db : Type 0 where
  pub users : List User
  pub plan_versions : List PlanVersionRecord
  pub subscriptions : List SubscriptionRecord
  pub batches : List AccessActivationBatchRecord
  pub activation_codes : List AccessActivationCodeRecord
  pub redemptions : List AccessActivationRedemptionRecord
  pub invite_batches : List RegistrationInviteBatchRecord
  pub invites : List RegistrationInviteRecord

-- The settings of config.py that this component reads.
pub record Settings : Type 0 where
  pub access_activation_enabled : Bool
  pub app_env : List ℕ
  pub commercialization_status : List ℕ
  pub support_contact_url : List ℕ
  pub registration_invite_hmac_secret : List ℕ
  pub access_activation_hmac_secret : List ℕ

-- `AccessControlError`, `LookupError`, the `ValueError` of a code or a date out of range, and the
-- `IntegrityError` of a unique constraint
pub data AccessError : Type 0 where
  invalid_invite_count invalid_invite_expiry invalid_activation_expiry : AccessError
  access_activation_unavailable activation_code_unavailable : AccessError
  email_verification_required : AccessError
  user_not_found base_plan_version_not_found subscription_plan_version_not_found : AccessError
  invalid_code_format date_out_of_range unique_violation : AccessError

pub data Result (A : Type 0) : Type 0 where
  ok : A → Result A
  err : AccessError → Result A

infixl 5 ◌>>=◌ ◌>>◌
abbrev pub ◌>>=◌ : {A B : Type 0} → Result A → (A → Result B) → Result B
ok a >>= f = f a
err e >>= f = err e

abbrev pub ◌>>◌ : {B : Type 0} → Result (Unit {0}) → Result B → Result B
m >> k = m >>= λ _. k

-- `if not test: raise error`
abbrev pub require : Bool → AccessError → Result (Unit {0})
require true e = ok tt
require false e = err e

abbrev pub or_raise : {A : Type 0} → Option A → AccessError → Result A
or_raise none e = err e
or_raise (some a) e = ok a

-- To split on the result of a step and keep the equation.
pub Result-cases :
    {A : Type 0} (r : Result A) → ((e : AccessError) × (r ≡ err e)) ⊎ ((a : A) × (r ≡ ok a))
Result-cases (ok a) = inr (a, refl)
Result-cases (err e) = inl (e, refl)
