-- ===== src/ProductionRelease/Environment.antt =====
-- What the gates read besides the release tables: settings of config.py and rows that other parts
-- of the program write (db.py). Columns that no gate reads are left out.
use zhiniu.Prelude.{ℕ, Bool, Option, List}
use zhiniu.ProductionRelease.Models.{ArtifactStatus, Evidence, GateCheck, GateStatus, GateType}

pub data AppEnv : Type 0 where
  development test production : AppEnv

pub data RegistrationMode : Type 0 where
  invite_only closed : RegistrationMode

pub data ReviewStatus : Type 0 where
  review_required review_approved review_blocked : ReviewStatus

pub record Settings : Type 0 where
  pub app_env : AppEnv
  pub registration_mode : RegistrationMode
  pub beta_max_active_users : ℕ
  pub legal_review_status : ReviewStatus
  pub data_use_status : ReviewStatus
  pub automation_hard_disabled : Bool
  pub watchlist_preparation_enabled : Bool

pub record BetaReliabilityObservationRecord : Type 0 where
  pub id : ℕ
  pub is_production : Bool
  pub status : ArtifactStatus
  pub release_commit : ℕ
  pub api_image_digest : ℕ
  pub web_image_digest : ℕ
  pub migration_head : List ℕ
  pub configuration_fingerprint : ℕ
  pub window_started_at : ℕ
  pub window_ended_at : ℕ
  pub created_at : ℕ

pub record ProviderAcceptanceRunRecord : Type 0 where
  pub id : ℕ
  pub environment : List ℕ
  pub usage_scope : List ℕ
  pub status : List ℕ
  pub beta_eligible : Bool
  pub finished_at : ℕ
  pub created_at : ℕ

pub record ProviderDiagnosticRunRecord : Type 0 where
  pub provider : List ℕ
  pub target : List ℕ
  pub status : List ℕ
  pub checked_at : ℕ

pub record TransactionalEmailDeliveryRecord : Type 0 where
  pub id : ℕ
  pub status : List ℕ
  pub delivered_at : Option ℕ

pub record TransactionalEmailProviderEventRecord : Type 0 where
  pub id : ℕ
  pub provider : List ℕ
  pub status : List ℕ
  pub received_at : ℕ

pub record BetaFeedbackItemRecord : Type 0 where
  pub severity : List ℕ
  pub status : List ℕ

-- What `runtime("resend")` and the validation of its configuration give when neither raises.
pub record ResendRuntime : Type 0 where
  pub source : List ℕ
  pub enabled : Bool
  pub has_api_key : Bool
  pub has_webhook_secret : Bool

-- `runtime_reason` is the text of the error of `validate_runtime_security` or
-- `validate_production_runtime`, if one of them raises; `isoformat` and `fingerprint` are the
-- library's.
pub record Environment : Type 0 where
  pub settings : Settings
  pub runtime_reason : Option (List ℕ)
  pub alembic_version : Option (List ℕ)
  pub observations : List BetaReliabilityObservationRecord
  pub acceptance_runs : List ProviderAcceptanceRunRecord
  pub diagnostics : List ProviderDiagnosticRunRecord
  pub deliveries : List TransactionalEmailDeliveryRecord
  pub provider_events : List TransactionalEmailProviderEventRecord
  pub feedback : List BetaFeedbackItemRecord
  pub user_statuses : List (List ℕ)
  pub resend_runtime : Option ResendRuntime
  pub isoformat : ℕ → List ℕ
  pub fingerprint : Evidence → ℕ
  pub result_fingerprint : ℕ → GateType → GateStatus → List GateCheck → ℕ
