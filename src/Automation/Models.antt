-- ===== src/Automation/Models.antt =====
-- The tables of db.py that automation/service.py keeps its runs in, with the columns it uses, and
-- the service levels. A moment is a number of microseconds since the epoch.
use zhiniu.Prelude.{ℕ, Bool, true, false, Option, List}

-- `AutomationRunRecord.status`
pub data RunStatus : Type 0 where
  run_pending run_running run_succeeded succeeded_with_warnings partial : RunStatus
  run_failed run_blocked run_skipped : RunStatus

-- `AutomationRunStepRecord.status`
pub data StepStatus : Type 0 where
  pending running succeeded failed skipped blocked : StepStatus

-- `step_key`
pub data StepKey : Type 0 where
  trading_calendar_sync stock_master_sync industry_sync : StepKey
  market_sync financial_sync valuation_sync fundamental_build research_build : StepKey
  event_pipeline peer_research signal_projection ai_research coverage_finalize : StepKey

pub record AutomationRunRecord : Type 0 where
  pub id : ℕ
  pub status : RunStatus
  pub total_steps : ℕ
  pub succeeded_steps : ℕ
  pub failed_steps : ℕ
  pub skipped_steps : ℕ
  pub warning_steps : ℕ
  pub provider_call_count : ℕ
  pub rows_received : ℕ
  pub rows_written : ℕ
  pub signal_count : ℕ
  pub alert_count : ℕ
  pub ai_output_count : ℕ
  pub error_code : Option (List ℕ)
  pub lease_owner : Option (List ℕ)
  pub lease_expires_at : Option ℕ
  pub heartbeat_at : Option ℕ
  pub started_at : Option ℕ
  pub finished_at : Option ℕ
  pub created_at : ℕ

pub record AutomationRunStepRecord : Type 0 where
  pub id : ℕ
  pub run_id : ℕ
  pub scope_key : List ℕ
  pub symbol : Option (List ℕ)
  pub step_key : StepKey
  pub dependency_order : ℕ
  pub status : StepStatus
  pub attempt_count : ℕ
  pub lease_owner : Option (List ℕ)
  pub lease_expires_at : Option ℕ
  pub heartbeat_at : Option ℕ
  pub before_fingerprint : Option ℕ
  pub after_fingerprint : Option ℕ
  pub changed : Bool
  pub provider_call_count : ℕ
  pub rows_received : ℕ
  pub rows_written : ℕ
  pub error_code : Option (List ℕ)
  pub started_at : Option ℕ
  pub finished_at : Option ℕ

pub record AutomationStepAttemptRecord : Type 0 where
  pub id : ℕ
  pub step_id : ℕ
  pub attempt_number : ℕ
  pub worker_id : List ℕ
  pub status : StepStatus
  pub retryable : Bool
  pub error_code : Option (List ℕ)
  pub started_at : ℕ
  pub finished_at : Option ℕ

abbrev pub is_pending : StepStatus → Bool
is_pending pending = true
is_pending other = false

abbrev pub is_running : StepStatus → Bool
is_running running = true
is_running other = false

abbrev pub is_succeeded : StepStatus → Bool
is_succeeded succeeded = true
is_succeeded other = false

abbrev pub is_failed : StepStatus → Bool
is_failed failed = true
is_failed other = false

abbrev pub is_skipped : StepStatus → Bool
is_skipped skipped = true
is_skipped other = false

abbrev pub is_blocked : StepStatus → Bool
is_blocked blocked = true
is_blocked other = false

abbrev pub is_ai : StepKey → Bool
is_ai ai_research = true
is_ai other = false
