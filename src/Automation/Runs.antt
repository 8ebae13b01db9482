-- ===== src/Automation/Runs.antt =====
-- `_execute_step` of automation/service.py and its loop over the steps of a run. What the executor does
-- for a step, the fingerprints, the clocks and the collation of the database are given by the worker.
pub mod Leases
pub mod Finishing
pub mod Executed
pub mod Resuming
pub mod Settled
use zhiniu.Prelude.{
  ℕ, ◌+◌, ◌-◌, Bool, true, false, not, ◌&&◌, ◌||◌, Option, none, some, List, [], ◌∷◌, ◌++◌, map,
  codes, find, filter_by, count_by, length, sort_by, is_some, ltb, leb, min, ◌==◌, if◌then◌else◌,
}
use zhiniu.Automation.Models.{
  RunStatus, run_pending, run_running, run_succeeded, succeeded_with_warnings, partial, run_failed,
  run_blocked, run_skipped, StepStatus, pending, running, succeeded, failed, skipped, blocked,
  AutomationRunRecord, AutomationRunStepRecord, AutomationStepAttemptRecord, is_pending, is_running,
  is_succeeded, is_failed, is_skipped, is_ai,
}
use zhiniu.Automation.Levels.{is_active, is_pending_run}
use zhiniu.Automation.Skips.{Facts, skip_reason}

pub data ExecutionStatus : Type 0 where
  did_succeed did_skip did_fail : ExecutionStatus

pub record StepExecutionResult : Type 0 where
  pub status : ExecutionStatus
  pub error_code : Option (List ℕ)
  pub retryable : Bool
  pub provider_calls : ℕ
  pub rows_received : ℕ
  pub rows_written : ℕ
  pub signal_count : ℕ
  pub alert_count : ℕ
  pub ai_output_count : ℕ

abbrev pub persisted_step_status : ExecutionStatus → StepStatus
persisted_step_status did_succeed = succeeded
persisted_step_status did_skip = skipped
persisted_step_status did_fail = failed

-- How a call of the executor ends: with a result, or with an error of a code that may be tried again.
pub data Execution : Type 0 where
  completed : StepExecutionResult → Execution
  raised : List ℕ → Bool → Execution

pub record Worker : Type 0 where
  pub worker_id : List ℕ
  pub lease : ℕ
  pub now : ℕ
  pub finished : ℕ
  pub step_started : ℕ → ℕ
  pub step_finished : ℕ → ℕ
  pub before : ℕ → ℕ
  pub after : ℕ → ℕ
  pub attempt_uuid : ℕ → ℕ
  pub execute : ℕ → Execution
  pub facts : ℕ → Facts
  pub collates : List ℕ → List ℕ → Bool

pub record AutomationDb : Type 0 where
  pub runs : List AutomationRunRecord
  pub steps : List AutomationRunStepRecord
  pub attempts : List AutomationStepAttemptRecord

abbrev pub change_run :
    ℕ
    → (AutomationRunRecord → AutomationRunRecord)
    → List AutomationRunRecord
    → List AutomationRunRecord
change_run run_id f runs = map (λ r. if r.id == run_id then f r else r) runs

abbrev pub change_step :
    ℕ
    → (AutomationRunStepRecord → AutomationRunStepRecord)
    → List AutomationRunStepRecord
    → List AutomationRunStepRecord
change_step step_id f steps = map (λ s. if s.id == step_id then f s else s) steps

abbrev pub get_run : AutomationDb → ℕ → Option AutomationRunRecord
get_run db run_id = find (λ r. r.id == run_id) db.runs

abbrev pub start_step : Worker → AutomationRunStepRecord → AutomationRunStepRecord
start_step w s = record s {
  status = running;
  attempt_count = s.attempt_count + 1;
  lease_owner = some w.worker_id;
  started_at = some (w.step_started s.id);
  heartbeat_at = some (w.step_started s.id);
  lease_expires_at = some (w.step_started s.id + w.lease);
  before_fingerprint = some (w.before s.id);
}

abbrev pub new_attempt : Worker → AutomationRunStepRecord → AutomationStepAttemptRecord
new_attempt w s = record {
  id = w.attempt_uuid s.id;
  step_id = s.id;
  attempt_number = s.attempt_count;
  worker_id = w.worker_id;
  status = running;
  retryable = false;
  error_code = none;
  started_at = w.step_started s.id;
  finished_at = none;
}

-- How a step ends.
pub data Ending : Type 0 where
  skips : List ℕ → Ending
  ends : Execution → Ending

abbrev pub ending_of : Worker → ℕ → Option (List ℕ) → Ending
ending_of w step_id none = ends (w.execute step_id)
ending_of w step_id (some reason) = skips reason

abbrev pub ended_status : Ending → StepStatus
ended_status (skips reason) = skipped
ended_status (ends (completed r)) = persisted_step_status r.status
ended_status (ends (raised code retryable)) = failed

abbrev pub ended_code : Ending → Option (List ℕ)
ended_code (skips reason) = some reason
ended_code (ends (completed r)) = r.error_code
ended_code (ends (raised code retryable)) = some code

-- The columns that only a result sets.
abbrev pub with_result : Worker → Ending → AutomationRunStepRecord → AutomationRunStepRecord
with_result w (skips reason) s = s
with_result w (ends (completed r)) s = record s {
  after_fingerprint = some (w.after s.id);
  changed = not (w.before s.id == w.after s.id);
  provider_call_count = r.provider_calls;
  rows_received = r.rows_received;
  rows_written = r.rows_written;
}
with_result w (ends (raised code retryable)) s = s

abbrev pub end_step : Worker → Ending → AutomationRunStepRecord → AutomationRunStepRecord
end_step w e s = record (with_result w e s) {
  status = ended_status e;
  error_code = ended_code e;
  finished_at = some (w.step_finished s.id);
  lease_owner = none;
  lease_expires_at = none;
  heartbeat_at = none;
}

abbrev pub attempt_code : Ending → Option (List ℕ)
attempt_code (skips reason) = none
attempt_code (ends e) = ended_code (ends e)

abbrev pub attempt_retryable : Ending → Bool
attempt_retryable (skips reason) = false
attempt_retryable (ends (completed r)) = r.retryable
attempt_retryable (ends (raised code retryable)) = retryable

abbrev pub end_attempt :
    Worker → ℕ → Ending → AutomationStepAttemptRecord → AutomationStepAttemptRecord
end_attempt w step_id e a = record a {
  status = ended_status e;
  error_code = attempt_code e;
  retryable = attempt_retryable e;
  finished_at = some (w.step_finished step_id);
}

abbrev pub count_result : Ending → AutomationRunRecord → AutomationRunRecord
count_result (ends (completed r)) run = record run {
  signal_count = run.signal_count + r.signal_count;
  alert_count = run.alert_count + r.alert_count;
  ai_output_count = run.ai_output_count + r.ai_output_count;
}
count_result e run = run

abbrev pub beat : Worker → ℕ → Ending → AutomationRunRecord → AutomationRunRecord
beat w step_id e run = record (count_result e run) {
  heartbeat_at = some (w.step_finished step_id);
  lease_expires_at = some (w.step_finished step_id + w.lease);
}

-- The second half of `_execute_step`, on the row that was started.
abbrev pub finish_step : Worker → ℕ → AutomationDb → AutomationRunStepRecord → AutomationDb
unfolding skip_reason
finish_step w run_id db s =
    let e = ending_of w s.id (skip_reason (w.facts s.id) db.steps s) in
    record db {
      steps = change_step s.id (end_step w e) db.steps;
      attempts =
          map (λ a. if a.id == w.attempt_uuid s.id then end_attempt w s.id e a else a) db.attempts;
      runs = change_run run_id (beat w s.id e) db.runs;
    }

-- `_execute_step`
unfoldable pub execute_step : Worker → ℕ → AutomationRunStepRecord → AutomationDb → AutomationDb
execute_step w run_id step db =
    let s = start_step w step in
    finish_step w run_id
      (record db {
        steps = change_step step.id (start_step w) db.steps;
        attempts = db.attempts ++ new_attempt w s ∷ [];
      })
      s

-- `order_by(dependency_order, scope_key)`
abbrev pub step_order : Worker → AutomationRunStepRecord → AutomationRunStepRecord → Bool
step_order w a b =
    ltb a.dependency_order b.dependency_order
    || ((a.dependency_order == b.dependency_order) && w.collates a.scope_key b.scope_key)

abbrev pub pending_of : ℕ → AutomationRunStepRecord → Bool
pending_of run_id s = (s.run_id == run_id) && is_pending s.status

unfoldable pub pending_steps : Worker → ℕ → AutomationDb → List AutomationRunStepRecord
pending_steps w run_id db = sort_by (step_order w) (filter_by (pending_of run_id) db.steps)

abbrev pub execute_steps : Worker → ℕ → List AutomationRunStepRecord → AutomationDb → AutomationDb
unfolding execute_step
execute_steps w run_id [] db = db
execute_steps w run_id (s ∷ ss) db = execute_steps w run_id ss (execute_step w run_id s db)
