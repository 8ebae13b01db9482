-- ===== src/Automation/Runs/Leases.antt =====
-- Taking a run, executing it to its end, resuming it and giving it up: `execute_run`, `resume_run`,
-- `_finalize_run` and `_mark_stalled_run` of automation/service.py.
use zhiniu.Prelude.{
  ℕ, ◌+◌, ◌-◌, Bool, true, false, not, ◌&&◌, ◌||◌, Option, none, some, List, [], ◌∷◌, map, codes,
  filter_by, count_by, length, ltb, min, ◌==◌, if◌then◌else◌,
}
use zhiniu.Automation.Models.{
  RunStatus, run_pending, run_running, run_succeeded, succeeded_with_warnings, partial, run_failed,
  pending, failed, AutomationRunRecord, AutomationRunStepRecord, is_pending, is_running,
  is_succeeded, is_failed, is_skipped, is_ai,
}
use zhiniu.Automation.Levels.{is_active, is_pending_run}
use zhiniu.Automation.Runs.{AutomationDb, Worker, change_run, get_run, execute_steps, pending_steps}

-- `lease_expires_at is None or lease_expires_at < now`
abbrev pub lease_over : ℕ → Option ℕ → Bool
lease_over now none = true
lease_over now (some until) = ltb until now

-- Steps of the run whose worker has gone are pending again.
abbrev pub recover_step : ℕ → ℕ → AutomationRunStepRecord → AutomationRunStepRecord
recover_step run_id now s =
    if (s.run_id == run_id) && is_running s.status && lease_over now s.lease_expires_at
    then record s {
      status = pending;
      lease_owner = none;
      lease_expires_at = none;
      error_code = some (codes "expired_lease_recovered");
    }
    else s

abbrev pub or_now : Option ℕ → ℕ → ℕ
or_now none now = now
or_now (some at) now = at

abbrev pub acquire_run : Worker → AutomationRunRecord → AutomationRunRecord
acquire_run w r = record r {
  status = run_running;
  started_at = some (or_now r.started_at w.now);
  lease_owner = some w.worker_id;
  heartbeat_at = some w.now;
  lease_expires_at = some (w.now + w.lease);
}

abbrev pub acquire : Worker → ℕ → AutomationDb → AutomationDb
acquire w run_id db = record db {
  steps = map (recover_step run_id w.now) db.steps;
  runs = change_run run_id (acquire_run w) db.runs;
}

abbrev pub of_run : ℕ → AutomationRunStepRecord → Bool
of_run run_id s = s.run_id == run_id

-- The status that the steps of a run give it.
abbrev pub final_status : ℕ → ℕ → ℕ → RunStatus
final_status failures ai_failures successes =
    let required = failures - ai_failures in
    if not (required == 0) && not (successes == 0)
    then partial
    else if not (required == 0)
    then run_failed
    else if not (ai_failures == 0)
    then succeeded_with_warnings
    else run_succeeded

abbrev pub sum_of : (AutomationRunStepRecord → ℕ) → List AutomationRunStepRecord → ℕ
sum_of f [] = 0
sum_of f (s ∷ ss) = f s + sum_of f ss

abbrev pub finalized : ℕ → List AutomationRunStepRecord → AutomationRunRecord → AutomationRunRecord
finalized finished steps r =
    let failures = count_by (λ s. is_failed s.status) steps in
    let ai_failures = count_by (λ s. is_failed s.status && is_ai s.step_key) steps in
    let successes = count_by (λ s. is_succeeded s.status) steps in
    record r {
      status = final_status failures ai_failures successes;
      total_steps = length steps;
      succeeded_steps = successes;
      failed_steps = failures;
      skipped_steps = count_by (λ s. is_skipped s.status) steps;
      warning_steps = ai_failures;
      provider_call_count = sum_of (λ s. s.provider_call_count) steps;
      rows_received = sum_of (λ s. s.rows_received) steps;
      rows_written = sum_of (λ s. s.rows_written) steps;
      finished_at = some finished;
      lease_owner = none;
      lease_expires_at = none;
      heartbeat_at = none;
    }

-- `_finalize_run`
unfoldable pub finalize_run : ℕ → ℕ → AutomationDb → AutomationDb
finalize_run finished run_id db = record db {
  runs = change_run run_id (finalized finished (filter_by (of_run run_id) db.steps)) db.runs;
}

-- Whether another worker holds the run.
abbrev pub is_held : ℕ → AutomationRunRecord → Bool
is_held now r =
    not (is_pending_run r.status)
    && (elim r.lease_expires_at [ none ↦ false | some until ↦ ltb now until ])

unfoldable pub execute_found : Worker → ℕ → AutomationDb → AutomationRunRecord → AutomationDb
unfolding pending_steps finalize_run
execute_found w run_id db r =
    let db' = acquire w run_id db in
    if is_active r.status && not (is_held w.now r)
    then finalize_run w.finished run_id (execute_steps w run_id (pending_steps w run_id db') db')
    else db

-- `execute_run`, without the view that it returns; `none` for a run that is not found
unfoldable pub execute_run : Worker → ℕ → AutomationDb → Option AutomationDb
execute_run w run_id db = elim (get_run db run_id) [
  | none ↦ none
  | some r ↦ some (execute_found w run_id db r)
]

abbrev pub is_resumable : RunStatus → Bool
is_resumable run_failed = true
is_resumable partial = true
is_resumable succeeded_with_warnings = true
is_resumable other = false

-- `min((item.dependency_order for item in failed), default=10_000)`
abbrev pub first_order : List AutomationRunStepRecord → ℕ
first_order [] = 10000
first_order (s ∷ []) = s.dependency_order
first_order (s ∷ t ∷ ss) = min s.dependency_order (first_order (t ∷ ss))

abbrev pub failed_of : ℕ → AutomationRunStepRecord → Bool
failed_of run_id s = (s.run_id == run_id) && is_failed s.status

-- Failed steps, and skipped ones after the first of them, are pending again.
abbrev pub reset_step : ℕ → ℕ → AutomationRunStepRecord → AutomationRunStepRecord
reset_step run_id first s =
    if failed_of run_id s
      || ((s.run_id == run_id) && ltb first s.dependency_order && is_skipped s.status)
    then record s { status = pending; error_code = none }
    else s

pub data TriggerStatus : Type 0 where
  accepted not_resumed : TriggerStatus

abbrev pub pend_run : AutomationRunRecord → AutomationRunRecord
pend_run r = record r { status = run_pending; finished_at = none }

-- The writes of a resumption.
abbrev pub resumed : ℕ → AutomationDb → AutomationDb
resumed run_id db = record db {
  steps = map (reset_step run_id (first_order (filter_by (failed_of run_id) db.steps))) db.steps;
  runs = change_run run_id pend_run db.runs;
}

abbrev pub resume_found : ℕ → AutomationDb → AutomationRunRecord → TriggerStatus × AutomationDb
resume_found run_id db r =
    if is_resumable r.status then (accepted, resumed run_id db) else (not_resumed, db)

-- `resume_run`; `none` for a run that is not found
unfoldable pub resume_run : ℕ → AutomationDb → Option (TriggerStatus × AutomationDb)
resume_run run_id db = elim (get_run db run_id) [
  | none ↦ none
  | some r ↦ some (resume_found run_id db r)
]

abbrev pub stall_step : ℕ → ℕ → AutomationRunStepRecord → AutomationRunStepRecord
stall_step run_id now s =
    if (s.run_id == run_id) && (is_pending s.status || is_running s.status)
    then record s {
      status = failed;
      error_code = some (codes "preparation_stalled");
      finished_at = some now;
      lease_owner = none;
      lease_expires_at = none;
      heartbeat_at = none;
    }
    else s

-- `_mark_stalled_run`; `finished` is the clock of `_finalize_run`
unfoldable pub mark_stalled_run : ℕ → ℕ → ℕ → AutomationDb → AutomationDb
unfolding finalize_run
mark_stalled_run run_id now finished db =
    let db' =
      finalize_run finished run_id (record db { steps = map (stall_step run_id now) db.steps }) in
    record db' {
      runs =
          change_run run_id (λ r. record r { error_code = some (codes "preparation_stalled") })
            db'.runs;
    }
