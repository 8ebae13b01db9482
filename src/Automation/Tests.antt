-- ===== src/Automation/Tests.antt =====
-- Runs of automation/service.py at concrete inputs, and the theorems applied to them.
use zhiniu.Prelude.{
  ℕ, ◌+◌, ◌*◌, ◌≤◌, ◌<◌, true, false, not, ◌&&◌, ◌≡◌, ◌↔◌, refl, none, some, List, [], ◌∷◌, codes,
  length, count_by, leb, ltb, arith,
}
use zhiniu.Automation.Models.{
  run_pending, partial, AutomationRunRecord, AutomationRunStepRecord, StepStatus, StepKey, pending,
  succeeded, failed, skipped, market_sync, ai_research, signal_projection, run_succeeded, is_failed,
  is_ai,
}
use zhiniu.Automation.Slots.{due_slot, IsDue, day, due_slot_lem}
use zhiniu.Automation.Levels.{p95, build_automation_slo_snapshot}
use zhiniu.Automation.Levels.Percentile.{p95_lem}
use zhiniu.Automation.Levels.Gate.{IsReleasable, gate_met}
use zhiniu.Automation.Skips.{Facts}
use zhiniu.Automation.Runs.{Worker, AutomationDb, raised}
use zhiniu.Automation.Runs.Leases.{accepted, execute_run, resume_run, resumed, finalized, pend_run}
use zhiniu.Automation.Runs.Finishing.{IsFinished}
use zhiniu.Automation.Runs.Executed.{execute_run-IsFinished}
use zhiniu.Automation.Runs.Resuming.{has_failed, finalized_status, resume_run-execute}
use zhiniu.Automation.Runs.Settled.{rows_of, resumed_kept}

-- Half past six in the evening of Shanghai, two hours later.
due_slot_lem_example :
    IsDue (20000 * day + 45000000000) 18 30 (due_slot (20000 * day + 45000000000) 18 30)
due_slot_lem_example =
    due_slot_lem (20000 * day + 45000000000) 18 30 (omega arith) (omega arith) (omega arith)

abbrev values : List ℕ
values = 30 ∷ 10 ∷ 20 ∷ []

p95_lem_example :
    (v : ℕ) × (p95 values ≡ some v)
    × (95 * length values ≤ 100 * count_by (λ x. leb x v) values)
    × (100 * count_by (λ x. ltb x v) values < 95 * length values)
p95_lem_example = p95_lem values (omega arith)

abbrev run : AutomationRunRecord
run = record {
  id = 1;
  status = partial;
  total_steps = 3;
  succeeded_steps = 1;
  failed_steps = 1;
  skipped_steps = 1;
  warning_steps = 0;
  provider_call_count = 0;
  rows_received = 0;
  rows_written = 0;
  signal_count = 0;
  alert_count = 0;
  ai_output_count = 0;
  error_code = none;
  lease_owner = none;
  lease_expires_at = none;
  heartbeat_at = none;
  started_at = some 1500000;
  finished_at = some 9000000;
  created_at = 1000000;
}

abbrev step : ℕ → StepKey → ℕ → StepStatus → AutomationRunStepRecord
step id key order status = record {
  id = id;
  run_id = 1;
  scope_key = codes "600519.SH";
  symbol = some (codes "600519.SH");
  step_key = key;
  dependency_order = order;
  status = status;
  attempt_count = 1;
  lease_owner = none;
  lease_expires_at = none;
  heartbeat_at = none;
  before_fingerprint = none;
  after_fingerprint = none;
  changed = false;
  provider_call_count = 1;
  rows_received = 2;
  rows_written = 2;
  error_code = none;
  started_at = some 1500000;
  finished_at = some 2000000;
}

abbrev store : AutomationDb
store = record {
  runs = run ∷ [];
  steps =
      step 11 market_sync 10 succeeded
      ∷ step 12 signal_projection 80 failed
      ∷ step 13 ai_research 90 skipped
      ∷ [];
  attempts = [];
}

gate_met_example :
    ((build_automation_slo_snapshot store.runs store.steps 9000000).release_gate_met ≡ true)
    ↔ IsReleasable store.runs store.steps 9000000
gate_met_example = gate_met store.runs store.steps 9000000

finalized_status_example :
    (((finalized 9000000 store.steps run).status ≡ run_succeeded)
      ↔ (count_by (λ s. is_failed s.status) store.steps ≡ 0))
    × ((has_failed (finalized 9000000 store.steps run).status ≡ true)
        ↔ (1 ≤ count_by (λ s. is_failed s.status && not (is_ai s.step_key)) store.steps))
finalized_status_example = finalized_status 9000000 store.steps run

abbrev facts : Facts
facts = record {
  now = 9000000;
  shanghai_month = 8;
  calendar_checked = none;
  stock_master_checked = none;
  taxonomy_updated = none;
  financial_checked = none;
  industry_refresh_interval_hours = 24;
  financial_reporting_interval_hours = 6;
  financial_normal_interval_hours = 24;
  valuation_exists = true;
  fundamental_exists = true;
  research_exists = true;
  ai_available = false;
  snapshot_exists = true;
  automation_ai_max_calls_per_run = 5;
}

abbrev worker : Worker
worker = record {
  worker_id = codes "worker";
  lease = 600000000;
  now = 10000000;
  finished = 12000000;
  step_started = λ id. 10000000;
  step_finished = λ id. 11000000;
  before = λ id. id;
  after = λ id. id + 1;
  attempt_uuid = λ id. id + 100;
  execute = λ id. raised (codes "TimeoutError") true;
  facts = λ id. facts;
  collates = λ a b. true;
}

abbrev pending_store : AutomationDb
pending_store = record store {
  runs = record run { status = run_pending } ∷ [];
  steps = step 11 market_sync 10 pending ∷ step 12 ai_research 90 pending ∷ [];
}

execute_run-IsFinished_example :
    (db' : AutomationDb) × (execute_run worker 1 pending_store ≡ some db') × IsFinished 1 db'
execute_run-IsFinished_example =
    execute_run-IsFinished worker 1 pending_store (record run { status = run_pending }) refl refl
      refl ((λ own going. ground arith), ((λ own going. ground arith), tt))

resume_run-execute_example :
    (resumed executed : AutomationDb) × (resume_run 1 store ≡ some (accepted, resumed))
    × (execute_run worker 1 resumed ≡ some executed)
    × IsFinished 1 executed
resume_run-execute_example =
    resume_run-execute worker 1 store run refl refl
      ((λ own. refl), ((λ own. refl), ((λ own. refl), tt)))

abbrev executed :
    (db' : AutomationDb) × (execute_run worker 1 (resumed 1 store) ≡ some db') × IsFinished 1 db'
executed =
    execute_run-IsFinished worker 1 (resumed 1 store) (pend_run run) refl refl refl (
      (λ own going. ground arith),
      ((λ own going. ground arith), ((λ own going. ground arith), tt)),
    )

resumed_kept_example : rows_of 11 executed.0.steps ≡ rows_of 11 store.steps
resumed_kept_example =
    resumed_kept worker 1 11 store executed.0
      ((λ own. refl), ((λ own. ground arith), ((λ own. ground arith), tt))) executed.1
