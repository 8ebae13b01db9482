-- ===== src/Automation/Levels.antt =====
-- `build_automation_slo_snapshot` of automation/service.py and its helpers: latencies, the 95th
-- percentile, and the reasons that block a release. The table of failure reasons is left out.
pub mod Percentile
pub mod Gate
use zhiniu.Prelude.{
  ℕ, ◌+◌, ◌-◌, ◌*◌, ◌/◌, ◌%◌, Bool, true, false, not, ◌&&◌, ◌||◌, Option, none, some, List, [], ◌∷◌,
  ◌++◌, map, codes, text_eq, find, filter_by, count_by, length, get_elem?, sort_by, is_some, ltb,
  leb, ◌==◌, if◌then◌else◌,
}
use zhiniu.Automation.Models.{
  RunStatus, run_pending, run_running, run_succeeded, succeeded_with_warnings, partial, run_failed,
  run_blocked, run_skipped, AutomationRunRecord, AutomationRunStepRecord, StepKey, market_sync,
  research_build, ai_research, is_succeeded, is_failed, is_skipped, is_blocked,
}

-- The keys of SLO_TARGETS_MS
pub data MetricKey : Type 0 where
  queue_start market_ready deterministic_ready ai_terminal : MetricKey

-- SLO_TARGETS_MS
abbrev pub target_ms_of : MetricKey → ℕ
target_ms_of queue_start = 10000
target_ms_of market_ready = 60000
target_ms_of deterministic_ready = 600000
target_ms_of ai_terminal = 600000

abbrev pub slo_stale_active_ms : ℕ
slo_stale_active_ms = 600000

abbrev pub slo_minimum_sample_count : ℕ
slo_minimum_sample_count = 20

-- `_latency_ms`: `int` cuts off towards zero, so that less than a millisecond before the start
-- counts as none; the rounding of the product of floats, which can lose a millisecond, is not modelled
unfoldable pub latency_ms : ℕ → ℕ → Option ℕ
latency_ms start end =
    if leb start end
    then some ((end - start) / 1000)
    else if ltb (start - end) 1000
    then some 0
    else none

-- `max(0, ceil(n * 0.95) - 1)`; the product of floats is below the next whole number or on it
abbrev pub p95_index : ℕ → ℕ
p95_index n = (n * 95 + 99) / 100 - 1

-- `_p95`
unfoldable pub p95 : List ℕ → Option ℕ
p95 values = get_elem? (sort_by leb values) (p95_index (length values))

abbrev pub present_of : List (Option ℕ) → List ℕ
present_of [] = []
present_of (none ∷ rest) = present_of rest
present_of (some x ∷ rest) = x ∷ present_of rest

abbrev pub queue_latency : AutomationRunRecord → Option ℕ
queue_latency run = elim run.started_at [ none ↦ none | some at ↦ latency_ms run.created_at at ]

abbrev pub unchanged_input : List ℕ
unchanged_input = codes "research_input_unchanged"

abbrev pub is_code : Option (List ℕ) → List ℕ → Bool
is_code none text = false
is_code (some code) text = text_eq code text

-- Whether a step counts for a metric.
abbrev pub eligible : MetricKey → AutomationRunStepRecord → Bool
eligible queue_start step = false
eligible market_ready step = elim step.step_key [
  | market_sync ↦ is_succeeded step.status
  | other ↦ false
]
eligible deterministic_ready step = elim step.step_key [
  | research_build ↦
      is_succeeded step.status
      || (is_skipped step.status && is_code step.error_code unchanged_input)
  | other ↦ false
]
eligible ai_terminal step = elim step.step_key [
  | ai_research ↦
      is_succeeded step.status
      || is_failed step.status
      || is_skipped step.status
      || is_blocked step.status
  | other ↦ false
]

-- The latency of a step, from the creation of its run.
abbrev pub step_latency : List AutomationRunRecord → MetricKey → AutomationRunStepRecord → Option ℕ
step_latency runs key step = elim (find (λ r. r.id == step.run_id) runs) [
  | none ↦ none
  | some run ↦ elim step.finished_at [
    | none ↦ none
    | some at ↦ if eligible key step then latency_ms run.created_at at else none
  ]
]

unfoldable pub latencies_of :
    List AutomationRunRecord → List AutomationRunStepRecord → MetricKey → List ℕ
unfolding latency_ms
latencies_of runs steps queue_start = present_of (map queue_latency runs)
latencies_of runs steps market_ready = present_of (map (step_latency runs market_ready) steps)
latencies_of runs steps deterministic_ready =
    present_of (map (step_latency runs deterministic_ready) steps)
latencies_of runs steps ai_terminal = present_of (map (step_latency runs ai_terminal) steps)

abbrev pub is_acceptable : RunStatus → Bool
is_acceptable run_succeeded = true
is_acceptable succeeded_with_warnings = true
is_acceptable partial = true
is_acceptable other = false

abbrev pub is_active : RunStatus → Bool
is_active run_pending = true
is_active run_running = true
is_active other = false

abbrev pub is_pending_run : RunStatus → Bool
is_pending_run run_pending = true
is_pending_run other = false

abbrev pub is_ended : RunStatus → Bool
is_ended status = not (is_active status)

abbrev pub is_run_failure : RunStatus → Bool
is_run_failure run_failed = true
is_run_failure run_blocked = true
is_run_failure other = false

-- `not error_code`
abbrev pub is_unclassified : Option (List ℕ) → Bool
is_unclassified none = true
is_unclassified (some []) = true
is_unclassified (some (c ∷ cs)) = false

abbrev pub is_stale_run : ℕ → AutomationRunRecord → Bool
is_stale_run generated run = is_active run.status && (elim (latency_ms run.created_at generated) [
  | none ↦ false
  | some ms ↦ ltb slo_stale_active_ms ms
])

-- `round(part / whole * 100, 1)`, in tenths, with a tie to the even tenth; the rounding of the
-- floats before it is not modelled
abbrev pub tenths : ℕ → ℕ → ℕ
tenths part whole =
    let q = 1000 * part / whole in
    let r = 2 * (1000 * part % whole) in
    if ltb r whole then q else if ltb whole r then q + 1 else if q % 2 == 0 then q else q + 1

abbrev pub terminal_rate : ℕ → ℕ → Option ℕ
terminal_rate acceptable terminal =
    if terminal == 0 then none else some (tenths acceptable terminal)

pub data BlockingReason : Type 0 where
  insufficient_samples slo_target_missed : MetricKey → BlockingReason
  acceptable_terminal_rate_below_target stale_active_runs_present : BlockingReason
  unclassified_failures_present : BlockingReason

pub record AutomationSloMetric : Type 0 where
  pub key : MetricKey
  pub target_ms : ℕ
  pub sample_count : ℕ
  pub p95_ms : Option ℕ
  pub met : Option Bool

pub record AutomationSloSnapshot : Type 0 where
  pub total_watchlist_runs : ℕ
  pub terminal_runs : ℕ
  pub acceptable_terminal_runs : ℕ
  pub acceptable_terminal_rate : Option ℕ
  pub pending_runs : ℕ
  pub running_runs : ℕ
  pub stale_active_runs : ℕ
  pub unclassified_failure_count : ℕ
  pub release_gate_met : Bool
  pub blocking_reasons : List BlockingReason
  pub metrics : List AutomationSloMetric

abbrev pub metric_of : MetricKey → List ℕ → AutomationSloMetric
unfolding p95
metric_of key values = record {
  key = key;
  target_ms = target_ms_of key;
  sample_count = length values;
  p95_ms = p95 values;
  met = elim (p95 values) [ none ↦ none | some ms ↦ some (leb ms (target_ms_of key)) ];
}

abbrev pub missed : MetricKey → Option ℕ → Bool
missed key none = false
missed key (some ms) = ltb (target_ms_of key) ms

abbrev pub metric_reasons : MetricKey → List ℕ → List BlockingReason
metric_reasons key values =
    if ltb (length values) slo_minimum_sample_count
    then insufficient_samples key ∷ []
    else if missed key (p95 values)
    then slo_target_missed key ∷ []
    else []

abbrev pub reason_if : Bool → BlockingReason → List BlockingReason
reason_if true reason = reason ∷ []
reason_if false reason = []

abbrev pub below_target : Option ℕ → Bool
below_target none = true
below_target (some rate) = ltb rate 950

-- `not blocking_reasons`
abbrev pub is_nil {ℓ} : {A : Type ℓ} → List A → Bool
is_nil [] = true
is_nil (x ∷ xs) = false

-- The reasons, in the order in which they are appended.
abbrev pub joined {ℓ} : {A : Type ℓ} → List (List A) → List A
joined [] = []
joined (xs ∷ rest) = xs ++ joined rest

abbrev pub count_unclassified : List AutomationRunRecord → List AutomationRunStepRecord → ℕ
count_unclassified runs steps =
    count_by (λ r. is_run_failure r.status && is_unclassified r.error_code) runs
    + count_by (λ s. (is_failed s.status || is_blocked s.status) && is_unclassified s.error_code)
        steps

unfoldable pub build_automation_slo_snapshot :
    List AutomationRunRecord → List AutomationRunStepRecord → ℕ → AutomationSloSnapshot
unfolding latencies_of
build_automation_slo_snapshot runs steps generated =
    let values = latencies_of runs steps in
    let terminal = count_by (λ r. is_ended r.status) runs in
    let acceptable = count_by (λ r. is_acceptable r.status) runs in
    let rate = terminal_rate acceptable terminal in
    let stale = count_by (is_stale_run generated) runs in
    let unclassified = count_unclassified runs steps in
    let reasons = joined (
      metric_reasons queue_start (values queue_start)
      ∷ metric_reasons market_ready (values market_ready)
      ∷ metric_reasons deterministic_ready (values deterministic_ready)
      ∷ metric_reasons ai_terminal (values ai_terminal)
      ∷ reason_if (below_target rate) acceptable_terminal_rate_below_target
      ∷ reason_if (not (stale == 0)) stale_active_runs_present
      ∷ reason_if (not (unclassified == 0)) unclassified_failures_present
      ∷ []) in
    record {
      total_watchlist_runs = length runs;
      terminal_runs = terminal;
      acceptable_terminal_runs = acceptable;
      acceptable_terminal_rate = rate;
      pending_runs = count_by (λ r. is_pending_run r.status) runs;
      running_runs = count_by (λ r. is_active r.status && not (is_pending_run r.status)) runs;
      stale_active_runs = stale;
      unclassified_failure_count = unclassified;
      release_gate_met = is_nil reasons;
      blocking_reasons = reasons;
      metrics =
          metric_of queue_start (values queue_start)
          ∷ metric_of market_ready (values market_ready)
          ∷ metric_of deterministic_ready (values deterministic_ready)
          ∷ metric_of ai_terminal (values ai_terminal)
          ∷ [];
    }
