-- ===== src/Automation/Skips.antt =====
-- `_skip_reason` of automation/service.py. What it reads of other tables and of the settings is given.
use zhiniu.Prelude.{
  ℕ, ◌+◌, ◌*◌, Bool, true, false, not, ◌&&◌, ◌||◌, Option, none, some, List, [], ◌∷◌, codes,
  text_eq, any_by, count_by, ltb, leb, ◌==◌, if◌then◌else◌,
}
use zhiniu.Automation.Slots.{is_reporting_window}
use zhiniu.Automation.Models.{
  StepKey, trading_calendar_sync, stock_master_sync, industry_sync, market_sync, financial_sync,
  valuation_sync, fundamental_build, research_build, event_pipeline, peer_research,
  signal_projection, ai_research, coverage_finalize, AutomationRunStepRecord, is_succeeded, is_ai,
}

-- The times of the last successful checks, the intervals of the policy, and what is there for the
-- symbol of the step.
pub record Facts : Type 0 where
  pub now : ℕ
  pub shanghai_month : ℕ
  pub calendar_checked : Option ℕ
  pub stock_master_checked : Option ℕ
  pub taxonomy_updated : Option ℕ
  pub financial_checked : Option ℕ
  pub industry_refresh_interval_hours : ℕ
  pub financial_reporting_interval_hours : ℕ
  pub financial_normal_interval_hours : ℕ
  pub valuation_exists : Bool
  pub fundamental_exists : Bool
  pub research_exists : Bool
  pub ai_available : Bool
  pub snapshot_exists : Bool
  pub automation_ai_max_calls_per_run : ℕ

-- `latest is not None and latest > now - timedelta(hours=hours)`
abbrev pub checked_within : ℕ → ℕ → Option ℕ → Bool
checked_within now hours none = false
checked_within now hours (some latest) = ltb now (latest + hours * 3600000000)

abbrev pub key_eq : StepKey → StepKey → Bool
key_eq trading_calendar_sync trading_calendar_sync = true
key_eq stock_master_sync stock_master_sync = true
key_eq industry_sync industry_sync = true
key_eq market_sync market_sync = true
key_eq financial_sync financial_sync = true
key_eq valuation_sync valuation_sync = true
key_eq fundamental_build fundamental_build = true
key_eq research_build research_build = true
key_eq event_pipeline event_pipeline = true
key_eq peer_research peer_research = true
key_eq signal_projection signal_projection = true
key_eq ai_research ai_research = true
key_eq coverage_finalize coverage_finalize = true
key_eq a b = false

-- `if step.symbol`
abbrev pub has_symbol : Option (List ℕ) → Bool
has_symbol none = false
has_symbol (some []) = false
has_symbol (some (c ∷ cs)) = true

abbrev pub same_symbol : Option (List ℕ) → Option (List ℕ) → Bool
same_symbol (some a) (some b) = text_eq a b
same_symbol a b = false

-- `_changed_step` and `_changed_any`, on the symbol of a step
abbrev pub changed_step : List AutomationRunStepRecord → AutomationRunStepRecord → StepKey → Bool
changed_step steps step key =
    any_by
      (λ s.
        (s.run_id == step.run_id)
        && same_symbol s.symbol step.symbol
        && key_eq s.step_key key
        && s.changed)
      steps

abbrev pub any_changed_peer : List AutomationRunStepRecord → AutomationRunStepRecord → Bool
any_changed_peer steps step =
    any_by (λ s. (s.run_id == step.run_id) && key_eq s.step_key peer_research && s.changed) steps

abbrev pub ai_succeeded : List AutomationRunStepRecord → ℕ → ℕ
ai_succeeded steps run_id =
    count_by (λ s. (s.run_id == run_id) && is_ai s.step_key && is_succeeded s.status) steps

abbrev pub reason_when : Bool → List ℕ → Option (List ℕ)
reason_when true reason = some reason
reason_when false reason = none

abbrev pub financial_hours : Facts → ℕ
unfolding is_reporting_window
financial_hours facts =
    if is_reporting_window facts.shanghai_month
    then facts.financial_reporting_interval_hours
    else facts.financial_normal_interval_hours

abbrev pub ai_reason :
    Facts → List AutomationRunStepRecord → AutomationRunStepRecord → Option (List ℕ)
ai_reason facts steps step =
    if not facts.ai_available
    then some (codes "automation_ai_disabled")
    else if not facts.snapshot_exists
    then some (codes "deterministic_snapshot_missing")
    else reason_when (leb facts.automation_ai_max_calls_per_run (ai_succeeded steps step.run_id))
        (codes "automation_ai_call_limit_reached")

abbrev pub reason_of_key :
    Facts → List AutomationRunStepRecord → AutomationRunStepRecord → StepKey → Option (List ℕ)
unfolding financial_hours
reason_of_key facts steps step trading_calendar_sync =
    reason_when (checked_within facts.now 24 facts.calendar_checked)
      (codes "trading_calendar_check_not_due")
reason_of_key facts steps step stock_master_sync =
    reason_when (checked_within facts.now 24 facts.stock_master_checked)
      (codes "stock_master_check_not_due")
reason_of_key facts steps step industry_sync =
    reason_when
      (checked_within facts.now facts.industry_refresh_interval_hours facts.taxonomy_updated)
      (codes "industry_taxonomy_check_not_due")
reason_of_key facts steps step financial_sync =
    reason_when
      (has_symbol step.symbol
        && checked_within facts.now (financial_hours facts) facts.financial_checked)
      (codes "financial_check_not_due")
reason_of_key facts steps step valuation_sync =
    reason_when
      (has_symbol step.symbol
        && not (changed_step steps step market_sync)
        && facts.valuation_exists)
      (codes "market_input_unchanged")
reason_of_key facts steps step fundamental_build =
    reason_when
      (has_symbol step.symbol
        && not (changed_step steps step financial_sync || changed_step steps step valuation_sync)
        && facts.fundamental_exists)
      (codes "fundamental_input_unchanged")
reason_of_key facts steps step research_build =
    reason_when
      (has_symbol step.symbol
        && not (changed_step steps step fundamental_build)
        && facts.research_exists)
      (codes "research_input_unchanged")
reason_of_key facts steps step signal_projection =
    reason_when
      (has_symbol step.symbol
        && not (
            changed_step steps step research_build
            || changed_step steps step event_pipeline
            || changed_step steps step peer_research)
        && not (any_changed_peer steps step))
      (codes "signal_inputs_unchanged")
reason_of_key facts steps step ai_research =
    if has_symbol step.symbol then ai_reason facts steps step else none
reason_of_key facts steps step other = none

unfoldable pub skip_reason :
    Facts → List AutomationRunStepRecord → AutomationRunStepRecord → Option (List ℕ)
skip_reason facts steps step = reason_of_key facts steps step step.step_key
