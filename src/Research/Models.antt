-- ===== src/Research/Models.antt =====
-- research/models.py, and `DEFINITION_BY_CODE` of fundamentals/metrics.py. A `Decimal` is its number
-- of units of 10 ^ -8, the scale of its column; a UUID is the number that its text stands for.
use zhiniu.Prelude.{ℕ, Bool, Option, List, [], ◌∷◌, String, codes, text_eq, find}
use zhiniu.Prelude.Int.{ℤ}

pub data ObservationDimension : Type 0 where
  growth profitability quality balance valuation : ObservationDimension

pub data AttentionLevel : Type 0 where
  info notice important : AttentionLevel

pub data Movement : Type 0 where
  up down crossed_up crossed_down neutral : Movement

pub data MetricStatus : Type 0 where
  available missing_input insufficient_history not_applicable invalid_input : MetricStatus

pub data MetricBasis : Type 0 where
  point_in_time ytd standalone fy : MetricBasis

-- A date: its year, and its ordinal.
pub record PeriodEnd : Type 0 where
  pub year : ℕ
  pub ordinal : ℕ

-- The fields that the rules read or pass on, but `detail`.
pub record FundamentalMetricPoint : Type 0 where
  pub code : List ℕ
  pub value : Option ℤ
  pub unit : List ℕ
  pub status : MetricStatus
  pub period_end : PeriodEnd
  pub fiscal_period : List ℕ
  pub basis : MetricBasis
  pub input_fingerprint : List ℕ
  pub input_report_ids : List ℕ
  pub input_valuation_ids : List ℕ
  pub id : ℕ

-- The parts of a report that its evidence names.
pub record FinancialReport : Type 0 where
  pub report_id : ℕ
  pub provider : List ℕ
  pub provider_record_id : List ℕ
  pub report_period : List ℕ
  pub report_end : PeriodEnd
  pub known_at : ℕ

pub record EvidenceMetric : Type 0 where
  pub metric_point_id : ℕ
  pub role : List ℕ
  pub metric_code : List ℕ
  pub display_name : List ℕ
  pub evidence_end : PeriodEnd
  pub evidence_period : List ℕ
  pub evidence_basis : MetricBasis
  pub evidence_value : Option ℤ
  pub evidence_unit : List ℕ
  pub evidence_status : MetricStatus
  pub evidence_report_ids : List ℕ
  pub evidence_valuation_ids : List ℕ

pub record CalculationTrace : Type 0 where
  pub method : List ℕ
  pub change_value : ℤ
  pub change_unit : List ℕ

-- A number as `_fmt` prints it: its sign, and its hundredths.
pub record Quote : Type 0 where
  pub is_negative : Bool
  pub hundredths : ℕ

-- `quotes` are the numbers that the summary and the expression print.
pub record ResearchObservation : Type 0 where
  pub observation_id : ℕ
  pub symbol : List ℕ
  pub dimension : ObservationDimension
  pub observation_family : List ℕ
  pub observation_type : List ℕ
  pub attention_level : AttentionLevel
  pub movement : Movement
  pub title : List ℕ
  pub current_period : PeriodEnd
  pub comparison_periods : List PeriodEnd
  pub rule_id : List ℕ
  pub rule_version : List ℕ
  pub observation_key : List ℕ
  pub content_fingerprint : List ℕ
  pub evidence_metrics : List EvidenceMetric
  pub evidence_sources : List FinancialReport
  pub calculation : CalculationTrace
  pub quotes : List Quote
  pub generated_at : ℕ

pub record MetricDefinition : Type 0 where
  pub definition_code : List ℕ
  pub definition_name : List ℕ

abbrev pub named : String → String → MetricDefinition
named code name = record { definition_code = codes code; definition_name = codes name }

-- METRIC_DEFINITIONS, with the code and the name of each
abbrev pub metric_definitions : List MetricDefinition
metric_definitions =
    named "revenue_yoy" "营业收入同比"
    ∷ named "parent_net_profit_yoy" "归母净利润同比"
    ∷ named "revenue_single_quarter_yoy" "单季度收入同比"
    ∷ named "parent_net_profit_single_quarter_yoy" "单季度归母净利润同比"
    ∷ named "revenue_cagr_3y" "营业收入三年复合增速"
    ∷ named "parent_net_profit_cagr_3y" "归母净利润三年复合增速"
    ∷ named "gross_margin" "毛利率"
    ∷ named "parent_net_margin" "归母净利率"
    ∷ named "roe_avg_equity_fy" "年度平均权益 ROE"
    ∷ named "roa_avg_assets_fy" "年度平均资产 ROA"
    ∷ named "operating_cash_flow" "经营现金流"
    ∷ named "operating_cash_flow_yoy" "经营现金流同比"
    ∷ named "ocf_to_parent_net_profit" "现金利润比"
    ∷ named "accounts_receivable_yoy" "应收账款同比"
    ∷ named "inventory_yoy" "存货同比"
    ∷ named "free_cash_flow" "自由现金流"
    ∷ named "debt_to_assets" "资产负债率"
    ∷ named "cash" "货币资金"
    ∷ named "interest_bearing_debt" "有息负债"
    ∷ named "net_debt" "净负债"
    ∷ named "current_ratio" "流动比率"
    ∷ named "goodwill_to_assets" "商誉占总资产"
    ∷ named "pe_ttm" "市盈率 TTM"
    ∷ named "pb" "市净率"
    ∷ named "pcf" "市现率"
    ∷ named "market_cap" "总市值"
    ∷ named "pe_ttm_percentile_3y" "市盈率三年分位"
    ∷ named "pb_percentile_3y" "市净率三年分位"
    ∷ []

-- `DEFINITION_BY_CODE[code]`
unfoldable pub definition_by_code : List ℕ → Option MetricDefinition
definition_by_code code = find (λ d. text_eq d.definition_code code) metric_definitions
