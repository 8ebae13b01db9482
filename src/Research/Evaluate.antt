-- ===== src/Research/Evaluate.antt =====
-- RULES and `evaluate_rules` of research/rules.py. `none` is an exception.
use zhiniu.Prelude.{
  ℕ, Bool, true, false, ◌&&◌, ◌||◌, Option, none, some, List, [], ◌∷◌, String, codes, text_eq,
  starts_with, any_by, sort_by, ltb, ◌==◌, if◌then◌else◌,
}
use zhiniu.Prelude.Maybe.{◌>>=◌}
use zhiniu.Research.Models.{
  ObservationDimension, growth, profitability, quality, balance, valuation, AttentionLevel, info,
  notice, important, FundamentalMetricPoint, FinancialReport, ResearchObservation,
}
use zhiniu.Research.Series.{reversed}
use zhiniu.Research.Observations.{ChangeRuleDefinition, Digests, Finding, make_observation}
use zhiniu.Research.Rules.{first_metric, second_metric, latest_first, growth_of}
use zhiniu.Research.Comparisons.{delta_of, gap_of, valuation_of}

abbrev rule_of :
    String → ObservationDimension → List (List ℕ) → ℕ → List (List ℕ × ℕ) → ChangeRuleDefinition
rule_of rule_id dimension metrics history parameters = record {
  rule_id = codes rule_id;
  version = codes "v1";
  rule_dimension = dimension;
  required_metrics = metrics;
  minimum_history = history;
  parameters = parameters;
  supported_templates = codes "fundamental_general:v1" ∷ [];
}

abbrev momentum_parameters : List (List ℕ × ℕ)
momentum_parameters =
    (codes "min_step_pp", 1) ∷ (codes "min_total_pp", 3) ∷ (codes "zero_band_pp", 1) ∷ []

abbrev band_parameters : List (List ℕ × ℕ)
band_parameters = (codes "high", 80) ∷ (codes "low", 20) ∷ (codes "minimum_samples", 500) ∷ []

-- The four kinds of rule in RULES.
abbrev pub momentum_rule : String → String → ChangeRuleDefinition
momentum_rule rule_id metric = rule_of rule_id growth (codes metric ∷ []) 3 momentum_parameters

abbrev pub delta_rule : String → ObservationDimension → String → ℕ → ChangeRuleDefinition
delta_rule rule_id dimension metric bound =
    rule_of rule_id dimension (codes metric ∷ []) 2 ((codes "threshold_pp", bound) ∷ [])

abbrev pub gap_rule : String → String → String → List (List ℕ × ℕ) → ChangeRuleDefinition
gap_rule rule_id left right more =
    rule_of rule_id quality (codes left ∷ codes right ∷ []) 1 ((codes "threshold_pp", 20) ∷ more)

abbrev pub band_rule : String → String → ChangeRuleDefinition
band_rule rule_id metric = rule_of rule_id valuation (codes metric ∷ []) 1 band_parameters

-- RULES
unfoldable pub change_rules : List ChangeRuleDefinition
change_rules =
    momentum_rule "growth.revenue_single_quarter_momentum" "revenue_single_quarter_yoy"
    ∷ momentum_rule "growth.parent_profit_single_quarter_momentum"
        "parent_net_profit_single_quarter_yoy"
    ∷ delta_rule "profitability.gross_margin_yoy_delta" profitability "gross_margin" 2
    ∷ delta_rule "profitability.parent_net_margin_yoy_delta" profitability "parent_net_margin" 2
    ∷ gap_rule "quality.ocf_profit_growth_gap" "operating_cash_flow_yoy" "parent_net_profit_yoy"
        ((codes "important_pp", 35) ∷ [])
    ∷ gap_rule "quality.ar_revenue_growth_gap" "accounts_receivable_yoy" "revenue_yoy" []
    ∷ gap_rule "quality.inventory_revenue_growth_gap" "inventory_yoy" "revenue_yoy" []
    ∷ delta_rule "balance.debt_asset_yoy_delta" balance "debt_to_assets" 3
    ∷ band_rule "valuation.pe_percentile_band" "pe_ttm_percentile_3y"
    ∷ band_rule "valuation.pb_percentile_band" "pb_percentile_3y"
    ∷ []

-- The rule that the name of a definition calls.
unfoldable pub finding_of :
    ChangeRuleDefinition → List FundamentalMetricPoint → Option (Option Finding)
finding_of rule points = first_metric rule >>= (λ code.
    let series = latest_first points code in
    if starts_with (codes "growth.") rule.rule_id
    then growth_of rule code series
    else (if starts_with (codes "profitability.") rule.rule_id
          || starts_with (codes "balance.") rule.rule_id
        then delta_of rule code series
        else (if starts_with (codes "quality.") rule.rule_id
            then second_metric rule >>= (λ other. gap_of rule series (latest_first points other))
            else valuation_of rule code series)))

unfoldable pub observe :
    Digests
    → List ℕ
    → List FinancialReport
    → ℕ
    → ChangeRuleDefinition
    → Option Finding
    → Option (Option ResearchObservation)
observe d symbol reports generated_at rule none = some none
observe d symbol reports generated_at rule (some found) =
    make_observation d symbol rule reports generated_at found >>= (λ o. some (some o))

abbrev pub add_some :
    Option ResearchObservation → List ResearchObservation → List ResearchObservation
add_some none rest = rest
add_some (some o) rest = o ∷ rest

-- The loop over the rules.
unfoldable pub rule_observations :
    Digests
    → List ℕ
    → List ℕ
    → List FundamentalMetricPoint
    → List FinancialReport
    → ℕ
    → List ChangeRuleDefinition
    → Option (List ResearchObservation)
rule_observations d symbol template points reports generated_at [] = some []
rule_observations d symbol template points reports generated_at (rule ∷ rest) =
    let later = rule_observations d symbol template points reports generated_at rest in
    if any_by (text_eq template) rule.supported_templates
    then (finding_of rule points >>= observe d symbol reports generated_at rule)
      >>= (λ seen. later >>= (λ os. some (add_some seen os)))
    else later

abbrev pub priority : AttentionLevel → ℕ
priority important = 0
priority notice = 1
priority info = 2

-- Of the names of the dimensions, by the alphabet.
abbrev pub dimension_rank : ObservationDimension → ℕ
dimension_rank balance = 0
dimension_rank growth = 1
dimension_rank profitability = 2
dimension_rank quality = 3
dimension_rank valuation = 4

abbrev pub text_leb : List ℕ → List ℕ → Bool
text_leb [] b = true
text_leb (x ∷ xs) [] = false
text_leb (x ∷ xs) (y ∷ ys) = ltb x y || ((x == y) && text_leb xs ys)

-- The key of the sort: the attention, the dimension, the title.
abbrev pub observation_order : ResearchObservation → ResearchObservation → Bool
observation_order a b =
    let p = priority a.attention_level in
    let q = priority b.attention_level in
    let m = dimension_rank a.dimension in
    let n = dimension_rank b.dimension in
    ltb p q || ((p == q) && (ltb m n || ((m == n) && text_leb a.title b.title)))

-- `evaluate_rules`; of two reports with one id the later one is found.
unfoldable pub evaluate_rules :
    Digests
    → List ℕ
    → List ℕ
    → List ℕ
    → List FundamentalMetricPoint
    → List FinancialReport
    → ℕ
    → Option (List ResearchObservation)
evaluate_rules d symbol issuer_type template points reports generated_at =
    if text_eq issuer_type (codes "general")
    then rule_observations d symbol template points (reversed reports) generated_at change_rules
      >>= (λ os. some (sort_by observation_order os))
    else some []
