-- ===== src/Research/Tests.antt =====
-- The change rules on small inputs, and the witness of their theorem.
use zhiniu.Prelude.{
  ℕ, ◌*◌, ◌≡◌, refl, Option, none, some, List, [], ◌∷◌, map, codes, sort_by, String,
}
use zhiniu.Prelude.Int.{pos, ◌-ℤ◌}
use zhiniu.Research.Models.{
  Movement, up, available, ytd, FundamentalMetricPoint, ResearchObservation, definition_by_code,
}
use zhiniu.Research.Series.{available_points, period_index, same_period_previous}
use zhiniu.Research.Observations.{
  Digests, observation_on, evidence_metrics_of, evidence_metric, sources,
}
use zhiniu.Research.Rules.{units_pp, growth_of, crossing_of, earlier_steps, two_steps}
use zhiniu.Research.Comparisons.{change_between, delta_of, gap_between, gap_of, valuation_of}
use zhiniu.Research.Evaluate.{evaluate_rules, rule_observations, observe, finding_of, change_rules}
use zhiniu.Research.Observations.{fmt, fmt_all}

abbrev digests : Digests
digests = record {
  key_hash = λ material. material.key_family;
  content_hash_of = λ material rule inputs. material.key_type;
  uuid_of = λ content. 7;
}

abbrev point_at : String → ℕ → ℕ → FundamentalMetricPoint
point_at code year value = record {
  code = codes code;
  value = some (pos (value * units_pp));
  unit = codes "percent";
  status = available;
  period_end = record { year = year; ordinal = year * 366 };
  fiscal_period = codes "FY";
  basis = ytd;
  input_fingerprint = codes "f";
  input_report_ids = [];
  input_valuation_ids = [];
  id = year;
}

-- A margin that rose by five points, and a cash flow that grew 40 points faster than the profit,
-- which is important and so comes first.
abbrev points : List FundamentalMetricPoint
points =
    point_at "gross_margin" 2023 25
    ∷ point_at "gross_margin" 2024 30
    ∷ point_at "operating_cash_flow_yoy" 2024 50
    ∷ point_at "parent_net_profit_yoy" 2024 10
    ∷ []

abbrev kinds : Option (List ResearchObservation) → List (List ℕ × Movement)
kinds none = []
kinds (some os) = map (λ o. (o.observation_family, o.movement)) os

two_found :
    kinds (
      evaluate_rules digests
        (codes "600519.SH")
        (codes "general")
        (codes "fundamental_general:v1")
        points
        []
        0)
    ≡ (codes "operating_cash_flow_yoy.parent_net_profit_yoy.gap", up)
      ∷ (codes "gross_margin.same_period_delta", up)
      ∷ []
unfolding evaluate_rules rule_observations fmt fmt_all observe finding_of change_rules
    observation_on evidence_metrics_of evidence_metric sources growth_of crossing_of earlier_steps
    two_steps change_between delta_of gap_between gap_of valuation_of available_points period_index
    same_period_previous definition_by_code sort_by ◌-ℤ◌
two_found = refl
