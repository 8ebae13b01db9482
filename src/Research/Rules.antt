-- ===== src/Research/Rules.antt =====
-- `_growth_rule`, `_same_period_delta_rule`, `_gap_rule` and `_valuation_rule` of research/rules.py:
-- what each finds in the series. The outer `none` is an exception, the inner one no finding.
use zhiniu.Prelude.{
  ℕ, ◌*◌, Bool, ◌&&◌, Option, none, some, List, [], ◌∷◌, ◌++◌, codes, text_eq, find, if◌then◌else◌,
}
use zhiniu.Prelude.Int.{ℤ, pos, ◌-ℤ◌, leb_ℤ}
use zhiniu.Prelude.Maybe.{◌>>=◌}
use zhiniu.Research.Models.{
  notice, Movement, up, down, crossed_up, crossed_down, FundamentalMetricPoint, definition_by_code,
}
use zhiniu.Research.Series.{available_points, period_index, is_next, reversed}
use zhiniu.Research.Observations.{ChangeRuleDefinition, RolePoint, Finding}

-- The units of a percentage point: values have 8 decimals.
abbrev pub units_pp : ℕ
units_pp = 100000000

-- `Decimal(rule.parameters[name])`
abbrev pub parameter : ChangeRuleDefinition → List ℕ → Option ℤ
parameter rule name = elim (find (λ p. text_eq p.0 name) rule.parameters) [
  | none ↦ none
  | some p ↦ some (pos (p.1 * units_pp))
]

abbrev pub first_metric : ChangeRuleDefinition → Option (List ℕ)
first_metric rule = elim rule.required_metrics [ [] ↦ none | code ∷ _ ↦ some code ]

abbrev pub second_metric : ChangeRuleDefinition → Option (List ℕ)
second_metric rule = elim rule.required_metrics [
  | [] ↦ none
  | _ ∷ rest ↦ elim rest [ [] ↦ none | code ∷ _ ↦ some code ]
]

abbrev pub name_of : List ℕ → Option (List ℕ)
name_of code = elim (definition_by_code code) [ none ↦ none | some d ↦ some d.definition_name ]

abbrev pub with_role : List ℕ → FundamentalMetricPoint → RolePoint
with_role role p = record { point_role = role; point = p }

-- The series from its latest point to the earliest.
abbrev pub latest_first : List FundamentalMetricPoint → List ℕ → List FundamentalMetricPoint
latest_first points code = reversed (available_points points code)

-- `x <= -y`, for a bound y
abbrev pub leb_neg : ℤ → ℤ → Bool
leb_neg x y = leb_ℤ x (pos 0 -ℤ y)

abbrev momentum :
    List ℕ → List ℕ → List ℕ → Movement → List ℕ → List RolePoint → List ℤ → List ℕ → ℤ → Finding
momentum code name kind movement word points quoted method change = record {
  family = code ++ codes ".momentum";
  kind = kind;
  attention = notice;
  direction = movement;
  headline = name ++ word;
  points = points;
  quoted = quoted;
  trace = record { method = method; change_value = change; change_unit = codes "percentage_point" };
}

-- The third point of the series: two steps the same way, each of them and their sum large enough.
unfoldable pub two_steps :
    ChangeRuleDefinition
    → List ℕ
    → List ℕ
    → FundamentalMetricPoint
    → FundamentalMetricPoint
    → FundamentalMetricPoint
    → ℤ
    → ℤ
    → ℤ
    → Option (Option Finding)
two_steps rule code name current previous earliest c p e =
    parameter rule (codes "min_step_pp") >>= (λ min_step.
      parameter rule (codes "min_total_pp") >>= (λ min_total.
        let points =
          with_role (codes "current") current
          ∷ with_role (codes "previous") previous
          ∷ with_role (codes "earliest") earliest
          ∷ [] in
        if leb_ℤ min_step (p -ℤ e) && leb_ℤ min_step (c -ℤ p) && leb_ℤ min_total (c -ℤ e)
        then some (
            some (
              momentum code name (codes "consecutive_improvement") up (codes "连续两个季度改善") points
                (e ∷ p ∷ c ∷ (c -ℤ e) ∷ []) (codes "consecutive_quarter_delta") (c -ℤ e)))
        else (if leb_neg (p -ℤ e) min_step
              && leb_neg (c -ℤ p) min_step
              && leb_neg (c -ℤ e) min_total
            then some (
                some (
                  momentum code name (codes "consecutive_deterioration") down (codes "连续两个季度下降")
                    points (e ∷ p ∷ c ∷ (c -ℤ e) ∷ []) (codes "consecutive_quarter_delta")
                    (c -ℤ e)))
            else some none)))

-- `assert point.value is not None`, where the third point is of the quarter before
unfoldable pub earlier_steps :
    ChangeRuleDefinition
    → List ℕ
    → List ℕ
    → FundamentalMetricPoint
    → FundamentalMetricPoint
    → List FundamentalMetricPoint
    → ℤ
    → ℤ
    → Option (Option Finding)
earlier_steps rule code name current previous [] c p = some none
earlier_steps rule code name current previous (earliest ∷ _) c p =
    if is_next (period_index earliest) (period_index previous)
    then earliest.value >>= (λ e. two_steps rule code name current previous earliest c p e)
    else some none

-- A crossing of the band around zero, or else the steps.
unfoldable pub crossing_of :
    ChangeRuleDefinition
    → List ℕ
    → List ℕ
    → ℤ
    → FundamentalMetricPoint
    → FundamentalMetricPoint
    → List FundamentalMetricPoint
    → ℤ
    → ℤ
    → Option (Option Finding)
crossing_of rule code name zero_band current previous earlier c p =
    let points = with_role (codes "current") current ∷ with_role (codes "previous") previous ∷ [] in
    if leb_neg p zero_band && leb_ℤ zero_band c
    then some (
        some (
          momentum code name (codes "turned_positive") crossed_up (codes "由负转正") points (p ∷ c ∷ [])
            (codes "zero_crossing") (c -ℤ p)))
    else (if leb_ℤ zero_band p && leb_neg c zero_band
        then some (
            some (
              momentum code name (codes "turned_negative") crossed_down (codes "由正转负") points
                (p ∷ c ∷ []) (codes "zero_crossing") (c -ℤ p)))
        else earlier_steps rule code name current previous earlier c p)

-- `_growth_rule`, of the series from the latest point
unfoldable pub growth_of :
    ChangeRuleDefinition → List ℕ → List FundamentalMetricPoint → Option (Option Finding)
growth_of rule code [] = some none
growth_of rule code (current ∷ []) = some none
growth_of rule code (current ∷ previous ∷ earlier) =
    if is_next (period_index previous) (period_index current)
    then current.value >>= (λ c. previous.value >>= (λ p. name_of code >>= (λ name.
      parameter rule (codes "zero_band_pp")
      >>= (λ zero_band. crossing_of rule code name zero_band current previous earlier c p))))
    else some none
