-- ===== src/Research/Comparisons.antt =====
-- `_same_period_delta_rule`, `_gap_rule` and `_valuation_rule` of research/rules.py: what each finds
-- in the series, read from the latest point. The outer `none` is an exception, the inner one no
-- finding.
use zhiniu.Prelude.{
  ℕ, ◌*◌, Bool, false, ◌||◌, Option, none, some, List, [], ◌∷◌, ◌++◌, codes, starts_with, find,
  ◌==◌, if◌then◌else◌,
}
use zhiniu.Prelude.Int.{ℤ, pos, ◌-ℤ◌, leb_ℤ, ltb_ℤ}
use zhiniu.Prelude.Maybe.{◌>>=◌}
use zhiniu.Research.Models.{
  notice, important, Movement, up, down, crossed_up, crossed_down, neutral, FundamentalMetricPoint,
}
use zhiniu.Research.Series.{same_period_previous}
use zhiniu.Research.Observations.{ChangeRuleDefinition, RolePoint, Finding}
use zhiniu.Research.Rules.{parameter, name_of, with_role, leb_neg, units_pp}

-- `abs(x) >= y`
abbrev pub at_least : ℤ → ℤ → Bool
at_least x y = leb_ℤ y x || leb_neg x y

-- The difference to the same period of the year before, once both values are there.
unfoldable pub change_between :
    ChangeRuleDefinition
    → List ℕ
    → FundamentalMetricPoint
    → FundamentalMetricPoint
    → ℤ
    → ℤ
    → ℤ
    → Option (Option Finding)
change_between rule code current previous c p threshold =
    let delta = c -ℤ p in
    if at_least delta threshold
    then name_of code >>= (λ name.
      let rises = ltb_ℤ (pos 0) delta in
      some (
        some (record {
          family = code ++ codes ".same_period_delta";
          kind = codes "material_change";
          attention = notice;
          direction = if rises then up else down;
          headline = name ++ codes "较上年同期" ++ (if rises then codes "上升" else codes "下降");
          points =
              with_role (codes "current") current
              ∷ with_role (codes "same_period_last_year") previous
              ∷ [];
          quoted = p ∷ c ∷ delta ∷ [];
          trace = record {
            method = codes "percentage_point_delta";
            change_value = delta;
            change_unit = codes "percentage_point";
          };
        })))
    else some none

-- `_same_period_delta_rule`, of the series from the latest point
unfoldable pub delta_of :
    ChangeRuleDefinition → List ℕ → List FundamentalMetricPoint → Option (Option Finding)
delta_of rule code [] = some none
delta_of rule code (current ∷ earlier) = elim (same_period_previous earlier current) [
  | none ↦ some none
  | some previous ↦ elim current.value [
    | none ↦ some none
    | some c ↦ elim previous.value [
      | none ↦ some none
      | some p ↦
          parameter rule (codes "threshold_pp")
          >>= (λ threshold. change_between rule code current previous c p threshold)
    ]
  ]
]

-- `parameters.get("important_pp", "999")`
abbrev pub important_bound : ChangeRuleDefinition → ℤ
important_bound rule = elim (parameter rule (codes "important_pp")) [
  | none ↦ pos (999 * units_pp)
  | some bound ↦ bound
]

-- The gap of two growth rates, once both values are there.
unfoldable pub gap_between :
    ChangeRuleDefinition
    → FundamentalMetricPoint
    → FundamentalMetricPoint
    → ℤ
    → ℤ
    → ℤ
    → Option (Option Finding)
gap_between rule left right l r threshold =
    let gap = l -ℤ r in
    if at_least gap threshold
    then name_of left.code >>= (λ left_name. name_of right.code >>= (λ right_name.
      let higher = ltb_ℤ (pos 0) gap in
      some (
        some (record {
          family = left.code ++ codes "." ++ right.code ++ codes ".gap";
          kind = codes "growth_mismatch";
          attention = if at_least gap (important_bound rule) then important else notice;
          direction = if higher then up else down;
          headline =
              left_name ++ codes "明显" ++ (if higher then codes "高于" else codes "低于") ++ right_name;
          points =
              with_role (codes "left_metric") left ∷ with_role (codes "right_metric") right ∷ [];
          quoted = gap ∷ l ∷ r ∷ [];
          trace = record {
            method = codes "growth_rate_gap";
            change_value = gap;
            change_unit = codes "percentage_point";
          };
        }))))
    else some none

-- `_gap_rule`, of the two series from their latest points
unfoldable pub gap_of :
    ChangeRuleDefinition
    → List FundamentalMetricPoint
    → List FundamentalMetricPoint
    → Option (Option Finding)
gap_of rule [] rights = some none
gap_of rule (left ∷ _) rights =
    elim (find (λ r. r.period_end.ordinal == left.period_end.ordinal) rights) [
      | none ↦ some none
      | some right ↦ elim left.value [
        | none ↦ some none
        | some l ↦ elim right.value [
          | none ↦ some none
          | some r ↦
              parameter rule (codes "threshold_pp")
              >>= (λ threshold. gap_between rule left right l r threshold)
        ]
      ]
    ]

-- `previous is not None and previous.value is not None and` a test of it
abbrev pub previously : (ℤ → Bool) → List FundamentalMetricPoint → Bool
previously test [] = false
previously test (previous ∷ _) = elim previous.value [ none ↦ false | some p ↦ test p ]

abbrev pub band_points : FundamentalMetricPoint → List FundamentalMetricPoint → List RolePoint
band_points current [] = with_role (codes "current") current ∷ []
band_points current (previous ∷ _) =
    with_role (codes "current") current ∷ with_role (codes "previous_observation") previous ∷ []

abbrev banded :
    List ℕ
    → List ℕ
    → Movement
    → List ℕ
    → FundamentalMetricPoint
    → List FundamentalMetricPoint
    → ℤ
    → Finding
banded code kind movement words current earlier value = record {
  family = code ++ codes ".band";
  kind = kind;
  attention = notice;
  direction = movement;
  headline = (if starts_with (codes "pe_") code then codes "PE-TTM" else codes "PB") ++ words;
  points = band_points current earlier;
  quoted = value ∷ [];
  trace = record {
    method = codes "positive_sample_percentile";
    change_value = value;
    change_unit = codes "percentile";
  };
}

-- `_valuation_rule`, of the series from the latest point
unfoldable pub valuation_of :
    ChangeRuleDefinition → List ℕ → List FundamentalMetricPoint → Option (Option Finding)
valuation_of rule code [] = some none
valuation_of rule code (current ∷ earlier) = elim current.value [
  | none ↦ some none
  | some c ↦ parameter rule (codes "high") >>= (λ high. parameter rule (codes "low") >>= (λ low.
      if leb_ℤ high c
      then (if previously (λ p. ltb_ℤ p high) earlier
          then some (
              some (
                banded code (codes "threshold_crossed_up") crossed_up (codes "进入近三年较高分位") current
                  earlier c))
          else some (
              some (
                banded code (codes "percentile_high") neutral (codes "处于近三年较高分位") current earlier
                  c)))
      else (if leb_ℤ c low
          then (if previously (λ p. ltb_ℤ low p) earlier
              then some (
                  some (
                    banded code (codes "threshold_crossed_down") crossed_down (codes "进入近三年较低分位")
                      current earlier c))
              else some (
                  some (
                    banded code (codes "percentile_low") neutral (codes "处于近三年较低分位") current earlier
                      c)))
          else some none)))
]
