-- ===== src/Research/Total.antt =====
-- The rules on every list of points: `evaluate_rules` returns, and what it returns is fit.
use zhiniu.Prelude.{
  ℕ, ◌*◌, Bool, true, false, ◌||◌, ◌≡◌, refl, inl, inr, Option, none, some, List, [], ◌∷◌, codes,
  String, starts_with, text_eq, text_eq-eq, if◌then◌else◌, All, All-impl, All-append, All-sort_by,
  filter_by, Bool-cases, Option-cases, arith,
}
use zhiniu.Prelude.Int.{ℤ, pos}
use zhiniu.Research.Models.{AttentionLevel}
use zhiniu.Research.Models.{
  ObservationDimension, growth, profitability, quality, balance, valuation, Movement,
  FundamentalMetricPoint, MetricDefinition, definition_by_code,
}
use zhiniu.Research.Models.{named}
use zhiniu.Research.Series.{is_point_of, available_points, reversed}
use zhiniu.Research.Observations.{ChangeRuleDefinition, Finding}
use zhiniu.Research.Rules.{units_pp, name_of, latest_first}
use zhiniu.Research.Comparisons.{important_bound}
use zhiniu.Research.Evaluate.{
  momentum_rule, delta_rule, gap_rule, band_rule, change_rules, finding_of,
}
use zhiniu.Research.Directions.{
  Directed, growth_least, IsNotice, InColumn, IsUsable, IsMade, Fine, IsTrue, growth_of-Fine,
}
use zhiniu.Research.Differences.{Noted, delta_of-Fine, gap_of-Fine}
use zhiniu.Research.Percentiles.{Extreme, valuation_of-Fine}

All-reversed {ℓ κ} : {A : Type ℓ} (P : A → Type κ) (xs : List A) → All P xs → All P (reversed xs)
All-reversed P [] all = tt
All-reversed P (x ∷ xs) all =
    All-append P (reversed xs) (x ∷ []) (All-reversed P xs all.1) (all.0, tt)

-- A value of the table.
abbrev pub IsStored : FundamentalMetricPoint → Type 0
IsStored p = (v : ℤ) → p.value ≡ some v → InColumn v

All-filter_by {ℓ κ} :
    {A : Type ℓ} (P : A → Type κ) (p : A → Bool) (xs : List A)
    → All P xs
    → All (λ x. P x × (p x ≡ true)) (filter_by p xs)
All-filter_by P p [] all = tt
All-filter_by P p (x ∷ xs) all = elim (Bool-cases (p x)) [
  | inl holds ↦ rw holds ((all.0, holds), All-filter_by P p xs all.1)
  | inr fails ↦ rw fails (All-filter_by P p xs all.1)
]

is_point_of-IsUsable :
    (code : List ℕ) (d : MetricDefinition) (p : FundamentalMetricPoint)
    → definition_by_code code ≡ some d
    → IsStored p × (is_point_of code p ≡ true)
    → IsUsable p
is_point_of-IsUsable code d p defined (stored, h) = elim (Option-cases p.value) [
  | inl missing ↦ absurd (ground (arith, h, rw missing at h))
  | inr (v, there) ↦
      (v, there, ((d, rw (text_eq-eq p.code code (ground (arith, h))) defined), stored v there))
]

latest_first-IsUsable :
    (points : List FundamentalMetricPoint) (code : List ℕ) (d : MetricDefinition)
    → definition_by_code code ≡ some d
    → All IsStored points
    → All IsUsable (latest_first points code)
unfolding available_points
latest_first-IsUsable points code d defined stored =
    All-reversed IsUsable (available_points points code) (
      All-sort_by _ IsUsable (filter_by (is_point_of code) points) (
        All-impl _ IsUsable (filter_by (is_point_of code) points)
          (λ p h. is_point_of-IsUsable code d p defined h)
          (All-filter_by IsStored (is_point_of code) points stored)))

-- The percentage points from which a gap is important.
abbrev pub importance_of : List ℕ → ℕ
importance_of rule_id = if text_eq rule_id (codes "quality.ocf_profit_growth_gap") then 35 else 999

-- A finding is as large as the rules of its dimension ask, and goes where it says.
abbrev pub IsFit : ObservationDimension → List ℕ → AttentionLevel → Movement → ℤ → Type 0
IsFit growth rule_id a m c = Directed (growth_least (3 * units_pp) units_pp) m c × IsNotice a
IsFit profitability rule_id a m c = Directed (λ _. 2 * units_pp) m c × IsNotice a
IsFit quality rule_id a m c =
    Directed (λ _. 20 * units_pp) m c × Noted (importance_of rule_id * units_pp) a c
IsFit balance rule_id a m c = Directed (λ _. 3 * units_pp) m c × IsNotice a
IsFit valuation rule_id a m c = Extreme (80 * units_pp) (20 * units_pp) m c × IsNotice a

abbrev pub IsSound : ChangeRuleDefinition → Type 0
IsSound rule =
    (points : List FundamentalMetricPoint)
    → All IsStored points
    → Fine
        (λ f.
          IsMade f
          × IsFit rule.rule_dimension rule.rule_id f.attention f.direction f.trace.change_value)
        (finding_of rule points)

Fine-impl :
    (P Q : Finding → Type 0) (r : Option (Option Finding))
    → ((f : Finding) → P f → Q f)
    → Fine P r
    → Fine Q r
Fine-impl P Q none step fine = fine
Fine-impl P Q (some none) step fine = tt
Fine-impl P Q (some (some f)) step fine = step f fine

module _ (rule_id metric name : String)
    (defined : definition_by_code (codes metric) ≡ some (named metric name)) where
  momentum_rule-IsSound :
      starts_with (codes "growth.") (codes rule_id) ≡ true → IsSound (momentum_rule rule_id metric)
  unfolding finding_of
  momentum_rule-IsSound called points stored =
      simp (finding_of, called)
        (growth_of-Fine (momentum_rule rule_id metric) (codes metric) (codes name) units_pp
          (3 * units_pp) units_pp refl refl refl (rw (name_of, defined) refl)
          (latest_first points (codes metric))
          (latest_first-IsUsable points (codes metric) (named metric name) defined stored))

  band_rule-IsSound :
      starts_with (codes "growth.") (codes rule_id) ≡ false
      → starts_with (codes "profitability.") (codes rule_id) ≡ false
      → starts_with (codes "balance.") (codes rule_id) ≡ false
      → starts_with (codes "quality.") (codes rule_id) ≡ false
      → IsSound (band_rule rule_id metric)
  unfolding finding_of
  band_rule-IsSound g p b q points stored =
      simp (finding_of, g, p, b, q)
        (valuation_of-Fine (band_rule rule_id metric) (codes metric) (80 * units_pp) (20 * units_pp)
          refl refl (latest_first points (codes metric))
          (latest_first-IsUsable points (codes metric) (named metric name) defined stored))

  delta_rule-IsSound :
      (dimension : ObservationDimension) (bound : ℕ)
      → ((a : AttentionLevel) (m : Movement) (c : ℤ)
          → Directed (λ _. bound * units_pp) m c × IsNotice a
          → IsFit dimension (codes rule_id) a m c)
      → starts_with (codes "growth.") (codes rule_id) ≡ false
      → (starts_with (codes "profitability.") (codes rule_id)
          || starts_with (codes "balance.") (codes rule_id))
        ≡ true
      → IsSound (delta_rule rule_id dimension metric bound)
  unfolding finding_of
  delta_rule-IsSound dimension bound fit g called points stored =
      simp (finding_of, g, called)
        (Fine-impl (IsTrue (λ _. bound * units_pp) (λ a c. IsNotice a))
          (λ f.
            IsMade f × IsFit dimension (codes rule_id) f.attention f.direction f.trace.change_value)
          _ (λ f h. (h.0, fit f.attention f.direction f.trace.change_value h.1))
          (delta_of-Fine (delta_rule rule_id dimension metric bound) (bound * units_pp) refl
            (codes metric) (codes name) (rw (name_of, defined) refl)
            (latest_first points (codes metric))
            (latest_first-IsUsable points (codes metric) (named metric name) defined stored)))

  gap_rule-IsSound :
      (other called_so : String) (more : List (List ℕ × ℕ))
      → important_bound (gap_rule rule_id metric other more)
        ≡ pos (importance_of (codes rule_id) * units_pp)
      → definition_by_code (codes other) ≡ some (named other called_so)
      → starts_with (codes "growth.") (codes rule_id) ≡ false
      → starts_with (codes "profitability.") (codes rule_id) ≡ false
      → starts_with (codes "balance.") (codes rule_id) ≡ false
      → starts_with (codes "quality.") (codes rule_id) ≡ true
      → IsSound (gap_rule rule_id metric other more)
  unfolding finding_of
  gap_rule-IsSound other called_so more important known g p b called points stored =
      simp (finding_of, g, p, b, called)
        (gap_of-Fine (gap_rule rule_id metric other more) (20 * units_pp)
          (importance_of (codes rule_id) * units_pp) refl important
          (latest_first points (codes metric)) (latest_first points (codes other))
          (latest_first-IsUsable points (codes metric) (named metric name) defined stored)
          (latest_first-IsUsable points (codes other) (named other called_so) known stored))

pub change_rules-IsSound : All IsSound change_rules
unfolding change_rules definition_by_code
change_rules-IsSound = (
  momentum_rule-IsSound "growth.revenue_single_quarter_momentum" "revenue_single_quarter_yoy"
      "单季度收入同比" refl refl,
  (
    momentum_rule-IsSound "growth.parent_profit_single_quarter_momentum"
        "parent_net_profit_single_quarter_yoy" "单季度归母净利润同比" refl refl,
    (
      delta_rule-IsSound "profitability.gross_margin_yoy_delta" "gross_margin" "毛利率" refl
          profitability 2 (λ a m c h. h) refl refl,
      (
        delta_rule-IsSound "profitability.parent_net_margin_yoy_delta" "parent_net_margin" "归母净利率"
            refl profitability 2 (λ a m c h. h) refl refl,
        (
          gap_rule-IsSound "quality.ocf_profit_growth_gap" "operating_cash_flow_yoy" "经营现金流同比" refl
              "parent_net_profit_yoy" "归母净利润同比" ((codes "important_pp", 35) ∷ []) refl refl refl
              refl refl refl,
          (
            gap_rule-IsSound "quality.ar_revenue_growth_gap" "accounts_receivable_yoy" "应收账款同比" refl
                "revenue_yoy" "营业收入同比" [] refl refl refl refl refl refl,
            (
              gap_rule-IsSound "quality.inventory_revenue_growth_gap" "inventory_yoy" "存货同比" refl
                  "revenue_yoy" "营业收入同比" [] refl refl refl refl refl refl,
              (
                delta_rule-IsSound "balance.debt_asset_yoy_delta" "debt_to_assets" "资产负债率" refl
                    balance 3 (λ a m c h. h) refl refl,
                (
                  band_rule-IsSound "valuation.pe_percentile_band" "pe_ttm_percentile_3y" "市盈率三年分位"
                      refl refl refl refl refl,
                  (
                    band_rule-IsSound "valuation.pb_percentile_band" "pb_percentile_3y" "市净率三年分位"
                        refl refl refl refl refl,
                    tt,
                  ),
                ),
              ),
            ),
          ),
        ),
      ),
    ),
  ),
)
