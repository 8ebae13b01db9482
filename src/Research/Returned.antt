-- ===== src/Research/Returned.antt =====
-- `evaluate_rules` returns, and what it returns is fit and in order.
use zhiniu.Prelude.{ℕ, Option, none, some, List, All}
use zhiniu.Research.Models.{FundamentalMetricPoint, FinancialReport, ResearchObservation}
use zhiniu.Research.Observations.{Digests}
use zhiniu.Research.Total.{IsFit, IsStored}

-- An observation that is fit for its dimension.
abbrev pub IsFitting : ResearchObservation → Type 0
IsFitting o = IsFit o.dimension o.rule_id o.attention_level o.movement o.calculation.change_value

module _ (d : Digests) (symbol template : List ℕ) (points : List FundamentalMetricPoint)
    (reports : List FinancialReport) (generated_at : ℕ) (stored : All IsStored points) where
  -- A rule's result: nothing, or an observation that is fit.
  IsSeen : Option ResearchObservation → Type 0
  IsSeen none = Unit
  IsSeen (some o) = IsFitting o
