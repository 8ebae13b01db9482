-- ===== src/PeerResearch/Models.antt =====
-- peer_research/models.py. A `Decimal` value is the integer of units of its fixed scale; a date is
-- its ordinal, a moment its number of microseconds, a UUID the number that its text stands for.
use zhiniu.Prelude.{ℕ, Option, List}
use zhiniu.Prelude.Int.{ℤ}

pub data PeerComparisonStatus : Type 0 where
  available not_applicable unsupported_template missing_industry missing_metric :
      PeerComparisonStatus
  incomparable_basis insufficient_peers invalid_inputs not_built : PeerComparisonStatus

pub data PeerMetricKind : Type 0 where
  fundamental valuation : PeerMetricKind

pub record PeerUniverse : Type 0 where
  pub symbol : List ℕ
  pub industry_code : Option (List ℕ)
  pub peer_symbols : List (List ℕ)
  pub status : PeerComparisonStatus

pub record ComparableMetricInput : Type 0 where
  pub symbol : List ℕ
  pub metric_code : List ℕ
  pub value : ℤ
  pub unit : List ℕ
  pub period_end : Option ℕ
  pub fiscal_period : Option (List ℕ)
  pub basis : List ℕ
  pub metric_version : List ℕ
  pub known_at : Option ℕ
  pub source_id : ℕ
  pub source_kind : PeerMetricKind

-- A quotient of two numbers, before the rounding of `Decimal` to 28 digits.
pub record Ratio : Type 0 where
  pub numerator : ℕ
  pub denominator : ℕ

-- `median`, `p25` and `p75` count quarters of a unit, in which they are exact.
pub record PeerBenchmarkResult : Type 0 where
  pub metric_code : List ℕ
  pub metric_kind : PeerMetricKind
  pub status : PeerComparisonStatus
  pub company_input : Option ComparableMetricInput
  pub peer_inputs : List ComparableMetricInput
  pub median : Option ℤ
  pub p25 : Option ℤ
  pub p75 : Option ℤ
  pub numeric_percentile : Option Ratio
  pub numeric_rank_desc : Option ℕ
  pub sample_size : ℕ
  pub excluded_invalid_value_count : ℕ
  pub reason : Option (List ℕ)
