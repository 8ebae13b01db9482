-- ===== src/PeerResearch/Compare.antt =====
-- `compare_metric`, `_is_same_comparable_basis` and `universe_status` of peer_research/engine.py.
pub mod Outcome
use zhiniu.Prelude.{
  ℕ, zero, suc, ◌+◌, Bool, true, false, ◌&&◌, Option, none, some, List, [], ◌∷◌, ◌++◌, map, codes,
  text_eq, length, ltb, ◌==◌, if◌then◌else◌,
}
use zhiniu.Prelude.Int.{ℤ, pos, leb_ℤ}
use zhiniu.Prelude.Maybe.{◌>>=◌}
use zhiniu.PeerResearch.Models.{
  PeerComparisonStatus, available, missing_metric, insufficient_peers, invalid_inputs,
  PeerMetricKind, PeerUniverse, ComparableMetricInput, PeerBenchmarkResult,
}
use zhiniu.PeerResearch.Statistics.{percentile_rank, numeric_rank_desc, quantile}

-- MINIMUM_VALID_SAMPLE_SIZE
abbrev pub minimum_valid_sample_size : ℕ
minimum_valid_sample_size = 8

-- `a == b` where both may be None
abbrev pub option_eq {ℓ} : {A : Type ℓ} → (A → A → Bool) → Option A → Option A → Bool
option_eq eq none none = true
option_eq eq none (some b) = false
option_eq eq (some a) none = false
option_eq eq (some a) (some b) = eq a b

-- `_is_same_comparable_basis`
unfoldable pub is_same_comparable_basis : ComparableMetricInput → ComparableMetricInput → Bool
is_same_comparable_basis company peer =
    text_eq peer.metric_code company.metric_code
    && text_eq peer.metric_version company.metric_version
    && text_eq peer.unit company.unit
    && text_eq peer.basis company.basis
    && option_eq (λ a b. a == b) peer.period_end company.period_end
    && option_eq text_eq peer.fiscal_period company.fiscal_period

-- `metric_code == "pe_ttm" and item.value <= 0`
unfoldable pub is_invalid_pe : List ℕ → ComparableMetricInput → Bool
is_invalid_pe metric_code item = text_eq metric_code (codes "pe_ttm") && leb_ℤ item.value (pos 0)

-- The loop over the peers: the comparable ones, and the number of invalid values left out.
unfoldable pub collect :
    List ℕ → ComparableMetricInput → List ComparableMetricInput → List ComparableMetricInput × ℕ
collect metric_code company [] = ([], 0)
collect metric_code company (item ∷ rest) =
    let (comparable, excluded_invalid) = collect metric_code company rest in
    if is_same_comparable_basis company item
    then (if is_invalid_pe metric_code item
        then (comparable, excluded_invalid + 1)
        else (item ∷ comparable, excluded_invalid))
    else (comparable, excluded_invalid)

-- A result with no statistics.
abbrev plain_result :
    List ℕ
    → PeerMetricKind
    → PeerComparisonStatus
    → Option ComparableMetricInput
    → List ComparableMetricInput
    → ℕ
    → ℕ
    → List ℕ
    → PeerBenchmarkResult
plain_result metric_code kind status company peers size excluded reason = record {
  metric_code = metric_code;
  metric_kind = kind;
  status = status;
  company_input = company;
  peer_inputs = peers;
  median = none;
  p25 = none;
  p75 = none;
  numeric_percentile = none;
  numeric_rank_desc = none;
  sample_size = size;
  excluded_invalid_value_count = excluded;
  reason = some reason;
}

-- The last return; none where `quantile` raises.
unfoldable pub available_result :
    List ℕ
    → PeerMetricKind
    → ComparableMetricInput
    → List ComparableMetricInput
    → ℕ
    → Option PeerBenchmarkResult
available_result metric_code kind company comparable excluded = do
  let values = map (λ item. item.value) comparable
  let all_values = values ++ company.value ∷ []
  median ← quantile values 2
  p25 ← quantile values 1
  p75 ← quantile values 3
  some (record {
    metric_code = metric_code;
    metric_kind = kind;
    status = available;
    company_input = some company;
    peer_inputs = comparable;
    median = some median;
    p25 = some p25;
    p75 = some p75;
    numeric_percentile = some (percentile_rank all_values company.value);
    numeric_rank_desc = some (numeric_rank_desc all_values company.value);
    sample_size = length comparable;
    excluded_invalid_value_count = excluded;
    reason = none;
  })

-- `compare_metric`; none is the `IndexError` that a minimum of zero lets through
unfoldable pub compare_metric :
    List ℕ
    → PeerMetricKind
    → Option ComparableMetricInput
    → List ComparableMetricInput
    → ℕ
    → Option PeerBenchmarkResult
compare_metric metric_code kind none peers minimum =
    some (plain_result metric_code kind missing_metric none [] 0 0 (codes "target_metric_missing"))
compare_metric metric_code kind (some company) peers minimum =
    let (comparable, excluded) = collect metric_code company peers in
    if is_invalid_pe metric_code company
    then some (
        plain_result metric_code kind invalid_inputs (some company) comparable 0 excluded
          (codes "target_pe_not_positive"))
    else if ltb (length comparable) minimum
    then some (
        plain_result metric_code kind insufficient_peers (some company) comparable
          (length comparable) excluded (codes "minimum_peer_sample_not_met"))
    else available_result metric_code kind company comparable excluded

abbrev is_available : PeerComparisonStatus → Bool
is_available available = true
is_available _ = false

-- `universe_status`
unfoldable pub universe_status : PeerUniverse → PeerComparisonStatus
universe_status universe =
    if is_available universe.status
    then (if ltb (length universe.peer_symbols) minimum_valid_sample_size
        then insufficient_peers
        else available)
    else universe.status
