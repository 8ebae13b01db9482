-- ===== src/PeerResearch/Tests.antt =====
-- Comparisons at concrete inputs, and the theorems applied to them.
use zhiniu.Prelude.{
  ℕ, ◌+◌, ◌*◌, ◌/◌, ◌%◌, min, ◌≤◌, ◌≡◌, ◌≢◌, refl, none, some, List, [], ◌∷◌, arith, codes, All,
  length, count_by, sort_by,
}
use zhiniu.Prelude.Int.{ℤ, pos, negsuc, ◌+ℤ◌, ◌-ℤ◌, scale}
use zhiniu.PeerResearch.Models.{available, fundamental, ComparableMetricInput, PeerBenchmarkResult}
use zhiniu.PeerResearch.Statistics.{percentile_rank, numeric_rank_desc, interpolate, quantile}
use zhiniu.PeerResearch.Statistics.Places.{IsAt, weighted, quantile_places}
use zhiniu.PeerResearch.Compare.{
  is_same_comparable_basis, is_invalid_pe, collect, available_result, compare_metric,
}
use zhiniu.PeerResearch.Compare.Outcome.{
  IsComparable, IsOrdered, compare_metric_total, compare_metric_lem,
}

abbrev values : List ℤ
values = pos 30 ∷ negsuc 9 ∷ pos 20 ∷ pos 0 ∷ []

-- -10, 0, 20, 30: the median is 10, the quartiles are -2.5 and 22.5.
median_of_values : quantile values 2 ≡ some (pos 40)
unfolding quantile sort_by interpolate ◌+ℤ◌ ◌-ℤ◌ scale
median_of_values = refl

p25_of_values : quantile values 1 ≡ some (negsuc 9)
unfolding quantile sort_by interpolate ◌+ℤ◌ ◌-ℤ◌ scale
p25_of_values = refl

quantile_places_example :
    (low : ℤ) × (high : ℤ) × (quantile values 1 ≡ some (weighted low high (1 * 3 % 4)))
    × IsAt values (1 * 3 / 4) low
    × IsAt values (min (1 * 3 / 4 + 1) 3) high
quantile_places_example = quantile_places values 1 (omega arith) (omega arith)

abbrev input : ℕ → ℤ → ComparableMetricInput
input id value = record {
  symbol = codes "600519";
  metric_code = codes "pe_ttm";
  value = value;
  unit = codes "multiple";
  period_end = some 739000;
  fiscal_period = none;
  basis = codes "ttm";
  metric_version = codes "v1";
  known_at = none;
  source_id = id;
  source_kind = fundamental;
}

abbrev peers : List ComparableMetricInput
peers = input 1 (pos 30) ∷ input 2 (negsuc 9) ∷ input 3 (pos 20) ∷ []

abbrev result : PeerBenchmarkResult
result = record {
  metric_code = codes "pe_ttm";
  metric_kind = fundamental;
  status = available;
  company_input = some (input 0 (pos 25));
  peer_inputs = input 1 (pos 30) ∷ input 3 (pos 20) ∷ [];
  median = some (pos 100);
  p25 = some (pos 90);
  p75 = some (pos 110);
  numeric_percentile = some (record { numerator = 300; denominator = 6 });
  numeric_rank_desc = some 2;
  sample_size = 2;
  excluded_invalid_value_count = 1;
  reason = none;
}

compared :
    compare_metric (codes "pe_ttm") fundamental (some (input 0 (pos 25))) peers 2 ≡ some result
unfolding compare_metric collect is_same_comparable_basis is_invalid_pe available_result quantile
    sort_by interpolate percentile_rank numeric_rank_desc ◌+ℤ◌ ◌-ℤ◌ scale
compared = refl

compare_metric_total_example :
    compare_metric (codes "pe_ttm") fundamental (some (input 0 (pos 25))) peers 2 ≢ none
compare_metric_total_example =
    compare_metric_total (codes "pe_ttm") fundamental (input 0 (pos 25)) peers 2 (omega arith)

compare_metric_lem_example :
    (2 ≤ result.sample_size)
    × (result.sample_size ≡ length result.peer_inputs)
    × (result.sample_size + result.excluded_invalid_value_count
        ≡ count_by (is_same_comparable_basis (input 0 (pos 25))) peers)
    × All (IsComparable (codes "pe_ttm") (input 0 (pos 25))) result.peer_inputs
    × IsOrdered result
compare_metric_lem_example =
    compare_metric_lem (codes "pe_ttm") fundamental (input 0 (pos 25)) peers 2 result compared refl
