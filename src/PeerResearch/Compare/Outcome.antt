-- ===== src/PeerResearch/Compare/Outcome.antt =====
-- Every peer of the company's basis is counted once, and the statistics of an available comparison
-- are in order.
use zhiniu.Prelude.{
  ℕ, suc, ◌+◌, ◌≤◌, ◌<◌, true, false, ◌≡◌, ◌≢◌, refl, ap, inl, inr, none, some, List, [], ◌∷◌, map,
  arith, length, ltb, tests, ltb→ge, ◌↔◌, All, count_by, Bool-cases, Option-cases,
}
use zhiniu.Prelude.Int.{ℤ, ◌≤ℤ◌}
use zhiniu.PeerResearch.Models.{
  available, PeerMetricKind, ComparableMetricInput, PeerBenchmarkResult,
}
use zhiniu.PeerResearch.Statistics.{quantile}
use zhiniu.PeerResearch.Statistics.Quantiles.{quantile_mono, quantile_total}
use zhiniu.PeerResearch.Compare.{
  is_same_comparable_basis, is_invalid_pe, collect, available_result, compare_metric,
}

module _ (metric_code : List ℕ) (company : ComparableMetricInput) where
  -- A peer that is used has the company's basis and a valid value.
  abbrev pub IsComparable : ComparableMetricInput → Type 0
  IsComparable item =
      (is_same_comparable_basis company item ≡ true) × (is_invalid_pe metric_code item ≡ false)

  collect-IsComparable :
      (peers : List ComparableMetricInput) → All IsComparable (collect metric_code company peers).0
  unfolding collect
  collect-IsComparable [] = tt
  collect-IsComparable (item ∷ rest) = elim (Bool-cases (is_same_comparable_basis company item)) [
    | inr other ↦ rw other (collect-IsComparable rest)
    | inl same ↦ elim (Bool-cases (is_invalid_pe metric_code item)) [
      | inl invalid ↦ rw (same, invalid) (collect-IsComparable rest)
      | inr valid ↦ rw (same, valid) ((same, valid), collect-IsComparable rest)
    ]
  ]

  -- The peers of the company's basis are the comparable ones and those left out as invalid.
  collect_count :
      (peers : List ComparableMetricInput)
      → let (comparable, excluded) = collect metric_code company peers in
        length comparable + excluded ≡ count_by (is_same_comparable_basis company) peers
  unfolding collect
  collect_count [] = refl
  collect_count (item ∷ rest) = ground (arith, collect_count rest)

length-values :
    (items : List ComparableMetricInput) → length (map (λ i. i.value) items) ≡ length items
length-values [] = refl
length-values (i ∷ rest) = ap suc (length-values rest)

-- The quartiles of a result, in order.
abbrev pub IsOrdered : PeerBenchmarkResult → Type 0
IsOrdered r =
    (a : ℤ) × (b : ℤ) × (c : ℤ) × (r.p25 ≡ some a)
    × (r.median ≡ some b)
    × (r.p75 ≡ some c)
    × (a ≤ℤ b)
    × (b ≤ℤ c)

module _ (metric_code : List ℕ) (kind : PeerMetricKind) (company : ComparableMetricInput) where
  available_result-status :
      (comparable : List ComparableMetricInput) (excluded : ℕ) (r : PeerBenchmarkResult)
      → available_result metric_code kind company comparable excluded ≡ some r
      → r.status ≡ available
  unfolding available_result
  available_result-status comparable excluded r h =
      let values = map (λ i. i.value) comparable in ground (arith, h)

  available_result-IsOrdered :
      (comparable : List ComparableMetricInput) (excluded : ℕ) (r : PeerBenchmarkResult)
      → available_result metric_code kind company comparable excluded ≡ some r
      → IsOrdered r
        × (r.peer_inputs ≡ comparable)
        × (r.sample_size ≡ length comparable)
        × (r.excluded_invalid_value_count ≡ excluded)
  unfolding available_result
  available_result-IsOrdered comparable excluded r h =
      let values = map (λ i. i.value) comparable in
      elim (Option-cases (quantile values 2)) [
        | inl fault ↦ ground arith
        | inr (b, hb) ↦ elim (Option-cases (quantile values 1)) [
          | inl fault ↦ ground arith
          | inr (a, ha) ↦ elim (Option-cases (quantile values 3)) [
            | inl fault ↦ ground arith
            | inr (c, hc) ↦
                let low = quantile_mono values 1 2 a b (omega arith) (omega arith) ha hb in
                let high = quantile_mono values 2 3 b c (omega arith) (omega arith) hb hc in
                (
                  (a, b, c, ground arith, ground arith, ground arith, low, high),
                  ground arith,
                  ground arith,
                  ground arith,
                )
          ]
        ]
      ]

  -- A comparison with a positive minimum never faults.
  pub compare_metric_total :
      (peers : List ComparableMetricInput) (minimum : ℕ)
      → 0 < minimum
      → compare_metric metric_code kind (some company) peers minimum ≢ none
  unfolding compare_metric available_result
  compare_metric_total peers minimum pos =
      let (comparable, excluded) = collect metric_code company peers in
      elim (Bool-cases (is_invalid_pe metric_code company)) [
        | inl invalid ↦ rw invalid (λ e. cc e)
        | inr valid ↦ elim (Bool-cases (ltb (length comparable) minimum)) [
          | inl few ↦ rw (valid, few) (λ e. cc e)
          | inr enough ↦
              let values = map (λ i. i.value) comparable in
              let n : 0 < length values =
                omega
                  (tests, length-values comparable, ltb→ge (length comparable) minimum enough) in
              let (b, hb) = quantile_total values 2 n (omega arith) in
              let (a, ha) = quantile_total values 1 n (omega arith) in
              let (c, hc) = quantile_total values 3 n (omega arith) in
              rw (valid, enough, hb, ha, hc) (λ e. cc e)
        ]
      ]

  -- A comparison is available exactly if the company's own value is valid and at least the minimum
  -- of peers is comparable.
  pub compare_metric-available :
      (peers : List ComparableMetricInput) (minimum : ℕ) (r : PeerBenchmarkResult)
      → compare_metric metric_code kind (some company) peers minimum ≡ some r
      → (r.status ≡ available) ↔ (
          (is_invalid_pe metric_code company ≡ false)
          × (minimum ≤ length (collect metric_code company peers).0))
  unfolding compare_metric
  compare_metric-available peers minimum r h =
      let (comparable, excluded) = collect metric_code company peers in
      elim (Bool-cases (is_invalid_pe metric_code company)) [
        | inl invalid ↦ ground arith
        | inr valid ↦ elim (Bool-cases (ltb (length comparable) minimum)) [
          | inl few ↦ ground arith
          | inr enough ↦
              let e = rw (valid, enough) at h in
              (
                λ s. (valid, ltb→ge (length comparable) minimum enough),
                λ s. available_result-status comparable excluded r e,
              )
        ]
      ]

  -- An available comparison uses every peer of the company's basis but those it counts as invalid,
  -- at least the minimum of them, and its quartiles are in order.
  pub compare_metric_lem :
      (peers : List ComparableMetricInput) (minimum : ℕ) (r : PeerBenchmarkResult)
      → compare_metric metric_code kind (some company) peers minimum ≡ some r
      → r.status ≡ available
      → (minimum ≤ r.sample_size)
        × (r.sample_size ≡ length r.peer_inputs)
        × (r.sample_size + r.excluded_invalid_value_count
            ≡ count_by (is_same_comparable_basis company) peers)
        × All (IsComparable metric_code company) r.peer_inputs
        × IsOrdered r
  unfolding compare_metric
  compare_metric_lem peers minimum r h s =
      let (comparable, excluded) = collect metric_code company peers in
      let total = collect_count metric_code company peers in
      let all = collect-IsComparable metric_code company peers in
      elim (Bool-cases (is_invalid_pe metric_code company)) [
        | inl invalid ↦ ground arith
        | inr valid ↦ elim (Bool-cases (ltb (length comparable) minimum)) [
          | inl few ↦ ground arith
          | inr enough ↦
              let e = rw (valid, enough) at h in
              let (ordered, same, size, left) =
                available_result-IsOrdered comparable excluded r e in
              (
                omega (tests, size, ltb→ge (length comparable) minimum enough),
                rw same size,
                omega (arith, total, size, left),
                rw same all,
                ordered,
              )
        ]
      ]
