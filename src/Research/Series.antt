-- ===== src/Research/Series.antt =====
-- The series that the change rules of research/rules.py read: `_available`, `_period_index` and
-- `_same_period_previous`.
use zhiniu.Prelude.{
  ℕ, ◌+◌, ◌*◌, Bool, true, false, ◌&&◌, Option, none, some, List, [], ◌∷◌, ◌++◌, codes, text_eq,
  find, filter_by, sort_by, leb, is_some, ◌==◌, if◌then◌else◌,
}
use zhiniu.Research.Models.{
  MetricStatus, available, missing_input, insufficient_history, not_applicable, invalid_input,
  MetricBasis, point_in_time, ytd, standalone, fy, FundamentalMetricPoint,
}

abbrev pub is_available : MetricStatus → Bool
is_available available = true
is_available missing_input = false
is_available insufficient_history = false
is_available not_applicable = false
is_available invalid_input = false

-- `item.code == code and item.status == AVAILABLE and item.value is not None`
abbrev pub is_point_of : List ℕ → FundamentalMetricPoint → Bool
is_point_of code p = text_eq p.code code && is_available p.status && is_some p.value

-- `_available`
unfoldable pub available_points : List FundamentalMetricPoint → List ℕ → List FundamentalMetricPoint
available_points points code =
    sort_by (λ a b. leb a.period_end.ordinal b.period_end.ordinal)
      (filter_by (is_point_of code) points)

abbrev pub quarter_of : List ℕ → Option ℕ
quarter_of period =
    if text_eq period (codes "Q1")
    then some 1
    else (if text_eq period (codes "H1")
        then some 2
        else (if text_eq period (codes "Q3")
            then some 3
            else (if text_eq period (codes "FY") then some 4 else none)))

-- `_period_index`
unfoldable pub period_index : FundamentalMetricPoint → Option ℕ
period_index p = elim (quarter_of p.fiscal_period) [
  | none ↦ none
  | some quarter ↦ some (p.period_end.year * 4 + quarter)
]

-- `a is not None and b is not None and b - a == 1`
abbrev pub is_next : Option ℕ → Option ℕ → Bool
is_next none b = false
is_next (some a) none = false
is_next (some a) (some b) = b == a + 1

abbrev pub reversed {ℓ} : {A : Type ℓ} → List A → List A
reversed [] = []
reversed (x ∷ xs) = reversed xs ++ (x ∷ [])

abbrev pub same_basis : MetricBasis → MetricBasis → Bool
same_basis point_in_time point_in_time = true
same_basis ytd ytd = true
same_basis standalone standalone = true
same_basis fy fy = true
same_basis _ _ = false

-- `_same_period_previous`, of the points from the latest to the earliest
unfoldable pub same_period_previous :
    List FundamentalMetricPoint → FundamentalMetricPoint → Option FundamentalMetricPoint
same_period_previous latest_first current =
    find
      (λ p.
        (p.period_end.year + 1 == current.period_end.year)
        && text_eq p.fiscal_period current.fiscal_period
        && same_basis p.basis current.basis)
      latest_first
