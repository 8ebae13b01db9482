-- ===== src/PeerResearch/Statistics.antt =====
-- `percentile_rank`, `numeric_rank_desc` and `quantile` of peer_research/engine.py.
pub mod Ranks
pub mod Interpolation
pub mod Quantiles
pub mod Places
use mathlib.Core.Option
use zhiniu.Prelude.{
  ℕ, zero, suc, ◌+◌, ◌-◌, ◌*◌, ◌/◌, ◌%◌, Bool, not, ◌&&◌, Option, none, some, List, [], ◌∷◌, length,
  get_elem?, count_by, min, sort_by, ◌==◌, if◌then◌else◌,
}
use zhiniu.Prelude.Int.{ℤ, pos, ltb_ℤ, leb_ℤ, ◌+ℤ◌, ◌-ℤ◌, scale}
use zhiniu.PeerResearch.Models.{Ratio}

abbrev pub equal_values : ℤ → ℤ → Bool
equal_values a b = leb_ℤ a b && leb_ℤ b a

-- (count_less + 0.5 * count_equal) / len(values) * 100
unfoldable pub percentile_rank : List ℤ → ℤ → Ratio
percentile_rank values target = record {
  numerator =
      (2 * count_by (λ item. ltb_ℤ item target) values
        + count_by (λ item. equal_values item target) values)
      * 100;
  denominator = 2 * length values;
}

unfoldable pub numeric_rank_desc : List ℤ → ℤ → ℕ
numeric_rank_desc values target = 1 + count_by (λ item. ltb_ℤ target item) values

-- `ordered[lower] + (ordered[upper] - ordered[lower]) * fraction`, in quarters; none is an
-- `IndexError`
abbrev pub blend : Option ℤ → Option ℤ → ℕ → Option ℤ
blend none high fraction = none
blend (some low) none fraction = none
blend (some low) (some high) fraction = some (scale 4 low +ℤ scale fraction (high -ℤ low))

-- The position counts quarters of an index: `position = q * (len(ordered) - 1)`.
unfoldable pub interpolate : List ℤ → ℕ → Option ℤ
interpolate ordered position =
    let lower = position / 4 in
    let upper = min (lower + 1) (length ordered - 1) in
    blend (get_elem? ordered lower) (get_elem? ordered upper) (position % 4)

-- The part of `quantile` below `sorted`.
abbrev pub quantile_of_sorted : List ℤ → ℕ → Option ℤ
quantile_of_sorted ordered quarters =
    if length ordered == 1
    then Option.map (scale 4) (get_elem? ordered 0)
    else interpolate ordered (quarters * (length ordered - 1))

-- `quantile(values, Decimal(quarters) / 4)`
unfoldable pub quantile : List ℤ → ℕ → Option ℤ
quantile values quarters = quantile_of_sorted (sort_by leb_ℤ values) quarters
