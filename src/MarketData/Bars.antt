-- ===== src/MarketData/Bars.antt =====
-- `validate_daily_bar_batch` of market_data/quality.py, on `DailyBar` of domain/models.py. Prices
-- and amounts are integers in a common unit, a date is the number of its day.
pub mod Validity
pub mod Batches
use zhiniu.Prelude.{
  ℕ, Bool, true, false, not, ◌||◌, Option, none, some, List, [], ◌∷◌, map, any_by, length, leb,
  ◌==◌, if◌then◌else◌, text_eq, sort_by,
}
use zhiniu.Prelude.Int.{ℤ, pos, ltb_ℤ, leb_ℤ}

pub record DailyBar : Type 0 where
  pub canonical_symbol : List ℕ
  pub trade_date : ℕ
  pub adjust_type : List ℕ
  pub opening : ℤ
  pub high : ℤ
  pub low : ℤ
  pub close : ℤ
  pub pre_close : Option ℤ
  pub volume : ℤ
  pub amount : ℤ
  pub source : List ℕ
  pub collected_at : ℕ

-- The messages of `DataQualityError`
pub data DataQualityError : Type 0 where
  duplicate_trade_dates mismatched_symbol ohlc_not_positive : DataQualityError
  high_below_ohlc low_above_ohlc pre_close_not_positive negative_volume_or_amount : DataQualityError

pub data Batch : Type 0 where
  rejected : DataQualityError → Batch
  accepted : List DailyBar → Batch

abbrev pub min_ℤ : ℤ → ℤ → ℤ
min_ℤ a b = if leb_ℤ a b then a else b

abbrev pub max_ℤ : ℤ → ℤ → ℤ
max_ℤ a b = if leb_ℤ a b then b else a

-- `set(dates)`
abbrev pub distinct : List ℕ → List ℕ
distinct [] = []
distinct (d ∷ rest) =
    let others = distinct rest in if any_by (λ x. d == x) others then others else d ∷ others

abbrev pub bad_pre_close : Option ℤ → Bool
bad_pre_close none = false
bad_pre_close (some p) = leb_ℤ p (pos 0)

-- The checks of one bar, in their order.
unfoldable pub check_bar : List ℕ → DailyBar → Option DataQualityError
check_bar expected_symbol bar =
    if not (text_eq bar.canonical_symbol expected_symbol)
    then some mismatched_symbol
    else if leb_ℤ (min_ℤ (min_ℤ (min_ℤ bar.opening bar.high) bar.low) bar.close) (pos 0)
    then some ohlc_not_positive
    else if ltb_ℤ bar.high (max_ℤ (max_ℤ bar.opening bar.low) bar.close)
    then some high_below_ohlc
    else if ltb_ℤ (min_ℤ (min_ℤ bar.opening bar.high) bar.close) bar.low
    then some low_above_ohlc
    else if bad_pre_close bar.pre_close
    then some pre_close_not_positive
    else if ltb_ℤ bar.volume (pos 0) || ltb_ℤ bar.amount (pos 0)
    then some negative_volume_or_amount
    else none

-- The loop over the bars: the first error.
unfoldable pub check_bars : List ℕ → List DailyBar → Option DataQualityError
check_bars expected_symbol [] = none
check_bars expected_symbol (bar ∷ rest) = elim (check_bar expected_symbol bar) [
  | some e ↦ some e
  | none ↦ check_bars expected_symbol rest
]

abbrev pub by_trade_date : DailyBar → DailyBar → Bool
by_trade_date a b = leb a.trade_date b.trade_date

unfoldable pub validate_daily_bar_batch : List DailyBar → List ℕ → Batch
validate_daily_bar_batch bars expected_symbol =
    let dates = map (λ bar. bar.trade_date) bars in
    if not (length dates == length (distinct dates))
    then rejected duplicate_trade_dates
    else elim (check_bars expected_symbol bars) [
      | some e ↦ rejected e
      | none ↦ accepted (sort_by by_trade_date bars)
    ]
