-- ===== src/MarketData/Tests.antt =====
-- A batch of bars, and the theorems applied to it.
mod Days
use zhiniu.Prelude.{
  ℕ, ◌≡◌, ◌↔◌, refl, Bool, some, List, [], ◌∷◌, codes, All, length, count_by, IsSorted, sort_by,
}
use zhiniu.Prelude.Int.{ℤ, pos, negsuc}
use zhiniu.MarketData.Bars.{
  DailyBar, ohlc_not_positive, duplicate_trade_dates, high_below_ohlc, rejected, accepted,
  check_bar, check_bars, validate_daily_bar_batch,
}
use zhiniu.MarketData.Bars.Validity.{IsValidBar}
use zhiniu.MarketData.Bars.Batches.{IsDistinct, before, validate-accepted, validate-IsSorted}

abbrev bar : ℕ → ℤ → DailyBar
bar day high = record {
  canonical_symbol = codes "SH600519";
  trade_date = day;
  adjust_type = codes "none";
  opening = pos 20;
  high = high;
  low = pos 18;
  close = pos 21;
  pre_close = some (pos 19);
  volume = pos 100;
  amount = pos 2000;
  source = codes "akshare";
  collected_at = 0;
}

abbrev bars : List DailyBar
bars = bar 3 (pos 22) ∷ bar 1 (pos 21) ∷ bar 2 (pos 30) ∷ []

abbrev sorted : List DailyBar
sorted = bar 1 (pos 21) ∷ bar 2 (pos 30) ∷ bar 3 (pos 22) ∷ []

validated : validate_daily_bar_batch bars (codes "SH600519") ≡ accepted sorted
unfolding validate_daily_bar_batch check_bars check_bar sort_by
validated = refl

refusals :
    (validate_daily_bar_batch (bar 1 (pos 20) ∷ []) (codes "SH600519") ≡ rejected high_below_ohlc)
    × (validate_daily_bar_batch (bar 1 (negsuc 0) ∷ []) (codes "SH600519")
        ≡ rejected ohlc_not_positive)
    × (validate_daily_bar_batch (bar 1 (pos 22) ∷ bar 1 (pos 22) ∷ []) (codes "SH600519")
        ≡ rejected duplicate_trade_dates)
unfolding validate_daily_bar_batch check_bars check_bar sort_by
refusals = (refl, refl, refl)

validate-accepted_example :
    ((out : List DailyBar) × (validate_daily_bar_batch bars (codes "SH600519") ≡ accepted out))
    ↔ (IsDistinct bars × All (IsValidBar (codes "SH600519")) bars)
validate-accepted_example = validate-accepted bars (codes "SH600519")
