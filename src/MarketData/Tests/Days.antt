-- ===== src/MarketData/Tests/Days.antt =====
-- Rows of a calendar, and the theorems applied to them.
use zhiniu.Prelude.{
  ◌≡◌, refl, true, false, none, some, List, [], ◌∷◌, codes, All, IsSorted, sort_by, if◌then◌else◌,
  text_eq,
}
use zhiniu.MarketData.Calendar.{
  absent, day, flag, text, sse, szse, RawTradingSession, TradingSession, duplicate_dates,
  invalid_range, Library, err, ok, parse_date, parse_bool, new_session, normalize, sessions,
}
use zhiniu.MarketData.Calendar.Sessions.{IsNormalized, IsSingle, precedes, sessions_lem}

-- One date is read, the third of January 2024.
abbrev lib : Library
lib = record {
  fromisoformat = λ value. if text_eq value (codes "2024-01-03") then some 738888 else none;
  casefold = λ value. value;
  lineage_hash = λ exchange date is_open source. date;
}

abbrev rows : List RawTradingSession
rows =
    record {
      exchange = szse;
      provider = codes "akshare_sina";
      trade_date = text (codes "20240103");
      date = absent;
      is_open = absent;
    }
    ∷ record {
      exchange = sse;
      provider = [];
      trade_date = text [];
      date = day 738889;
      is_open = text (codes " closed ");
    }
    ∷ record {
      exchange = sse;
      provider = [];
      trade_date = day 738000;
      date = absent;
      is_open = absent;
    }
    ∷ []

abbrev out : List TradingSession
out =
    record {
      exchange = sse;
      trade_date = 738889;
      is_open = false;
      session_open_at = none;
      session_close_at = none;
      calendar_version = codes "sina-trading-calendar-v1";
      source = codes "akshare_sina";
      known_at = 9;
      ingested_at = 9;
      lineage_hash = 738889;
    }
    ∷ record {
      exchange = szse;
      trade_date = 738888;
      is_open = true;
      session_open_at = some 63839928600000000;
      session_close_at = some 63839948400000000;
      calendar_version = codes "sina-trading-calendar-v1";
      source = codes "akshare_sina";
      known_at = 9;
      ingested_at = 9;
      lineage_hash = 738888;
    }
    ∷ []

normalized : sessions lib rows 738500 738900 9 ≡ ok out
unfolding sessions normalize parse_date parse_bool new_session sort_by
normalized = refl

refusals :
    (sessions lib rows 738900 738500 9 ≡ err invalid_range)
    × (sessions lib
          (record {
            exchange = szse;
            provider = [];
            trade_date = day 738888;
            date = absent;
            is_open = flag true;
          }
            ∷ rows)
          738500
          738900
          9
        ≡ err duplicate_dates)
unfolding sessions normalize parse_date parse_bool new_session sort_by
refusals = (refl, refl)

sessions_lem_example : All (IsNormalized 738500 738900) out × IsSingle out × IsSorted precedes out
sessions_lem_example = sessions_lem lib rows 738500 738900 9 out normalized
