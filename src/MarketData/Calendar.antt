-- ===== src/MarketData/Calendar.antt =====
-- market_data/trading_calendar.py. A date is its ordinal number of days, a moment its number of
-- microseconds in UTC since the start of day 0.
pub mod Health
pub mod Sessions
use zhiniu.Prelude.{
  ℕ, ◌+◌, ◌*◌, ◌-◌, Bool, true, false, not, ◌&&◌, ◌||◌, Option, none, some, List, [], ◌∷◌, ◌++◌,
  map, any_by, length, leb, ltb, ◌==◌, if◌then◌else◌, text_eq, codes, strip, dashes, take, drop,
  all_by, sort_by,
}

pub data CalendarHealthStatus : Type 0 where
  healthy stale unknown : CalendarHealthStatus

-- CALENDAR_HEALTH_MAX_AGE
abbrev pub calendar_health_max_age : ℕ
calendar_health_max_age = 36 * 3600000000

-- The age is negative where the check lies after the moment.
unfoldable pub calendar_health_status : Option ℕ → ℕ → CalendarHealthStatus
calendar_health_status none now = unknown
calendar_health_status (some checked_at) now =
    if ltb now checked_at
    then unknown
    else if leb now (checked_at + calendar_health_max_age)
    then healthy
    else stale

-- A value of a payload: its absence, a date or the date of a datetime, a Boolean, or the text that
-- `str` gives of anything else.
pub data RawValue : Type 0 where
  absent : RawValue
  day : ℕ → RawValue
  flag : Bool → RawValue
  text : List ℕ → RawValue

-- `SSE` and `SZSE`, in the order of their texts
pub data Exchange : Type 0 where
  sse szse : Exchange

abbrev pub exchange_index : Exchange → ℕ
exchange_index sse = 0
exchange_index szse = 1

pub record RawTradingSession : Type 0 where
  pub exchange : Exchange
  pub provider : List ℕ
  pub trade_date : RawValue
  pub date : RawValue
  pub is_open : RawValue

pub record TradingSession : Type 0 where
  pub exchange : Exchange
  pub trade_date : ℕ
  pub is_open : Bool
  pub session_open_at : Option ℕ
  pub session_close_at : Option ℕ
  pub calendar_version : List ℕ
  pub source : List ℕ
  pub known_at : ℕ
  pub ingested_at : ℕ
  pub lineage_hash : ℕ

pub data DataNormalizationError : Type 0 where
  invalid_range duplicate_dates missing_trade_date : DataNormalizationError
  invalid_trade_date invalid_is_open : DataNormalizationError

pub data Result {ℓ} (A : Type ℓ) : Type ℓ where
  err : DataNormalizationError → Result A
  ok : A → Result A

-- `date.fromisoformat`, `str.casefold`, and the hash of the lineage, whose constant version is
-- left out.
pub record Library : Type 0 where
  pub fromisoformat : List ℕ → Option ℕ
  pub casefold : List ℕ → List ℕ
  pub lineage_hash : Exchange → ℕ → Bool → List ℕ → ℕ

abbrev calendar_source : List ℕ
calendar_source = codes "akshare_sina"

abbrev calendar_version : List ℕ
calendar_version = codes "sina-trading-calendar-v1"

-- `a or b` on values
abbrev or_raw : RawValue → RawValue → RawValue
or_raw absent b = b
or_raw (flag false) b = b
or_raw (text []) b = b
or_raw a b = a

abbrev is_digit : ℕ → Bool
is_digit c = leb 48 c && leb c 57

abbrev dashed : List ℕ → List ℕ
dashed value =
    if (length value == 8) && all_by is_digit value
    then take 4 value ++ 45 ∷ take 2 (drop 4 value) ++ 45 ∷ drop 6 value
    else value

module _ (lib : Library) where
  abbrev parse_text : List ℕ → Result ℕ
  parse_text value = elim (lib.fromisoformat (take 10 (dashed (dashes (strip value))))) [
    | none ↦ err invalid_trade_date
    | some d ↦ ok d
  ]

  -- `_parse_date`
  unfoldable pub parse_date : RawValue → Result ℕ
  parse_date absent = err missing_trade_date
  parse_date (day d) = ok d
  parse_date (flag true) = parse_text (codes "True")
  parse_date (flag false) = parse_text (codes "False")
  parse_date (text value) = parse_text value

  abbrev is_one_of : List ℕ → List (List ℕ) → Bool
  is_one_of value options = any_by (text_eq value) options

  abbrev parse_flag : List ℕ → Result Bool
  parse_flag value =
      if is_one_of value (codes "1" ∷ codes "true" ∷ codes "open" ∷ codes "yes" ∷ [])
      then ok true
      else if is_one_of value (codes "0" ∷ codes "false" ∷ codes "closed" ∷ codes "no" ∷ [])
      then ok false
      else err invalid_is_open

  -- `_parse_bool` with the default True; a date stands for its text, which is no option
  unfoldable pub parse_bool : RawValue → Result Bool
  parse_bool absent = ok true
  parse_bool (flag b) = ok b
  parse_bool (day d) = err invalid_is_open
  parse_bool (text value) = parse_flag (lib.casefold (strip value))

-- `_session_time`: a time of day in UTC+8, given in minutes from 08:00
abbrev session_time : ℕ → ℕ → ℕ
session_time trade_date minutes = (trade_date * 1440 + minutes) * 60000000

abbrev source_of : List ℕ → List ℕ
source_of [] = calendar_source
source_of (c ∷ cs) = c ∷ cs

abbrev pub has_identity : Exchange → ℕ → TradingSession → Bool
has_identity exchange trade_date s =
    (exchange_index s.exchange == exchange_index exchange) && (s.trade_date == trade_date)

abbrev was_seen : Exchange → ℕ → List (Exchange × ℕ) → Bool
was_seen exchange trade_date seen =
    any_by (λ i. (exchange_index exchange == exchange_index i.0) && (trade_date == i.1)) seen

unfoldable pub new_session : Library → RawTradingSession → ℕ → Bool → ℕ → TradingSession
new_session lib row trade_date is_open ingested =
    let source = source_of row.provider in
    record {
      exchange = row.exchange;
      trade_date = trade_date;
      is_open = is_open;
      session_open_at = if is_open then some (session_time trade_date 90) else none;
      session_close_at = if is_open then some (session_time trade_date 420) else none;
      calendar_version = calendar_version;
      source = source;
      known_at = ingested;
      ingested_at = ingested;
      lineage_hash = lib.lineage_hash row.exchange trade_date is_open source;
    }

abbrev push : TradingSession → Result (List TradingSession) → Result (List TradingSession)
push s (err e) = err e
push s (ok rest) = ok (s ∷ rest)

module _ (lib : Library) (first last ingested : ℕ) where
  -- The loop over the rows, with the identities seen so far.
  unfoldable pub normalize :
      List (Exchange × ℕ) → List RawTradingSession → Result (List TradingSession)
  normalize seen [] = ok []
  normalize seen (row ∷ rest) = elim (parse_date lib (or_raw row.trade_date row.date)) [
    | err e ↦ err e
    | ok trade_date ↦
        if ltb trade_date first || ltb last trade_date
        then normalize seen rest
        else if was_seen row.exchange trade_date seen
        then err duplicate_dates
        else elim (parse_bool lib row.is_open) [
          | err e ↦ err e
          | ok is_open ↦
              push (new_session lib row trade_date is_open ingested)
                (normalize ((row.exchange, trade_date) ∷ seen) rest)
        ]
  ]

-- `(item.exchange, item.trade_date)` in order
abbrev pub by_identity : TradingSession → TradingSession → Bool
by_identity a b =
    ltb (exchange_index a.exchange) (exchange_index b.exchange)
    || ((exchange_index a.exchange == exchange_index b.exchange) && leb a.trade_date b.trade_date)

abbrev sorted_result : Result (List TradingSession) → Result (List TradingSession)
sorted_result (err e) = err e
sorted_result (ok l) = ok (sort_by by_identity l)

-- `AKShareTradingCalendarNormalizer.sessions`
unfoldable pub sessions :
    Library → List RawTradingSession → ℕ → ℕ → ℕ → Result (List TradingSession)
sessions lib rows first last ingested =
    if ltb last first
    then err invalid_range
    else sorted_result (normalize lib first last ingested [] rows)
