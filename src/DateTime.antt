-- ===== src/DateTime.antt =====
-- Python's aware UTC `datetime`, as far as the program uses it: the calendar fields, the order of
-- two moments, `calendar.monthrange`, `replace` and the addition of whole days.
pub mod Calendar
use zhiniu.Prelude.{
  ℕ, zero, suc, ◌+◌, ◌*◌, ◌/◌, ◌%◌, ◌≤◌, ◌<◌, Bool, ◌&&◌, ◌||◌, not, Option, none, some, ltb, leb,
  ◌==◌, if◌then◌else◌,
}

-- `micros` counts the microseconds since midnight.
pub record DateTime : Type 0 where
  pub year : ℕ
  pub month : ℕ
  pub day : ℕ
  pub micros : ℕ

abbrev pub max_year : ℕ
max_year = 9999

-- `calendar.isleap`
unfoldable pub is_leap : ℕ → Bool
is_leap year = (year % 4 == 0) && (not (year % 100 == 0) || (year % 400 == 0))

-- `calendar.monthrange(year, month)[1]`
unfoldable pub days_in_month : ℕ → ℕ → ℕ
unfolding is_leap
days_in_month year month =
    if month == 2
    then (if is_leap year then 29 else 28)
    else if (month == 4) || (month == 6) || (month == 9) || (month == 11)
    then 30
    else 31

-- What the constructor of `datetime` accepts.
pub record IsDateTime (d : DateTime) : Type 0 where
  pub year_pos : 1 ≤ d.year
  pub year_max : d.year ≤ max_year
  pub month_pos : 1 ≤ d.month
  pub month_max : d.month ≤ 12
  pub day_pos : 1 ≤ d.day
  pub day_max : d.day ≤ days_in_month d.year d.month
  pub micros_max : d.micros < 86400000000

-- A number whose order is the lexicographic order of the fields, for dates that are accepted.
abbrev pub stamp : DateTime → ℕ
stamp d = ((d.year * 13 + d.month) * 32 + d.day) * 86400000000 + d.micros

-- `a < b` and `a <= b`
abbrev pub before : DateTime → DateTime → Bool
before a b = ltb (stamp a) (stamp b)

abbrev pub not_after : DateTime → DateTime → Bool
not_after a b = leb (stamp a) (stamp b)

-- `max(a, b)`: the first argument unless the second is greater
abbrev pub later : DateTime → DateTime → DateTime
later a b = if before a b then b else a

-- The year of the result is bounded: `replace` and `+ timedelta` raise past `max_year`.
abbrev pub checked : DateTime → Option DateTime
checked d = if leb d.year max_year then some d else none

unfoldable pub next_day : DateTime → Option DateTime
next_day d =
    if ltb d.day (days_in_month d.year d.month)
    then some (record d { day = d.day + 1 })
    else if ltb d.month 12
    then some (record d { month = d.month + 1; day = 1 })
    else checked (record d { year = d.year + 1; month = 1; day = 1 })

-- `d + timedelta(days=n)`
unfoldable pub add_days : ℕ → DateTime → Option DateTime
unfolding next_day
add_days zero d = some d
add_days (suc n) d = elim (next_day d) [ none ↦ none | some e ↦ add_days n e ]

abbrev pub micros_per_day : ℕ
micros_per_day = 86400000000

-- `d + timedelta(minutes=n)`
unfoldable pub add_minutes : ℕ → DateTime → Option DateTime
add_minutes n d =
    let total = d.micros + n * 60000000 in
    add_days (total / micros_per_day) (record d { micros = total % micros_per_day })
