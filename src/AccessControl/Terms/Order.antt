-- ===== src/AccessControl/Terms/Order.antt =====
-- A term ends at a date that exists, strictly later, on the same day of the month where it can.
use zhiniu.Prelude.{ℕ, ◌+◌, ◌/◌, ◌%◌, ◌<◌, ◌≡◌, ◌≢◌, none, some, arith, min, ◌*◌}
use zhiniu.DateTime.{DateTime, IsDateTime, days_in_month, max_year, stamp}
use zhiniu.DateTime.Calendar.{days_in_month-ge, days_in_month-le}
use zhiniu.AccessControl.Store.{TermKind, year}
use zhiniu.AccessControl.Terms.{add_calendar_term}

-- From a date that exists a term leads to a date that exists.
pub add_calendar_term-IsDateTime :
    (d e : DateTime) (term : TermKind)
    → IsDateTime d
    → add_calendar_term d term ≡ some e
    → IsDateTime e
unfolding add_calendar_term
add_calendar_term-IsDateTime d e year v h = ground (arith, days_in_month-ge (d.year + 1) d.month)
add_calendar_term-IsDateTime d e _ v h =
    ground (arith, days_in_month-ge (d.year + d.month / 12) (d.month % 12 + 1))

-- A term always adds time.
pub add_calendar_term-later :
    (d e : DateTime) (term : TermKind)
    → IsDateTime d
    → add_calendar_term d term ≡ some e
    → stamp d < stamp e
unfolding add_calendar_term
add_calendar_term-later d e year v h =
    ground (arith, days_in_month-le d.year d.month, days_in_month-le (d.year + 1) d.month)
add_calendar_term-later d e _ v h = ground (arith, days_in_month-le d.year d.month)

abbrev pub months_of : TermKind → ℕ
months_of year = 12
months_of _ = 1

-- A term moves on by its number of months, to the same day or to the last day of a shorter month,
-- at the same time of the day.
pub add_calendar_term_months :
    (d e : DateTime) (term : TermKind)
    → IsDateTime d
    → add_calendar_term d term ≡ some e
    → (e.year * 12 + e.month ≡ d.year * 12 + d.month + months_of term)
      × (e.day ≡ min d.day (days_in_month e.year e.month))
      × (e.micros ≡ d.micros)
unfolding add_calendar_term
add_calendar_term_months d e year v h = ground arith
add_calendar_term_months d e _ v h = ground arith

-- Before the last year that the calendar has, every term has an end.
pub add_calendar_term_total :
    (d : DateTime) (term : TermKind)
    → IsDateTime d
    → d.year < max_year
    → add_calendar_term d term ≢ none
unfolding add_calendar_term
add_calendar_term_total d year v h = ground arith
add_calendar_term_total d _ v h = ground arith
