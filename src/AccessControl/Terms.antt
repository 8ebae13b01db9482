-- ===== src/AccessControl/Terms.antt =====
-- `add_calendar_term` of access_control/service.py.
pub mod Order
use zhiniu.Prelude.{ℕ, ◌+◌, ◌/◌, ◌%◌, Option, none, min, leb, if◌then◌else◌}
use zhiniu.DateTime.{DateTime, days_in_month, checked, max_year}
use zhiniu.AccessControl.Store.{TermKind, month, year, other_term}

-- None where `monthrange` or `replace` raises for a year past 9999. The caller passes "month" or
-- "year"; any other text is handled as the code does, by the month branch.
unfoldable pub add_calendar_term : DateTime → TermKind → Option DateTime
add_calendar_term value year =
    let next_year = value.year + 1 in
    let day = min value.day (days_in_month next_year value.month) in
    checked (record value { year = next_year; day = day })
add_calendar_term value _ =
    let month_index = value.month in
    let next_year = value.year + month_index / 12 in
    let next_month = month_index % 12 + 1 in
    let day = min value.day (days_in_month next_year next_month) in
    checked (record value { year = next_year; month = next_month; day = day })
