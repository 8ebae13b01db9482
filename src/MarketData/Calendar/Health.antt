-- ===== src/MarketData/Calendar/Health.antt =====
-- The health of the calendar over time.
use zhiniu.Prelude.{ℕ, ◌+◌, ◌≤◌, ◌<◌, ◌≡◌, ◌↔◌, some, arith}
use zhiniu.MarketData.Calendar.{
  healthy, stale, unknown, calendar_health_max_age, calendar_health_status,
}

-- A calendar that has been checked is unknown before the check, healthy for the maximum age from
-- it, and stale ever after.
pub calendar_health_status_lem :
    (checked_at now : ℕ)
    → let status = calendar_health_status (some checked_at) now in
      ((status ≡ unknown) ↔ (now < checked_at))
      × ((status ≡ healthy) ↔ ((checked_at ≤ now) × (now ≤ checked_at + calendar_health_max_age)))
      × ((status ≡ stale) ↔ (checked_at + calendar_health_max_age < now))
unfolding calendar_health_status
calendar_health_status_lem checked_at now = ground arith
