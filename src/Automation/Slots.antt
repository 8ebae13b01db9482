-- ===== src/Automation/Slots.antt =====
-- `due_slot` and `is_reporting_window` of automation/service.py. The moments here are microseconds
-- since 1 January 1992 in UTC: from then on `ZoneInfo("Asia/Shanghai")` is eight hours ahead of UTC,
-- with no summer time, and no earlier moment is a value of the model.
use zhiniu.Prelude.{
  ℕ, ◌+◌, ◌-◌, ◌*◌, ◌/◌, ◌%◌, ◌≤◌, ◌<◌, ◌≡◌, Bool, ◌||◌, Option, none, some, ltb, ◌==◌,
  if◌then◌else◌, arith, Bool-cases, inl, inr, ltb→lt, ltb→ge,
}

abbrev pub day : ℕ
day = 86400000000

abbrev pub shanghai : ℕ
shanghai = 28800000000

-- The hour and the minute of `daily_time`, as microseconds since midnight.
abbrev pub time_of : ℕ → ℕ → ℕ
time_of hour minute = (hour * 60 + minute) * 60000000

-- `today`, on the clock of Shanghai
abbrev pub today_at : ℕ → ℕ → ℕ → ℕ
today_at now hour minute = (now + shanghai) / day * day + time_of hour minute

-- The slot that is due, and the next one. A slot before the first moment is cut off there.
unfoldable pub due_slot : ℕ → ℕ → ℕ → Option ℕ × ℕ
due_slot now hour minute =
    let today = today_at now hour minute in
    if ltb (now + shanghai) today
    then (none, today - shanghai)
    else (some (today - shanghai), today + day - shanghai)

-- `is_reporting_window`, on the month of the day
unfoldable pub is_reporting_window : ℕ → Bool
is_reporting_window month =
    (month == 3) || (month == 4) || (month == 7) || (month == 8) || (month == 10)

-- The time since midnight in Shanghai, and the day there.
abbrev pub clock_of : ℕ → ℕ
clock_of moment = (moment + shanghai) % day

abbrev pub day_of : ℕ → ℕ
day_of moment = (moment + shanghai) / day

-- The moment of the daily time on a day of Shanghai.
pub record IsSlotOn (d hour minute slot : ℕ) : Type 0 where
  pub on_day : day_of slot ≡ d
  pub on_time : clock_of slot ≡ time_of hour minute

-- What is due once the daily time of the day has come, and before it.
abbrev pub IsDue : ℕ → ℕ → ℕ → Option ℕ × ℕ → Type 0
IsDue now hour minute (none, next) =
    (clock_of now < time_of hour minute) × IsSlotOn (day_of now) hour minute next
IsDue now hour minute (some slot, next) =
    (time_of hour minute ≤ clock_of now)
    × IsSlotOn (day_of now) hour minute slot
    × IsSlotOn (day_of now + 1) hour minute next

-- From 2 January 1992 on, with an hour and a minute of a day: once the clock of Shanghai has reached
-- the daily time, and only then, a slot is due; it is the daily time of that day in Shanghai, and
-- the next slot is the daily time of the day after. Before that, the next slot is the daily time of
-- the same day.
pub due_slot_lem :
    (now hour minute : ℕ)
    → day ≤ now
    → hour < 24
    → minute < 60
    → IsDue now hour minute (due_slot now hour minute)
unfolding due_slot
due_slot_lem now hour minute late h m =
    elim (Bool-cases (ltb (now + shanghai) (today_at now hour minute))) [
      | inl not_yet ↦ rw not_yet (
        omega (arith, ltb→lt _ _ not_yet),
        record { on_day = omega arith; on_time = omega arith },
      )
      | inr reached ↦ rw reached (
        omega (arith, ltb→ge _ _ reached),
        record { on_day = omega arith; on_time = omega arith },
        record { on_day = omega arith; on_time = omega arith },
      )
    ]
