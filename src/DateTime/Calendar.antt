-- ===== src/DateTime/Calendar.antt =====
-- The laws of months and days that the components rely on.
use zhiniu.Prelude.{ℕ, zero, suc, ◌≤◌, ◌<◌, ◌≡◌, some, inl, inr, arith, Option-cases}
use zhiniu.DateTime.{DateTime, IsDateTime, days_in_month, stamp, next_day, add_days}

pub days_in_month-ge : (y m : ℕ) → 28 ≤ days_in_month y m
unfolding days_in_month
days_in_month-ge y m = ground arith

pub days_in_month-le : (y m : ℕ) → days_in_month y m ≤ 31
unfolding days_in_month
days_in_month-le y m = ground arith

pub next_day-later : (d e : DateTime) → IsDateTime d → next_day d ≡ some e → stamp d < stamp e
unfolding next_day
next_day-later d e v h = ground (arith, days_in_month-le d.year d.month)

pub next_day-IsDateTime : (d e : DateTime) → IsDateTime d → next_day d ≡ some e → IsDateTime e
unfolding next_day
next_day-IsDateTime d e v h = ground (arith, days_in_month-ge e.year e.month)

pub add_days-IsDateTime :
    (n : ℕ) (d e : DateTime) → IsDateTime d → add_days n d ≡ some e → IsDateTime e
unfolding add_days
add_days-IsDateTime zero d e v h = ground arith
add_days-IsDateTime (suc n) d e v h = elim (Option-cases (next_day d)) [
  | inl stuck ↦ ground arith
  | inr (f, p) ↦ add_days-IsDateTime n f e (next_day-IsDateTime d f v p) (ground arith)
]

add_days-le : (n : ℕ) (d e : DateTime) → IsDateTime d → add_days n d ≡ some e → stamp d ≤ stamp e
unfolding add_days
add_days-le zero d e v h = ground arith
add_days-le (suc n) d e v h = elim (Option-cases (next_day d)) [
  | inl stuck ↦ ground arith
  | inr (f, p) ↦ omega (
    arith,
    next_day-later d f v p,
    add_days-le n f e (next_day-IsDateTime d f v p) (ground arith),
  )
]

pub add_days-later :
    (n : ℕ) (d e : DateTime) → 0 < n → IsDateTime d → add_days n d ≡ some e → stamp d < stamp e
unfolding add_days
add_days-later zero d e pos v h = elim pos [ ]
add_days-later (suc n) d e pos v h = elim (Option-cases (next_day d)) [
  | inl stuck ↦ ground arith
  | inr (f, p) ↦ omega (
    arith,
    next_day-later d f v p,
    add_days-le n f e (next_day-IsDateTime d f v p) (ground arith),
  )
]
