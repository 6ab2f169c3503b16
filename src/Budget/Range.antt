-- ===== src/Budget/Range.antt =====
-- `_calculate_period_range`: the first and the last day of the period of a date.
use finvo.Prelude.{ℕ, ◌+◌, ◌-◌, ◌*◌, ◌%◌, leb, ◌==◌, if◌then◌else◌}
use finvo.Prelude.Text.{Text}
use finvo.Budget.Calendar.{Date, ymd, month_days, ordinal, weekday, iso_week}

-- `BudgetPeriodType`, and any other text in the column
pub data PeriodType : Type 0 where
  weekly biweekly monthly yearly : PeriodType
  other_period : Text → PeriodType

-- `min(a, b)`
abbrev pub min : ℕ → ℕ → ℕ
min a b = if leb a b then a else b

abbrev pub next_month : ℕ → ℕ → ℕ × ℕ
next_month year month = if month == 12 then (year + 1, 1) else (year, month + 1)

abbrev pub prev_month : ℕ → ℕ → ℕ × ℕ
prev_month year month = if month == 1 then (year - 1, 12) else (year, month - 1)

-- the date of the anchor in a month, whose length it does not pass
unfoldable pub anchored : ℕ → ℕ × ℕ → ℕ
unfolding ordinal
anchored anchor_day (year, month) =
    ordinal (ymd year month (min anchor_day (month_days year month)))

unfoldable pub monthly_range : ℕ → Date → ℕ × ℕ
unfolding anchored
monthly_range anchor_day t =
    let this : ℕ × ℕ = (t.year, t.month) in
    let actual_anchor = min anchor_day (month_days t.year t.month) in
    if leb actual_anchor t.day
    then (anchored anchor_day this, anchored anchor_day (next_month t.year t.month) - 1)
    else (anchored anchor_day (prev_month t.year t.month), anchored anchor_day this - 1)

-- `reference_date - timedelta(days=(reference_date.weekday() - (anchor_day - 1)) % 7)`; the
-- remainder in Python is never negative.
unfoldable pub week_start : ℕ → ℕ → ℕ
week_start anchor_day n = n - (weekday n + 7 * anchor_day - (anchor_day - 1)) % 7

unfoldable pub biweekly_start : ℕ → ℕ → ℕ
unfolding week_start iso_week
biweekly_start anchor_day n =
    let start = week_start anchor_day n in if iso_week start % 2 == 1 then start - 7 else start

unfoldable pub calculate_period_range : PeriodType → ℕ → Date → ℕ × ℕ
unfolding monthly_range week_start biweekly_start
calculate_period_range monthly anchor_day t = monthly_range anchor_day t
calculate_period_range weekly anchor_day t =
    let start = week_start anchor_day (ordinal t) in (start, start + 6)
calculate_period_range biweekly anchor_day t =
    let start = biweekly_start anchor_day (ordinal t) in (start, start + 13)
calculate_period_range yearly anchor_day t = (ordinal (ymd t.year 1 1), ordinal (ymd t.year 12 31))
calculate_period_range (other_period _) anchor_day t = (
  ordinal (ymd t.year t.month 1),
  ordinal (ymd (t.year + (if t.month == 12 then 1 else 0)) (t.month % 12 + 1) 1) - 1,
)
