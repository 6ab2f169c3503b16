-- ===== src/Budget/Calendar.antt =====
-- Python's `date`: months are counted from January of the year 0, days from its first day. Python
-- stops at the year 9999, which no budget reaches.
use finvo.Prelude.{
  ℕ, zero, suc, ◌+◌, ◌-◌, ◌*◌, ◌/◌, ◌%◌, ◌≤◌, Bool, not, ◌&&◌, ◌||◌, ltb, ◌==◌, if◌then◌else◌,
}

pub record Date : Type 0 where
  pub day : ℕ
  pub month : ℕ
  pub year : ℕ

-- `date(y, m, d)`
abbrev pub ymd : ℕ → ℕ → ℕ → Date
ymd y m d = record { day = d; month = m; year = y }

unfoldable pub is_leap : ℕ → Bool
is_leap y = y % 4 == 0 && (not (y % 100 == 0) || y % 400 == 0)

-- the months of 30 days
abbrev is_short : ℕ → Bool
is_short m = m == 11 || m == 9 || m == 6 || m == 4

-- `monthrange(year, month)[1]`
unfoldable pub month_days : ℕ → ℕ → ℕ
unfolding is_leap
month_days y m =
    if m == 2 then 28 + (if is_leap y then 1 else 0) else (if is_short m then 30 else 31)

-- the length of the month with the index `i`
unfoldable pub length_of : ℕ → ℕ
unfolding month_days
length_of i = month_days (i / 12) (i % 12 + 1)

-- the first day of the month with the index `i`
unfoldable pub first_of : ℕ → ℕ
unfolding length_of
first_of zero = 0
first_of (suc i) = first_of i + length_of i

abbrev pub index : ℕ → ℕ → ℕ
index y m = 12 * y + (m - 1)

-- the day number of a date
unfoldable pub ordinal : Date → ℕ
unfolding first_of
ordinal t = first_of (index t.year t.month) + (t.day - 1)

-- The loop that finds the month of a day, `n` days into the month `i`.
unfoldable pub find_month : ℕ → ℕ → ℕ → Date
unfolding length_of
find_month zero i n = ymd (i / 12) (i % 12 + 1) (n + 1)
find_month (suc fuel) i n =
    let later = find_month fuel (suc i) (n - length_of i) in
    if ltb n (length_of i) then ymd (i / 12) (i % 12 + 1) (n + 1) else later

-- the date with a day number; each round takes off a day or more
unfoldable pub civil : ℕ → Date
unfolding find_month
civil n = find_month n 0 n

-- `weekday()`: Monday is 0. The first day of the year 0 is a Saturday.
abbrev pub weekday : ℕ → ℕ
weekday n = (n + 5) % 7

-- `isocalendar()[1]`: a week is that of its Thursday in the year of that Thursday.
unfoldable pub iso_week : ℕ → ℕ
unfolding civil ordinal
iso_week n =
    let thursday = n - weekday n + 3 in (thursday - ordinal (ymd (civil thursday).year 1 1)) / 7 + 1

pub record IsDate (t : Date) : Type 0 where
  pub in_month : (1 ≤ t.day) × (t.day ≤ month_days t.year t.month)
  pub in_year : (1 ≤ t.month) × (t.month ≤ 12)
