-- ===== src/Budget/Laws/Periods.antt =====
-- What `_calculate_period_range` gives: periods that have their date, and leave out no day.
use finvo.Prelude.Text.{Text}
use finvo.Prelude.{
  ℕ, suc, ◌+◌, ◌*◌, ◌/◌, ◌%◌, ◌≤◌, ◌<◌, ◌≡◌, refl, true, arith, leb, ◌==◌, if◌then◌else◌,
  Bool-cases, inl, inr,
}
use finvo.Budget.Calendar.{Date, ymd, length_of, first_of, index, ordinal, civil, iso_week, IsDate}
use finvo.Budget.Range.{
  PeriodType, weekly, biweekly, monthly, yearly, other_period, week_start, biweekly_start,
  calculate_period_range,
}
use finvo.Budget.Laws.Months.{
  length_of-index, first_of-suc, first_of_mono, ordinal_in, civil-ordinal,
}
use finvo.Budget.Laws.Cuts.{regular, cut, IsPeriod, cut_grows, cut_unique, monthly-IsPeriod}

-- From the year 1 on, there is a full year of earlier days.
late : (t : Date) → IsDate t → 1 ≤ t.year → 366 ≤ ordinal t
unfolding first_of
late t v y =
    let year_one : first_of 12 ≡ 366 = refl in
    omega (arith, year_one, ordinal_in t v, first_of_mono 12 (index t.year t.month) (omega arith))

week_start_lem :
    (a n : ℕ)
    → 1 ≤ a
    → 7 ≤ n
    → (week_start a n ≤ n) × (n < week_start a n + 7) × (week_start a n % 7 ≡ (a + 1) % 7)
unfolding week_start
week_start_lem a n lo large = omega arith

weekly-IsPeriod :
    (a n : ℕ) → 1 ≤ a → 7 ≤ n → IsPeriod weekly a n (week_start a n, week_start a n + 6)
unfolding cut
weekly-IsPeriod a n lo large =
    let laws = week_start_lem a n lo large in
    let e : week_start a n ≡ 7 * (week_start a n / 7) + (a + 1) % 7 = omega (arith, laws) in
    record {
      i = week_start a n / 7;
      starts = e;
      ends = omega (arith, e);
      after = omega (arith, e, laws);
      before = omega (arith, e, laws);
    }

-- the days of a year
year_days : (y : ℕ) → first_of (12 * suc y) ≡ ordinal (ymd y 12 31) + 1
unfolding ordinal
year_days y =
    let last : 12 * suc y ≡ suc (12 * y + 11) = omega arith in
    let december = december_days y in rw last (omega (arith, december, first_of-suc (12 * y + 11)))
  where
    december_days : (y : ℕ) → length_of (12 * y + 11) ≡ 31
    december_days y = length_of-index y 12 (omega arith) (omega arith)

new_year : (y : ℕ) → ordinal (ymd y 1 1) ≡ first_of (12 * y)
unfolding ordinal
new_year y = let first : index y 1 ≡ 12 * y = omega arith in rw first (omega arith)

yearly-IsPeriod :
    (a : ℕ) (t : Date)
    → IsDate t
    → IsPeriod yearly a (ordinal t) (ordinal (ymd t.year 1 1), ordinal (ymd t.year 12 31))
unfolding cut
yearly-IsPeriod a t v =
    let y = t.year in
    let inside = ordinal_in t v in
    let before = first_of_mono (12 * y) (index y t.month) (omega arith) in
    let after = first_of_mono (suc (index y t.month)) (12 * suc y) (omega (arith, v.in_year)) in
    record {
      i = y;
      starts = new_year y;
      ends = omega (arith, year_days y);
      after = omega (arith, inside, before);
      before = omega (arith, inside, after);
    }

default-IsPeriod :
    (text : Text) (a : ℕ) (t : Date)
    → IsDate t
    → IsPeriod (other_period text) a (ordinal t) (calculate_period_range (other_period text) a t)
unfolding cut calculate_period_range ordinal
default-IsPeriod text a t v =
    let this = index t.year t.month in
    let y' = t.year + (if t.month == 12 then 1 else 0) in
    let next : index y' (t.month % 12 + 1) ≡ suc this = ground (arith, v.in_year) in
    let inside = ordinal_in t v in
    record {
      i = this;
      starts = omega arith;
      ends = rw next (omega arith);
      after = inside.0;
      before = inside.1;
    }

IsPeriod-of :
    (p : PeriodType) (a : ℕ) (t : Date)
    → regular p ≡ true
    → IsDate t
    → 1 ≤ t.year
    → 1 ≤ a
    → IsPeriod p a (ordinal t) (calculate_period_range p a t)
unfolding calculate_period_range
IsPeriod-of monthly a t r v y lo = monthly-IsPeriod a t v y
IsPeriod-of weekly a t r v y lo = weekly-IsPeriod a (ordinal t) lo (omega (arith, late t v y))
IsPeriod-of yearly a t r v y lo = yearly-IsPeriod a t v
IsPeriod-of biweekly a t r v y lo = cc
IsPeriod-of (other_period text) a t r v y lo = default-IsPeriod text a t v

biweekly_contains :
    (a : ℕ) (t : Date)
    → IsDate t
    → 1 ≤ t.year
    → 1 ≤ a
    → (biweekly_start a (ordinal t) ≤ ordinal t) × (ordinal t ≤ biweekly_start a (ordinal t) + 13)
unfolding biweekly_start
biweekly_contains a t v y lo =
    let n = ordinal t in ground (arith, week_start_lem a n lo (omega (arith, late t v y)))

regular_contains :
    (p : PeriodType) (a n : ℕ) (range : ℕ × ℕ)
    → IsPeriod p a n range
    → (range.0 ≤ n) × (n ≤ range.1)
regular_contains p a n range s = omega (arith, s)

-- A period of any type has the date that it was computed for, for a date from the year 1 on and an
-- anchor day of 1 or more.
pub period-contains :
    (p : PeriodType) (a : ℕ) (t : Date)
    → IsDate t
    → 1 ≤ t.year
    → 1 ≤ a
    → ((calculate_period_range p a t).0 ≤ ordinal t)
      × (ordinal t ≤ (calculate_period_range p a t).1)
unfolding calculate_period_range
period-contains biweekly a t v y lo = biweekly_contains a t v y lo
period-contains monthly a t v y lo =
    regular_contains monthly a (ordinal t) _ (monthly-IsPeriod a t v y)
period-contains weekly a t v y lo =
    regular_contains weekly a (ordinal t) _
      (weekly-IsPeriod a (ordinal t) lo (omega (arith, late t v y)))
period-contains yearly a t v y lo = regular_contains yearly a (ordinal t) _ (yearly-IsPeriod a t v)
period-contains (other_period text) a t v y lo =
    regular_contains (other_period text) a (ordinal t) _ (default-IsPeriod text a t v)

-- For a period of any type but `BIWEEKLY`, two dates of the period have the same first and last day
-- of it, so that the periods of such a budget do not overlap; the dates are from the year 1 on, and
-- the anchor day is 1 or more.
pub period-same :
    (p : PeriodType) (a : ℕ) (t t' : Date)
    → regular p ≡ true
    → IsDate t
    → IsDate t'
    → 1 ≤ t.year
    → 1 ≤ t'.year
    → 1 ≤ a
    → (calculate_period_range p a t).0 ≤ ordinal t'
    → ordinal t' ≤ (calculate_period_range p a t).1
    → calculate_period_range p a t' ≡ calculate_period_range p a t
period-same p a t t' r v v' y y' lo after before =
    let this = IsPeriod-of p a t r v y lo in
    let that = IsPeriod-of p a t' r v' y' lo in
    let i =
      cut_unique p a (ordinal t') that.i this.i that.after that.before (omega (arith, this))
        (omega (arith, this, cut_grows p a this.i)) in
    cc (this.starts, this.ends, that.starts, that.ends, i)

-- The date of a day from the year 1 on.
pub civil_late : (n : ℕ) → 366 ≤ n → 1 ≤ (civil n).year
unfolding first_of
civil_late n h = elim (Bool-cases (leb 1 (civil n).year)) [
  | inl late ↦ ground arith
  | inr early ↦
      let v = (civil-ordinal n).0 in
      let year_one : first_of 12 ≡ 366 = refl in
      let months =
        first_of_mono (suc (index (civil n).year (civil n).month)) 12 (ground (arith, v.in_year)) in
      ground (arith, year_one, ordinal_in (civil n) v, months, civil-ordinal n)
]

-- For a period of any type but `BIWEEKLY`, the day after its last day is the first day of its own
-- period, so that the periods of such a budget leave out no day; the date is from the year 1 on, and
-- the anchor day is 1 or more.
pub period-next :
    (p : PeriodType) (a : ℕ) (t : Date)
    → regular p ≡ true
    → IsDate t
    → 1 ≤ t.year
    → 1 ≤ a
    → (calculate_period_range p a (civil ((calculate_period_range p a t).1 + 1))).0
      ≡ (calculate_period_range p a t).1 + 1
period-next p a t r v y lo =
    let this = IsPeriod-of p a t r v y lo in
    let n = (calculate_period_range p a t).1 + 1 in
    let found = civil-ordinal n in
    let large : 366 ≤ n = omega (arith, this, late t v y) in
    let that = IsPeriod-of p a (civil n) r found.0 (civil_late n large) lo in
    let next = cut_grows p a this.i in
    let i =
      cut_unique p a n that.i (suc this.i) (omega (arith, that, found.1))
        (omega (arith, that, found.1)) (omega (arith, this, next))
        (omega (arith, this, next, cut_grows p a (suc this.i))) in
    let starts = rw i at that.starts in omega (arith, starts, this, next)

-- A `BIWEEKLY` period whose week starts in an odd ISO week starts a week earlier. Where the week
-- after it is odd too, as at the end of a year of 53 weeks, the period of that next week starts
-- within the first one, on a later day than it. The dates are from the year 1 on, and the anchor day is
-- 1 or more.
pub biweekly_overlap :
    (a : ℕ) (t t' : Date)
    → IsDate t
    → 1 ≤ t.year
    → 1 ≤ a
    → ordinal t' ≡ ordinal t + 7
    → iso_week (week_start a (ordinal t)) % 2 ≡ 1
    → iso_week (week_start a (ordinal t')) % 2 ≡ 1
    → ((calculate_period_range biweekly a t).0 < (calculate_period_range biweekly a t').0)
      × ((calculate_period_range biweekly a t').0 ≤ (calculate_period_range biweekly a t).1)
unfolding calculate_period_range biweekly_start
biweekly_overlap a t t' v y lo later odd odd' =
    let large = late t v y in
    let here = week_start_lem a (ordinal t) lo (omega (arith, large)) in
    let there = week_start_lem a (ordinal t') lo (omega (arith, large)) in
    ground (arith, large, here, there)
