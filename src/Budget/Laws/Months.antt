-- ===== src/Budget/Laws/Months.antt =====
-- Day numbers by months, and dates from day numbers.
use finvo.Prelude.{
  ℕ, zero, suc, ◌+◌, ◌-◌, ◌/◌, ◌%◌, ◌≤◌, ◌<◌, ◌≡◌, refl, arith, ltb, leb, Bool-cases, inl, inr,
}
use finvo.Budget.Calendar.{
  Date, ymd, month_days, length_of, first_of, index, ordinal, find_month, civil, IsDate,
}

pub month_days_bounds : (y m : ℕ) → (28 ≤ month_days y m) × (month_days y m ≤ 31)
unfolding month_days
month_days_bounds y m = ground arith

pub length_of-index : (y m : ℕ) → 1 ≤ m → m ≤ 12 → length_of (index y m) ≡ month_days y m
unfolding length_of
length_of-index y m lo hi =
    let a : index y m / 12 ≡ y = omega arith in
    let b : index y m % 12 + 1 ≡ m = omega arith in rw (a, b) refl

pub length_of_bounds : (i : ℕ) → (28 ≤ length_of i) × (length_of i ≤ 31)
unfolding length_of
length_of_bounds i = month_days_bounds (i / 12) (i % 12 + 1)

pub first_of-suc : (i : ℕ) → first_of (suc i) ≡ first_of i + length_of i
unfolding first_of
first_of-suc i = refl

pub first_of_mono : (i j : ℕ) → i ≤ j → first_of i ≤ first_of j
first_of_mono i zero h = let e : i ≡ 0 = omega arith in rw e (omega arith)
first_of_mono i (suc j) h = elim (Bool-cases (leb i j)) [
  | inl before ↦ first_of_step i j (first_of_mono i j (ground arith))
  | inr last ↦ let e : i ≡ suc j = ground arith in rw e (omega arith)
]
  where
    first_of_step : (i j : ℕ) → first_of i ≤ first_of j → first_of i ≤ first_of (suc j)
    first_of_step i j h = omega (arith, first_of-suc j)

-- a day of a month lies in it
pub ordinal_in :
    (t : Date)
    → IsDate t
    → (first_of (index t.year t.month) ≤ ordinal t)
      × (ordinal t < first_of (suc (index t.year t.month)))
unfolding ordinal first_of
ordinal_in t v = omega (arith, length_of-index t.year t.month v.in_year.0 v.in_year.1, v.in_month)

-- the `n`-th day of the month with the index `i`
found_day :
    (i n : ℕ)
    → n < length_of i
    → IsDate (ymd (i / 12) (i % 12 + 1) (n + 1))
      × (ordinal (ymd (i / 12) (i % 12 + 1) (n + 1)) ≡ first_of i + n)
unfolding ordinal
found_day i n h =
    let same : index (i / 12) (i % 12 + 1) ≡ i = omega arith in
    let days = length_of-index (i / 12) (i % 12 + 1) (omega arith) (omega arith) in
    let size : length_of i ≡ month_days (i / 12) (i % 12 + 1) = rw same at days in
    (omega (arith, size), rw same (omega arith))

-- The search ends, and finds the date with the day number.
find_month-ordinal :
    (fuel i n : ℕ)
    → n ≤ fuel
    → IsDate (find_month fuel i n) × (ordinal (find_month fuel i n) ≡ first_of i + n)
unfolding find_month
find_month-ordinal zero i n h = found_day i n (omega (arith, length_of_bounds i))
find_month-ordinal (suc fuel) i n h = elim (Bool-cases (ltb n (length_of i))) [
  | inl inside ↦ rw inside (found_day i n (ground arith))
  | inr later ↦
      let rest =
        find_month-ordinal fuel (suc i) (n - length_of i) (ground (arith, length_of_bounds i)) in
      let over : length_of i ≤ n = ground arith in
      rw later (rest.0, omega (arith, rest.1, first_of-suc i))
]

pub civil-ordinal : (n : ℕ) → IsDate (civil n) × (ordinal (civil n) ≡ n)
unfolding civil first_of
civil-ordinal n =
    let found = find_month-ordinal n 0 n (omega arith) in (found.0, omega (arith, found.1))
