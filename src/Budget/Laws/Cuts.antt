-- ===== src/Budget/Laws/Cuts.antt =====
-- `_calculate_period_range` by the days on which the periods of a type start.
use finvo.Prelude.{
  ℕ, zero, suc, ◌+◌, ◌-◌, ◌*◌, ◌%◌, ◌≤◌, ◌<◌, ◌≡◌, refl, Bool, true, false, arith, ltb, leb, ◌==◌,
  Bool-cases, inl, inr,
}
use finvo.Budget.Calendar.{Date, month_days, length_of, first_of, index, ordinal, IsDate}
use finvo.Budget.Range.{
  PeriodType, weekly, biweekly, monthly, yearly, other_period, min, next_month, prev_month,
  anchored, monthly_range,
}
use finvo.Budget.Laws.Months.{
  length_of-index, length_of_bounds, first_of-suc, first_of_mono, ordinal_in,
}

-- the types whose periods follow each other
abbrev pub regular : PeriodType → Bool
regular biweekly = false
regular _ = true

-- the day of the anchor in the month with the index `i`
abbrev anchor_at : ℕ → ℕ → ℕ
anchor_at a i = first_of i + (min a (length_of i) - 1)

-- the first day of the `i`-th period of a type
unfoldable pub cut : PeriodType → ℕ → ℕ → ℕ
cut monthly a i = anchor_at a i
cut weekly a i = 7 * i + (a + 1) % 7
cut yearly a i = first_of (12 * i)
cut biweekly a i = i
cut (other_period _) a i = first_of i

-- `range` is the period with the number `i`, and the day `n` lies in it.
pub record IsPeriod (p : PeriodType) (a n : ℕ) (range : ℕ × ℕ) : Type 0 where
  pub i : ℕ
  pub starts : range.0 ≡ cut p a i
  pub ends : range.1 ≡ cut p a (suc i) - 1
  pub after : cut p a i ≤ n
  pub before : n < cut p a (suc i)

anchor_bounds : (a i : ℕ) → (first_of i ≤ anchor_at a i) × (anchor_at a i < first_of (suc i))
anchor_bounds a i = ground (arith, length_of_bounds i, first_of-suc i)

-- the year after `y` starts 365 or 366 days later
year_later : (y : ℕ) → first_of (12 * y) < first_of (12 * suc y)
year_later y =
    let months = first_of_mono (suc (12 * y)) (12 * suc y) (omega arith) in
    omega (arith, months, first_of-suc (12 * y), length_of_bounds (12 * y))

cut_first : (a i : ℕ) → (first_of i ≤ cut monthly a i) × (cut monthly a i < first_of (suc i))
unfolding cut
cut_first a i = anchor_bounds a i

pub cut_grows : (p : PeriodType) (a i : ℕ) → cut p a i < cut p a (suc i)
unfolding cut
cut_grows monthly a i = omega (arith, anchor_bounds a i, anchor_bounds a (suc i))
cut_grows weekly a i = omega arith
cut_grows yearly a i = year_later i
cut_grows biweekly a i = omega arith
cut_grows (other_period _) a i = omega (arith, length_of_bounds i, first_of-suc i)

pub cut_mono : (p : PeriodType) (a i j : ℕ) → i ≤ j → cut p a i ≤ cut p a j
cut_mono p a i zero h = let e : i ≡ 0 = omega arith in rw e (omega arith)
cut_mono p a i (suc j) h = elim (Bool-cases (leb i j)) [
  | inl before ↦ omega (arith, cut_mono p a i j (ground arith), cut_grows p a j)
  | inr last ↦ let e : i ≡ suc j = ground arith in rw e (omega arith)
]

-- a day lies in one period
pub cut_unique :
    (p : PeriodType) (a n i j : ℕ)
    → cut p a i ≤ n
    → n < cut p a (suc i)
    → cut p a j ≤ n
    → n < cut p a (suc j)
    → i ≡ j
cut_unique p a n i j i1 i2 j1 j2 = elim (Bool-cases (ltb i j)) [
  | inl less ↦ omega (arith, cut_mono p a (suc i) j (ground arith))
  | inr more ↦ elim (Bool-cases (ltb j i)) [
    | inl less ↦ omega (arith, cut_mono p a (suc j) i (ground arith))
    | inr same ↦ ground arith
  ]
]

anchored-cut : (a y m : ℕ) → 1 ≤ m → m ≤ 12 → anchored a (y, m) ≡ cut monthly a (index y m)
unfolding anchored cut ordinal
anchored-cut a y m lo hi = rw (length_of-index y m lo hi) refl

next-cut :
    (a y m : ℕ) → 1 ≤ m → m ≤ 12 → anchored a (next_month y m) ≡ cut monthly a (suc (index y m))
next-cut a y m lo hi = elim (Bool-cases (m == 12)) [
  | inl last ↦
      let e : index (y + 1) 1 ≡ suc (index y m) = ground arith in
      rw last (rw e at (anchored-cut a (y + 1) 1 (omega arith) (omega arith)))
  | inr other ↦
      let e : index y (m + 1) ≡ suc (index y m) = omega arith in
      rw other (rw e at (anchored-cut a y (m + 1) (omega arith) (ground arith)))
]

prev-cut :
    (a y m : ℕ)
    → 1 ≤ m
    → m ≤ 12
    → 1 ≤ y
    → anchored a (prev_month y m) ≡ cut monthly a (index y m - 1)
prev-cut a y m lo hi later = elim (Bool-cases (m == 1)) [
  | inl first ↦
      let e : index (y - 1) 12 ≡ index y m - 1 = ground arith in
      rw first (rw e at (anchored-cut a (y - 1) 12 (omega arith) (omega arith)))
  | inr other ↦
      let e : index y (m - 1) ≡ index y m - 1 = ground arith in
      rw other (rw e at (anchored-cut a y (m - 1) (ground arith) (omega arith)))
]

-- where a day of a month lies beside the anchor of the month
beside_anchor :
    (a : ℕ) (t : Date)
    → IsDate t
    → (leb (min a (month_days t.year t.month)) t.day ≡ true
        → cut monthly a (index t.year t.month) ≤ ordinal t)
      × (leb (min a (month_days t.year t.month)) t.day ≡ false
          → ordinal t < cut monthly a (index t.year t.month))
unfolding cut ordinal
beside_anchor a t v =
    let days = length_of-index t.year t.month v.in_year.0 v.in_year.1 in
    rw days (λ h. ground (arith, v.in_month), λ h. ground (arith, v.in_month))

pub monthly-IsPeriod :
    (a : ℕ) (t : Date) → IsDate t → 1 ≤ t.year → IsPeriod monthly a (ordinal t) (monthly_range a t)
unfolding monthly_range
monthly-IsPeriod a t v y =
    let this = index t.year t.month in
    let here = anchored-cut a t.year t.month v.in_year.0 v.in_year.1 in
    let side = beside_anchor a t v in
    let inside = ordinal_in t v in
    elim (Bool-cases (leb (min a (month_days t.year t.month)) t.day)) [
      | inl e ↦ rw e record {
        i = this;
        starts = here;
        ends = rw (next-cut a t.year t.month v.in_year.0 v.in_year.1) refl;
        after = side.0 e;
        before = omega (arith, inside, cut_first a (suc this));
      }
      | inr e ↦
          let last : suc (this - 1) ≡ this = omega arith in
          rw e record {
            i = this - 1;
            starts = prev-cut a t.year t.month v.in_year.0 v.in_year.1 y;
            ends = rw (here, last) refl;
            after = ground (arith, inside, cut_first a (this - 1), last);
            before = rw last (side.1 e);
          }
    ]
