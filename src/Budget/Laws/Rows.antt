-- ===== src/Budget/Laws/Rows.antt =====
-- The constraints of the table of periods, and that the period service keeps them.
use finvo.Prelude.{
  ◌+◌, ℕ, ◌≤◌, ◌≡◌, refl, Bool, true, false, ◌||◌, arith, ltb, Bool-cases, inl, inr, some, List, [],
  ◌∷◌, ◌++◌,
}
use finvo.Prelude.Int.{ℤ, pos, ltb_ℤ, abs}
use finvo.Prelude.Lists.{
  select, count, count-append, length, count_ext, count-update_some_le, length-select,
}
use finvo.Prelude.Exec.{final, Holds-final}
use finvo.Budget.Store.{Budget, BudgetPeriod, World, Session, has_key, write_period}
use finvo.Budget.Laws.Latest.{All, Late}
use finvo.Budget.Laws.Rule.{range_of, IsKept, Kept-get_or_create}
use finvo.Budget.Periods.{fresh_period, get_or_create_current_period, added, clear}
use finvo.Budget.Calendar.{civil}
use finvo.Budget.Laws.Months.{civil-ordinal}
use finvo.Budget.Laws.Periods.{civil_late, period-contains}
use finvo.Budget.Spending.{refreshed, calculate_spent_amount}

-- a row that `chk_budget_periods_dates` or `chk_budget_periods_spent_positive` refuses, or that
-- carries a debt over
unfoldable pub is_bad : BudgetPeriod → Bool
is_bad p =
    ltb p.period_end p.period_start || ltb_ℤ p.rollover_in (pos 0) || ltb_ℤ p.spent_amount (pos 0)

-- `uq_budget_periods_budget_start`, and no bad row
pub record IsTable (ps : List BudgetPeriod) : Type 0 where
  pub keyed : (k start : ℕ) → count (has_key k start) ps ≤ 1
  pub good : count is_bad ps ≡ 0

abbrev pub Table : Session → Type 0
Table s = IsTable s.periods

abbrev pub Good : BudgetPeriod → Type 0
Good p = is_bad p ≡ false

clear-count :
    (q : BudgetPeriod → Bool) (ps : List BudgetPeriod) → clear (select q ps) ≡ true → count q ps ≡ 0
clear-count q ps h = none_left (select q ps) h (length-select q ps)
  where
    none_left :
        (rows : List BudgetPeriod) → clear rows ≡ true → length rows ≡ count q ps → count q ps ≡ 0
    none_left [] h e = omega (arith, e)
    none_left (x ∷ rows) h e = ground arith

-- a row is found by the key of a row that has it
same_key :
    (k start : ℕ) (p q : BudgetPeriod)
    → has_key k start p ≡ true
    → has_key p.budget_id p.period_start q ≡ has_key k start q
same_key k start p q h =
    let a : p.budget_id ≡ k = ground arith in
    let b : p.period_start ≡ start = ground arith in rw (a, b) refl

-- a row with a key that is not in the table
pub Table-added :
    (p : BudgetPeriod) (s : Session)
    → Table s
    → Good p
    → clear (select (has_key p.budget_id p.period_start) s.periods) ≡ true
    → Table (added p s)
unfolding count
Table-added p s t g c = record {
  keyed = λ k start. one_more k start;
  good = ground (arith, count-append is_bad s.periods (p ∷ []), t.good);
}
  where
    one_more : (k start : ℕ) → count (has_key k start) (s.periods ++ p ∷ []) ≤ 1
    one_more k start = elim (Bool-cases (has_key k start p)) [
      | inl same ↦
          let unused = clear-count (has_key p.budget_id p.period_start) s.periods c in
          let ext =
            count_ext (has_key p.budget_id p.period_start) (has_key k start) s.periods
              (λ q. same_key k start p q same) in
          ground (arith, count-append (has_key k start) s.periods (p ∷ []), ext, unused)
      | inr other ↦
          ground (arith, count-append (has_key k start) s.periods (p ∷ []), t.keyed k start)
    ]

pub Table-write_period :
    (p : BudgetPeriod) (s : Session) → Table s → Good p → Table (final (write_period p s))
Table-write_period p s t g =
    let mine = has_key p.budget_id p.period_start in
    let table : Table (final (write_period p s)) = record {
      keyed = λ k start. omega (
        arith,
        t.keyed k start,
        count-update_some_le (has_key k start) mine (λ _. p) s.periods (moved k start),
      );
      good = omega (arith, t.good, count-update_some_le is_bad mine (λ _. p) s.periods not_bad);
    } in
    table
  where
    moved :
        (k start : ℕ) (x : BudgetPeriod)
        → has_key p.budget_id p.period_start x ≡ true
        → has_key k start p ≡ true
        → has_key k start x ≡ true
    moved k start x a b = ground arith

    not_bad :
        (x : BudgetPeriod)
        → has_key p.budget_id p.period_start x ≡ true
        → is_bad p ≡ true
        → is_bad x ≡ true
    not_bad x a b = cc (g, b)

refreshed-Good : (w : World) (b : Budget) (p : BudgetPeriod) → Good p → Good (refreshed w b p)
unfolding refreshed calculate_spent_amount is_bad abs
refreshed-Good w b p g = ground arith

fresh_period-Good :
    (b : Budget) (range : ℕ × ℕ) (amount : ℤ)
    → range.0 ≤ range.1
    → ltb_ℤ amount (pos 0) ≡ false
    → Good (fresh_period b range amount)
unfolding is_bad
fresh_period-Good b range amount h k = ground arith

-- The rows that other workers commit are not bad either.
abbrev pub GoodRivals : World → Type 0
GoodRivals w =
    (k start : ℕ) (r : BudgetPeriod)
    → w.rival k start ≡ some r
    → is_bad (record r { budget_id = k; period_start = start }) ≡ false

All-Good : (ps : List BudgetPeriod) → count is_bad ps ≡ 0 → All Good ps
unfolding count
All-Good [] h = tt
All-Good (p ∷ ps) h = (ground arith, All-Good ps (ground arith))

-- the days from the year 1 on
abbrev Dated : ℕ → Type 0
Dated n = 366 ≤ n

range_valid :
    (b : Budget) (n : ℕ)
    → 1 ≤ b.period_anchor_day
    → 366 ≤ n
    → ((range_of b n).0 ≤ (range_of b n).1) × (n ≤ (range_of b n).1)
range_valid b n lo h =
    let found = civil-ordinal n in
    omega (
      arith,
      found.1,
      period-contains b.period_type b.period_anchor_day (civil n) found.0 (civil_late n h) lo,
    )

Table-IsKept :
    (w : World) (b : Budget) → GoodRivals w → 1 ≤ b.period_anchor_day → IsKept w b Dated Table Good
unfolding is_bad
Table-IsKept w b rivals lo = record {
  next = λ n h. omega (arith, range_valid b n lo h, h);
  rows = λ s t. All-Good s.periods t.good;
  fresh = λ n amount h k. fresh_period-Good b (range_of b n) amount (range_valid b n lo h).0 k;
  rival = rivals;
  refresh = refreshed-Good w b;
  booked = λ p amount g. g;
  inserted = Table-added;
  written = Table-write_period;
  balanced = λ amount s t. t;
}

Late-Dated : (ps : List BudgetPeriod) → All Late ps → All (λ p. 366 ≤ p.period_end + 1) ps
Late-Dated [] h = tt
Late-Dated (p ∷ ps) h = (omega (arith, h.0), Late-Dated ps h.1)

-- `get_or_create_current_period` keeps the table of periods within its constraints, whether it
-- returns or raises: one row for a budget and a start, no row that ends before it starts or has
-- negative spending, and none that carries a debt over from the period before. The rows that
-- other workers insert meanwhile are taken to be such rows, the owner's date to be in the year 1
-- or later, the rows to end after the year 0, and the anchor day to be 1 or more.
pub get_or_create_current_period-IsTable :
    (w : World) (b : Budget) (s : Session)
    → GoodRivals w
    → 1 ≤ b.period_anchor_day
    → 366 ≤ w.today b.owner_uuid
    → All Late s.periods
    → IsTable s.periods
    → IsTable (final (get_or_create_current_period w b s)).periods
get_or_create_current_period-IsTable w b s rivals lo today late t =
    Holds-final Table Good (get_or_create_current_period w b s) (
      Kept-get_or_create w b Dated Table Good (Table-IsKept w b rivals lo) s today
        (Late-Dated s.periods late) t)
