-- ===== src/Budget/Store.antt =====
-- The tables of the budgets, and what their services read beside them.
use finvo.Prelude.{ℕ, Bool, ◌&&◌, Option, none, some, List, [], ◌∷◌, ◌==◌}
use finvo.Prelude.Int.{ℤ}
use finvo.Prelude.Lists.{update_where}
use finvo.Prelude.Text.{Text}
use finvo.Prelude.Exec.{Exec, Outcome, ok, err, pure, raise, modify}
use finvo.Ledger.Model.{Transaction}
use finvo.Budget.Range.{PeriodType}

pub data BudgetStatus : Type 0 where
  active paused archived : BudgetStatus

-- `BudgetPeriodStatus`
pub data PeriodStatus : Type 0 where
  on_track warning exceeded achieved : PeriodStatus

pub record Budget : Type 0 where
  pub id : ℕ
  pub owner_uuid : ℕ
  pub category_key : Option Text
  pub amount : ℤ
  pub currency_code : Text
  pub period_type : PeriodType
  pub period_anchor_day : ℕ
  pub rollover_enabled : Bool
  pub rollover_balance : ℤ
  pub status : BudgetStatus

-- Dates are day numbers.
pub record BudgetPeriod : Type 0 where
  pub budget_id : ℕ
  pub period_start : ℕ
  pub period_end : ℕ
  pub spent_amount : ℤ
  pub rollover_in : ℤ
  pub rollover_out : ℤ
  pub adjusted_target : ℤ
  pub status : PeriodStatus

pub record BudgetSettings : Type 0 where
  pub warning_threshold : ℕ
  pub alert_threshold : ℕ

-- the columns of a transaction that the spending query reads
pub record Spending : Type 0 where
  pub tx : Transaction
  pub is_system : Bool
  pub category_key : Option Text
  pub transaction_at : ℕ

-- What the services read and do not change: the owners' local dates, the instants at which their
-- days begin, the transactions, the settings; `float(spent / target * 100) >= threshold` for a
-- target other than 0; and the row that another worker has committed for a budget and a start
-- between the query for that row and the insertion, if one has; the users' base currencies, and
-- the live conversion of an amount, `none` where no rate is available.
pub record World : Type 0 where
  pub today : ℕ → ℕ
  pub midnight : ℕ → ℕ → ℕ
  pub transactions : List Spending
  pub settings : ℕ → Option BudgetSettings
  pub float_reaches : ℕ → ℤ → ℤ → Bool
  pub rival : ℕ → ℕ → Option BudgetPeriod
  pub base_currency : ℕ → Text
  pub convert : ℤ → Text → Text → Option ℤ

pub record Session : Type 0 where
  pub budgets : List Budget
  pub periods : List BudgetPeriod

pub data BudgetError : Type 0 where
  multiple_rows integrity_error out_of_fuel : BudgetError
  rate_unavailable : BudgetError

abbrev pub Operation : Type 0 → Type 0
Operation A = Exec Session BudgetError A

-- `Result.scalar_one_or_none()`
abbrev pub scalar_one_or_none : {A : Type 0} → List A → Operation (Option A)
scalar_one_or_none [] = pure none
scalar_one_or_none (x ∷ []) = pure (some x)
scalar_one_or_none (x ∷ y ∷ rest) = raise multiple_rows

abbrev pub has_id : ℕ → Budget → Bool
has_id k b = b.id == k

-- the unique key of the table of periods
abbrev pub has_key : ℕ → ℕ → BudgetPeriod → Bool
has_key budget_id start p = p.budget_id == budget_id && p.period_start == start

-- the session's object of a row, after a change
abbrev pub write_period : BudgetPeriod → Operation BudgetPeriod
write_period p s = (
  ok p,
  record s { periods = update_where (has_key p.budget_id p.period_start) (λ _. p) s.periods },
)

abbrev pub write_budget : ℕ → (Budget → Budget) → Operation (Unit {0})
write_budget k f = modify (λ s. record s { budgets = update_where (has_id k) f s.budgets })

-- `try: m` with `k` after it, and `h` for an `IntegrityError`
abbrev pub after_try :
    {A B : Type 0} → Outcome BudgetError A → (A → Operation B) → Operation B → Operation B
after_try (ok a) k h = k a
after_try (err integrity_error) k h = h
after_try (err multiple_rows) k h = raise multiple_rows
after_try (err out_of_fuel) k h = raise out_of_fuel
after_try (err rate_unavailable) k h = raise rate_unavailable

abbrev pub try_except : {A B : Type 0} → Operation A → (A → Operation B) → Operation B → Operation B
try_except m k h s = let (r, s') = m s in after_try r k h s'
