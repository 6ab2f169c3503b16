-- ===== src/Budget/Spending.antt =====
-- server/app/services/budget_period_service.py and statistics_scope.py: the spending in a period,
-- and the status that it gives the period.
use finvo.Prelude.{
  ℕ, ◌+◌, Bool, true, false, not, ◌&&◌, Option, none, some, List, [], ◌∷◌, ◌==◌, leb, ltb,
  if◌then◌else◌,
}
use finvo.Prelude.Int.{ℤ, pos, ◌+ℤ◌, abs, is_zero, ltb_ℤ}
use finvo.Prelude.Lists.{select}
use finvo.Prelude.Text.{Text, text_eq}
use finvo.Ledger.Model.{TxType, expense, TxStatus, cleared}
use finvo.Budget.Store.{
  Budget, BudgetPeriod, BudgetSettings, PeriodStatus, on_track, warning, exceeded, Spending, World,
  Operation, write_period,
}

abbrev is_expense : TxType → Bool
is_expense expense = true
is_expense _ = false

abbrev is_cleared : TxStatus → Bool
is_cleared cleared = true
is_cleared _ = false

-- `if category_key: ...`; an empty key filters nothing.
abbrev in_category : Option Text → Option Text → Bool
in_category none _ = true
in_category (some []) _ = true
in_category (some (c ∷ key)) none = false
in_category (some (c ∷ key)) (some k) = text_eq k (c ∷ key)

-- the conditions of the spending query, `settled_spending_conditions()` among them
unfoldable pub is_counted : ℕ → ℕ → ℕ → Option Text → Spending → Bool
is_counted user_uuid start_dt end_dt category_key r =
    r.tx.user_uuid == user_uuid
    && is_expense r.tx.tx_type
    && is_cleared r.tx.status
    && not r.is_system
    && leb start_dt r.transaction_at
    && ltb r.transaction_at end_dt
    && in_category category_key r.category_key

unfoldable pub sum_amounts : List Spending → ℤ
sum_amounts [] = pos 0
sum_amounts (r ∷ rest) = r.tx.amount +ℤ sum_amounts rest

-- `user_date_range_utc`: from the first instant of a day to the first after another
abbrev pub user_date_range_utc : World → ℕ → ℕ → ℕ → ℕ × ℕ
user_date_range_utc w user_uuid start end =
    (w.midnight user_uuid start, w.midnight user_uuid (end + 1))

unfoldable pub calculate_spent_amount : World → ℕ → ℕ → ℕ → Option Text → ℤ
unfolding is_counted sum_amounts
calculate_spent_amount w user_uuid start end category_key =
    let (start_dt, end_dt) = user_date_range_utc w user_uuid start end in
    abs (sum_amounts (select (is_counted user_uuid start_dt end_dt category_key) w.transactions))

abbrev warning_threshold : Option BudgetSettings → ℕ
warning_threshold none = 70
warning_threshold (some s) = s.warning_threshold

abbrev alert_threshold : Option BudgetSettings → ℕ
alert_threshold none = 90
alert_threshold (some s) = s.alert_threshold

-- `usage_percentage >= threshold`; the percentage of the target 0 is 0.
abbrev pub reaches : World → ℕ → ℤ → ℤ → Bool
reaches w threshold spent target =
    if is_zero target then threshold == 0 else w.float_reaches threshold spent target

unfoldable pub status_of : World → Option BudgetSettings → ℤ → ℤ → PeriodStatus
status_of w settings spent target =
    if ltb_ℤ target spent
    then exceeded
    else if reaches w (alert_threshold settings) spent target
    then exceeded
    else if reaches w (warning_threshold settings) spent target
    then warning
    else on_track

-- the period with its spending and its status as they are now
unfoldable pub refreshed : World → Budget → BudgetPeriod → BudgetPeriod
unfolding calculate_spent_amount status_of
refreshed w b p =
    let spent = calculate_spent_amount w b.owner_uuid p.period_start p.period_end b.category_key in
    record p {
      spent_amount = spent;
      status = status_of w (w.settings b.owner_uuid) spent p.adjusted_target;
    }

unfoldable pub update_period_spent_amount : World → Budget → BudgetPeriod → Operation BudgetPeriod
unfolding refreshed
update_period_spent_amount w b p = write_period (refreshed w b p)
