-- ===== src/Budget.antt =====
-- Budgets and their periods: server/app/services/budget_period_service.py, budget_service.py and
-- the tables of server/app/models/budget.py. `Calendar` is the part of Python's `date` that they
-- use, `Range` the first and last day of a period, `Store` the tables, `Spending` the
-- spending in a period, `Periods` the periods of a budget, `Service` the changes of a budget's amount.
pub mod Calendar
pub mod Range
pub mod Store
pub mod Spending
pub mod Periods
pub mod Service
pub mod Laws
mod Tests
