-- ===== src/Recurring.antt =====
-- Recurring transactions: server/app/services/recurring_transaction_jobs.py and the next execution
-- of a rule in server/app/services/transaction/recurring_service.py. `Store` has the tables, `Schedule`
-- the next execution, `Jobs` the run of the due rules, `Validation` and `Rules` the creation, update and
-- deletion of rules.
pub mod Store
pub mod Schedule
pub mod Jobs
pub mod Validation
pub mod Rules
pub mod Laws
mod Tests
