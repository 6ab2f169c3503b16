-- ===== src/Lib.antt =====
-- Verification of the finvo server (server/app), a FastAPI service for personal bookkeeping.
--
-- Parts and files:
--   Prelude   Boolean tests, lists as tables with SELECT, UPDATE and DELETE, texts, signed numbers,
--             and methods that change a state and may raise.
--   Space     Shared spaces and their members: services/shared_space_service.py,
--             services/shared_space_access.py, services/shared_space_transaction_service.py (Linking, and
--             Recording, which creates the transactions through Records),
--             models/shared_space.py. Space.Model has the tables of a session, Access the role checks,
--             Service and Members the operations under their names in the source, History the requests
--             in their units of work (core/database.py, core/events.py). Each operation is a chain of
--             queries, guards and writes in the order of the source; a raise leaves the writes before
--             it to the unit of work, which rolls back.
--   Ledger    Account balances: services/account_balance.py and services/transaction/ledger_service.py
--             on rows of models/transaction.py and models/financial_account.py. Convert has the
--             conversion of a snapshot, Effects the booking, its reversal and the adjustment after an
--             edit, Expected the recomputation.
--   Settlement
--             Who owes whom in a space: services/shared_space_settlement_service.py, on the tables of
--             Space and the rates of Ledger.
--   Records   Creation, deletion, confirmation, skipping and changes of recorded transactions:
--             services/transaction/crud_service.py, which calls the operations of Ledger. Batch has the
--             batches, item by item, in savepoints that return the tables from before. The row that
--             another worker inserts under an idempotency key is a field (rival) of a record.
--   Budget    Budgets and their periods: services/budget_period_service.py, budget_service.py,
--             statistics_scope.py and models/budget.py. Budget.Calendar has the dates, by day numbers,
--             Range the days of a period, Store the tables, Spending the spending in a period and its
--             status, Periods the period of today and the loop that fills a gap, Service the changes
--             of the amounts. What another worker inserts between a query and an insertion is a field
--             of a record (World), as are the owners' time zones and the floating point comparison.
--   Auth      Verification codes and logins: services/code_manager.py, services/auth_service.py and the
--             methods of core/cache.py that they call. Auth.Redis is the interface of the server behind
--             the cache, with its documented behaviour as the record IsRedis. Username and Register have
--             the registration, which creates the settings of Settings.
--   Recurring Recurring transactions: services/recurring_transaction_jobs.py and
--             services/transaction/recurring_service.py. A rule's failure rolls its savepoint back:
--             Recurring.Jobs.process_item returns the tables from before. The recursion over excepted
--             dates is on its depth, which the source limits to 100. Validation and Rules have the
--             creation, update and deletion of rules.
--   Account   The accounts of a user: services/user_service.py and count_account_references of
--             services/account_balance.py on models/financial_account.py. Lifecycle has the creation,
--             save, update, deletion and merge, Closing the closing with its three disposals, which
--             books through Records.
--   Settings  The settings of a user: the rest of services/user_service.py on
--             models/financial_settings.py and models/user_settings.py, with the recalculation of the
--             base amounts, and utils/currency_inference.py.
--
-- A table is the list of its rows, or a function of the primary key. Identifiers are numbers and
-- instants are seconds. A Decimal amount is a signed number of units of its last stored place
-- (10^-8); sums of stored amounts are exact, and division, multiplication and the exchange rate service are fields of
-- a record that the definitions take (Rates). In the settlement the unit is a place fine enough
-- for every Decimal that occurs, `cent` is the number of units in 0.01, and `fit` rounds a sum to the
-- digits that a Decimal keeps; payments and totals are printed with two decimals. Accounts in Ledger
-- are those in the database when a method is called, since the callers flush between two calls; a
-- locked read drops what is not flushed, which matters for a transfer from an account to itself
-- (Ledger.Effects.transfer_items) and for a batch (Records.Batch.reread). A run of the recurring jobs
-- has one calendar for all rules, and one new identifier. The user's base currency
-- and the settings of users are arguments where they are only read. `upper`, `lower` and `strip`
-- treat the ASCII characters.
-- The loops over a list that was read before are structural recursion. The loop that fills the gap
-- after a budget's last period runs on fuel, the number of days from its first date to today: each
-- round moves the date by a day or more, and running out is an error of its own.
--
-- Not modelled: the listings and the rendering of responses, logging, time stamps, statistics that are
-- computed in SQL, the waiting for row locks (it orders writers), network and storage I/O, language models,
-- the profile of a user, and the client.
pub mod Prelude
pub mod Space
pub mod Ledger
pub mod Settlement
pub mod Records
pub mod Budget
pub mod Auth
pub mod Recurring
pub mod Account
pub mod Settings
