-- ===== src/Account.antt =====
-- Accounts: the lifecycle of server/app/services/user_service.py. `Model` has the rows and the
-- tables, `Lifecycle` the operations that create, save, update, delete and merge accounts, `Closing`
-- the closing of an account.
pub mod Model
pub mod Lifecycle
pub mod Closing
pub mod Laws
mod Tests
