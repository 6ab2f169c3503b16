-- ===== src/Ledger.antt =====
-- Account balances: server/app/services/account_balance.py and
-- server/app/services/transaction/ledger_service.py. `Model` has the rows, `Convert` the conversion of
-- a snapshot, `Effects` the booking and the reversal of a transaction, `Expected` the balance that
-- the transactions imply. `Laws` and the modules below it have the proofs.
pub mod Model
pub mod Convert
pub mod Effects
pub mod Expected
pub mod Laws
mod Tests
