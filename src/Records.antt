-- ===== src/Records.antt =====
-- The operations on recorded transactions: server/app/services/transaction/crud_service.py. `Store`
-- has the tables and the guards, `Operations` the operations, `Creation` and `Batch` the creation, `Laws` the proofs.
pub mod Store
pub mod Operations
pub mod Creation
pub mod Batch
pub mod Laws
mod Tests
mod BatchTests
