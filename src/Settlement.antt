-- ===== src/Settlement.antt =====
-- Who owes whom in a shared space: server/app/services/shared_space_settlement_service.py. `Balances`
-- has the balances of the members, `Payments` the payments that settle them and `get_settlement`.
-- `Laws` has the proofs.
pub mod Balances
pub mod Payments
pub mod Laws
mod Tests
