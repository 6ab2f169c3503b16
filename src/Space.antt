-- ===== src/Space.antt =====
-- Shared spaces: server/app/services/shared_space_service.py, shared_space_access.py,
-- shared_space_transaction_service.py and the models of server/app/models/shared_space.py. `Model`
-- has the tables and the session, `Access` the role checks, `Service` the operations on a space,
-- `Members` those on its members, `Linking` the links of transactions to it, `Recording` their
-- creation for a space. The proofs are in
-- `Rules` (what a check guarantees), `Invariant`, `Keeps` and `History` (the ownership of a space)
-- and `Effects` (what an operation has done if it returns).
pub mod Model
pub mod Access
pub mod Service
pub mod Linking
pub mod Rules
pub mod Invariant
pub mod Keeps
pub mod History
pub mod Effects
pub mod Members
pub mod Recording
mod Tests
mod SharingTests
