-- ===== src/Records/Laws.antt =====
-- What the operations do to the balances.
pub mod Lifecycle
pub mod Deletion
pub mod Relinking
pub mod Creation
pub mod Booked
pub mod Stranded
pub mod Batch
pub mod Batches
pub mod Resent
pub mod Aborts
