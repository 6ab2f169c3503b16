-- ===== src/Ledger/Laws.antt =====
-- What booking does, and how booking, reversal and recomputation fit together.
pub mod Pointwise
pub mod Items
pub mod Booking
pub mod Reversal
pub mod Order
pub mod Sum
pub mod Diff
pub mod Recompute
pub mod Expected
pub mod Recomputed
pub mod Transfer
pub mod Unconverted
